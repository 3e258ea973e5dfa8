-- ===== src/Lib.antt =====
-- masque-vpn: a VPN that carries IP packets in MASQUE CONNECT-IP connections over QUIC.
--
-- The server (vpn_server) accepts requests of clients that a certificate names, gives each an address
-- of its pool, keeps a session for each address, and sends packets from its TUN device to the session
-- of their destination, with forward error correction where it is enabled. The client (vpn_client)
-- opens the connection and forwards between its own TUN device and the server. Both use common: the
-- addresses, headers and pool of common/ip.go, the error correction of common/fec, the connection of
-- common/masque_connectip.go, the TUN devices of common/tun.go and the errors of common/errors.go.
--
-- Files, and what they model:
--   Prelude: names, lists over native numbers, the tests, exclusive or on bits, association lists for
--     Go's maps (`lookup`, `store`, `delete`), signed integers where the code has `int` below 0.
--   Fec/Config, Fec/Encoder, Fec/Decoder: common/fec/fec.go and common/fec/xor_fec.go. A packet is a
--     list of bytes, nil is `none`. Fec/Columns to Fec/Delivery are the proofs on the redundancy packet (Parity), the blocks
--     (Blocks), the map of losses (Grouping, Roundtrip), what arrives (Window) and recovery (Recovery,
--     Repair, Delivery); Fec/Limits is about the limits of both.
--   Ip/Addr, Ip/Network, Ip/Packet, Ip/Pool: common/ip.go. An address is the list of its bytes. A slice
--     out of range is `panics`. Ip/Count gives an address its number; Ip/Range, Ip/Hosts and Ip/Listing
--     follow the loop of `NewIPPool`; Ip/Leases and Ip/Histories are about `Allocate` and `Release`;
--     Ip/Headers and Ip/Layouts about the readers of packet headers, those of
--     vpn_server/internal/server/packet_processor.go (Server/Parse) included.
--   Errors/Kinds, Errors/Classes, Errors/Strategies: common/errors.go. An error is the chain that errors.Is and errors.As
--     walk.
--   Tunnel/Loopback, Tunnel/Order, Tunnel/Client: common/masque_connectip.go, the server's end with its
--     two channels and goroutine, and `ConnectIP` and `Close` of the client. What QUIC answers is a parameter.
--     Tunnel/Calls cuts the calls on the server's end at the points where others can come between,
--     Tunnel/Flow, Tunnel/Effects and Tunnel/Closing follow the packets through any overlap of them, and Tunnel/Written
--     goes back from what is read to what was written.
--   Server/State, Server/Sessions: the maps of vpn_server/internal/server/server.go and the critical
--     sections under `IPPoolMu` (masque_handler.go, api_server.go, packet_processor.go), one function
--     each. Sessions stand in a list, and a pointer to one is its index.
--   Server/Requests: `handleMASQUERequest` up to the proxies, and the end of a connection;
--     Server/Admission is about which requests get as far as an address. Server/Ownership,
--     Server/Assignment, Server/Cleanup and Server/Reconnect are about who holds which address after
--     each handler.
--     Server/Steps cuts the handlers into their critical sections; Server/Change, Server/Tenancy and
--     Server/Refinement are about any interleaving of these, Server/Refinement against an abstract
--     system of clients and addresses.
--   Server/Start: `New` and `Close` of server.go, the check of vpn_server/main.go and `getConfig`;
--     Server/Hosting is about the server that `New` returns, Server/Shutdown about the sessions after
--     `Close`, and Server/Clients goes from the configuration to the addresses of the clients.
--   Server/Forward, Server/Delivery: a packet on its way to a session.
--   Server/Proxy, Server/Filtering: `proxyTunToClient` and `proxyClientToTun`, over a list that says how
--     each read and write turns out; its end is the end of the context. Server/Offset is about the
--     buffer between the device and `proxyTunToClient`, Server/Connection about a whole connection with
--     both proxies, and Server/Echo about the connection that a session has. Server/Processor and
--     Server/Processing: `processPackets` over a list of reads of the TUN device; Server/Shares and
--     Server/Dispatch are about it one session at a time.
--   Server/Metrics, Server/Status, Server/Logs, Server/Certificates, Server/MutualTls: metrics.go, the
--     queries and logs of api_server.go, and tls_config.go, where crypto/tls and crypto/x509 are
--     parameters. Server/Api has the routes of the API with its handlers, and Server/Queries is about
--     what they can change; Gin is a parameter.
--   Server/Listener, Server/Main: `Run` with the handlers of the HTTP/3 server, and vpn_server/main.go;
--     Server/Serving is about the requests, Server/Exits about the ways in which `main` ends.
--   Logging: `initLogger` of both programs.
--   Configuration: common/config.go.
--   Tun/Device, Tun/Platform, Tun/Netmask: common/tun.go and the files for Linux, Windows and macOS. The
--     driver and the commands answer through parameters, and what is done to them is a list of
--     effects; Tun/Opening is about what they leave open. Tun/Buffers and Tun/Reuse: the pool of
--     structs that the reads and writes share.
--   Client/Stream, Client/Proxy: `ReadPacket` and `WritePacket` of common/masque_connectip.go, and
--     common/masque_proxy.go; Client/Errors and Client/Passing are about what ends a proxy and what it
--     passes on before.
--   Client/Tls, Client/Establish, Client/Lifecycle: vpn_client/main.go, the TLS settings, the rest of
--     `establishAndConfigure`, and the goroutine of `main` with its metrics; Client/Verification,
--     Client/Releasing and Client/Ending are the proofs on them. Client/Main and Client/Exits: all of
--     `main`.
--   The Tests modules are concrete runs.
--
-- Fuel: only the loop of `NewIPPool` has it, since it need not end. `new_ip_pool` is `none` when the
-- fuel is out; fuel for each address from the network's to the last and one more is enough, where
-- the last is not the highest address of its kind.
-- All other loops are structural. Bytes, the uint32 `SeqNum` and lengths in two bytes wrap as written.
--
-- Not modelled: sockets, TLS and HTTP themselves, Prometheus, what the loggers write, the flags of the
-- two programs, panics that the handlers recover from, and the admin interface. The listeners that
-- `Run` starts, the router of Gin, the mux of net/http, zap and the TOML package are parameters or
-- what they answer. A locked section is one step; a wait with a deadline is a step that succeeds or times
-- out. netip.ParsePrefix, the texts of addresses, reading files and parsing certificates, the TUN
-- driver and the commands of the operating system are parameters.
mod Prelude
pub mod Client
pub mod Configuration
pub mod Errors
pub mod Fec
pub mod Ip
pub mod Logging
pub mod Server
pub mod Tun
pub mod Tunnel
