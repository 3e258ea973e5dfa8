-- ===== src/Client.antt =====
-- common/masque_proxy.go, the part of common/masque_connectip.go that reads and writes packets, and
-- vpn_client/main.go.
pub mod Stream
pub mod Errors
pub mod Proxy
pub mod Passing
pub mod Tls
pub mod Verification
pub mod Establish
pub mod Lifecycle
pub mod Releasing
pub mod Ending
pub mod Main
pub mod Exits
mod Tests
