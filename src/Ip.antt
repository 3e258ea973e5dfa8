-- ===== src/Ip.antt =====
-- common/ip.go: addresses, networks, the headers of packets and the address pool.
pub mod Addr
pub mod Network
pub mod Packet
pub mod Pool
pub mod Count
pub mod Range
pub mod Hosts
pub mod Listing
pub mod Leases
pub mod Histories
pub mod Headers
pub mod Layouts
mod Tests
