-- ===== src/Tunnel.antt =====
-- common/masque_connectip.go: the connection that carries a client's packets.
pub mod Loopback
pub mod Order
pub mod Calls
pub mod Flow
pub mod Effects
pub mod Closing
pub mod Written
pub mod Client
mod Tests
