-- ===== src/Tun.antt =====
-- common/tun.go and its files for each platform.
pub mod Netmask
pub mod Platform
pub mod Device
pub mod Buffers
pub mod Reuse
pub mod Opening
pub mod Tests
