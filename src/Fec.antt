-- ===== src/Fec.antt =====
-- common/fec: the forward error correction of the tunnel.
pub mod Config
pub mod Encoder
pub mod Decoder
pub mod Columns
pub mod Parity
pub mod Recovery
pub mod Blocks
pub mod Grouping
pub mod Roundtrip
pub mod Window
pub mod Repair
pub mod Delivery
pub mod Limits
mod Tests
