-- ===== src/Util.antt =====
-- src/util: hexadecimal and big-endian helpers, compact difficulty, and the Merkle root.
pub mod Hex
pub mod Binary
pub mod Compare
pub mod Compact
pub mod Merkle
mod Tests
