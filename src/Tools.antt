-- ===== src/Tools.antt =====
-- tools/: the helpers of the headless miners.
pub mod Partition
