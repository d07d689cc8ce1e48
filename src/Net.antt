-- ===== src/Net.antt =====
-- src/net: the start of a node from headers and a snapshot of the state, and the download of the
-- history behind it.
pub mod FastSync
pub mod Backfill
mod Tests
