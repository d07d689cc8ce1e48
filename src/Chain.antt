-- ===== src/Chain.antt =====
-- src/chain: the consensus rules.
pub mod Crypto
pub mod Genesis
pub mod Script
pub mod Transaction
pub mod State
pub mod Block
pub mod Consensus
pub mod Mempool
pub mod Pow
pub mod Supply
pub mod Blockchain
