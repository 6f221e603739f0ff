-- ===== src/Witnesses.antt =====
-- Concrete validator sets, votes and blocks, and the theorems applied to them.
pub mod Validators
pub mod Votes
pub mod Collector
pub mod Commit
pub mod View
pub mod Pacemaker
pub mod Staking
pub mod Mempool
pub mod Light
