-- ===== src/Consensus.antt =====
-- crates/hotmint-consensus: the consensus of one node.
pub mod Liveness
pub mod VoteCollector
pub mod State
pub mod Store
pub mod Application
pub mod Payload
pub mod Commit
pub mod Evidence
pub mod View
pub mod Pacemaker
