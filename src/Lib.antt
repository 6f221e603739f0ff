-- ===== src/Lib.antt =====
-- A verification library for hotmint, a Byzantine fault tolerant consensus engine of the
-- HotStuff-2 family, written in Rust.
--
-- The program. A validator set gives each member a voting power. In each view a leader proposes a
-- block; members vote for it in two phases, and the votes of a quorum make a certificate. Two
-- certificates on a block commit it with its ancestors, whose transactions the application
-- executes; the application may answer with updates of the validator set, which start a new epoch.
--
-- The parts, and the files that model them:
--   Base            shared helpers: Boolean tests, lists, results, bytes, association lists, words.
--   Types.Validator ValidatorSet of crates/hotmint-types/src/validator.rs: try_new, the index,
--                   quorum_threshold, max_faulty_power, leader_for_view, get, index_of.
--   Types.Updates   ValidatorSet::try_apply_updates.
--   Types.Crypto    AggregateSignature of crates/hotmint-types/src/crypto.rs.
--   Types.Vote      Vote and signing_bytes of crates/hotmint-types/src/vote.rs.
--   Types.Evidence, Types.Certificate, Types.Epoch, Types.Block
--                   the files of the same names under crates/hotmint-types/src.
--   Aggregate       aggregate_votes and has_quorum of crates/hotmint-crypto/src/aggregate.rs.
--   Consensus.VoteCollector, Consensus.State, Consensus.Store
--                   vote_collector.rs, state.rs and store.rs under crates/hotmint-consensus/src.
--   Consensus.Application
--                   the callbacks of crates/hotmint-consensus/src/application.rs, a parameter.
--   Consensus.Payload
--                   decode_payload of crates/hotmint-consensus/src/commit.rs, and the frames that
--                   Mempool::collect_payload writes in crates/hotmint-mempool/src/lib.rs.
--   Consensus.Commit
--                   try_commit and what it calls, in crates/hotmint-consensus/src/commit.rs.
--   Consensus.Evidence
--                   validate_block_evidence of the same file.
--   Consensus.View  crates/hotmint-consensus/src/view_protocol.rs and leader.rs: View.Entry has
--                   enter_view, View.Propose has propose, View.Checks and View.Proposal have
--                   on_proposal, View.Prepare has on_votes_collected and on_prepare, and
--                   View.SelfVote has leader_self_vote and on_qc_formed of
--                   crates/hotmint-consensus/src/engine.rs, up to the collector that takes the
--                   vote. View.Run runs these handlers of one node in any order.
--   Consensus.Pacemaker
--                   the wishes of crates/hotmint-consensus/src/pacemaker.rs.
--   Consensus.Liveness
--                   crates/hotmint-consensus/src/liveness.rs.
--   Staking         crates/hotmint-staking/src: Staking has types.rs and rewards.rs, Staking.Store
--                   the in-memory store of store.rs, and of manager.rs Staking.Manager has
--                   registration, delegation, unbonding, scores and rewards, Staking.Slash has
--                   slash_with_evidence, and Staking.Formal the formal list and
--                   compute_validator_updates. Staking.Run runs the operations in any order.
--   Mempool         crates/hotmint-mempool/src/lib.rs: Mempool has add_tx_with_gas and recheck,
--                   Mempool.Collect has collect_payload_with_gas and decode_payload.
--   Light           crates/hotmint-light/src/lib.rs: verify_header and update_validator_set.
--   Witnesses       the theorems at concrete inputs.
-- The collector aggregates with Aggregate, which reads the index of Types.Validator; the commit
-- reads the store through its two lookups and decodes with Consensus.Payload; the view protocol
-- calls the commit, the guard of Consensus.State and the store. The updates of Staking.Formal are
-- what Types.Updates applies at an epoch's end; the light client reads the quorum of Aggregate; the
-- mempool frames what Consensus.Payload decodes. A handler returns what it leaves,
-- the messages and the records on disk in their order, and its result.
--
-- Conventions. The types ValidatorId, ViewNumber, EpochNumber and Height are numbers, and a block
-- hash is the number its 32 bytes spell; the wrap-around of u64 is written out where the code can
-- reach it. A HashMap or BTreeMap is an association list without repeated keys. A function that
-- mutates returns its new state with its result, also on an error. An `expect` or `panic!` is an
-- error value. Blake3, the signer, the verifier, the clock and the application are parameters, and no property assumes more of them
-- than its hypotheses say. Signatures are byte strings that no part modelled looks into.
--
-- Fuel. The walk of try_commit has fuel of one more than the height of the block to commit, and
-- the heights along it fall. The payload decoder has fuel of the payload's length, and each round
-- takes four bytes at least. The walk of propose over the ancestors has its fuel as an argument:
-- more than the height of the parent is enough in a store whose blocks, genesis aside, are above their
-- parents. So has the trait's loop over a range of heights: more than their number is enough. The
-- loop of the mempool's decode_payload has fuel of the payload's length, as each round moves the
-- offset by four at least.
--
-- Not modelled: the pacemaker's timer, the engine's event loop and its own records (the
-- certificate kept for a view, the state on disk), block synchronisation, the Merkle proofs of the light client, persistence, the network, and
-- the servers and command line tools. The events of EndBlockResponse are left out, as consensus
-- only passes them on.
mod Base
pub mod Types
pub mod Aggregate
pub mod Consensus
pub mod Staking
pub mod Mempool
pub mod Light
pub mod Witnesses
