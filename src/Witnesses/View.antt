-- ===== src/Witnesses/View.antt =====
-- The theorems on the view protocol, at member 9 of the set of four, in view 5 led by member 7.
use hotmint.Base.Map
use hotmint.Base.{length, ℕ, ◌≡◌, refl, Bool, true, none, some, List, [], ◌∷◌}
use hotmint.Base.Bytes.{Bytes, to_le_bytes, from_le_bytes}
use hotmint.Base.Map.{nat_eq, text_eq}
use hotmint.Consensus.Evidence.{validate_all, validate_block_evidence}
use hotmint.Consensus.State.{
  waiting_for_proposal, with_chain_id, record_vote, check_and_record_vote, higher_qc,
  update_highest_qc,
}
use hotmint.Consensus.State.Guard.{Consistent}
use hotmint.Consensus.Store.{MemoryBlockStore, put_block, new_store, get_block, memory_store}
use hotmint.Consensus.View.{own_vote}
use hotmint.Consensus.View.Checked.{Checked}
use hotmint.Consensus.View.Checks.{dominates, check_timestamp, proposal_context, check_proposal}
use hotmint.Consensus.View.Entry.{from_double_cert}
use hotmint.Consensus.View.Proposal.{
  ProposalData, EpochContext, waits_for_proposal, Node, cast_vote, first_vote, accept, on_proposal,
}
use hotmint.Consensus.View.Run.{
  Event, enters, proposes, gets_proposal, forms_certificate, votes_for_own, gets_prepare, casts,
  final, casts-Consistent, final-Rises,
}
use hotmint.Consensus.View.Safety.{sent_vote, IsOwnVote, on_proposal-Checked}
use hotmint.Consensus.View.Steps.{Rises}
use hotmint.Consensus.VoteCollector.{vote_key_eq}
use hotmint.Staking.Store.{stake_key_eq}
use hotmint.Types.Block.{
  Block, genesis_hash, genesis_block, len_prefixed, all_proof_bytes, block_bytes, compute_hash,
}
use hotmint.Types.Epoch.{genesis, next}
use hotmint.Types.Validator.{
  get, index_from, build_index, leader_from, leader_for_view, index_of, power_of,
}
use hotmint.Types.Vote.{vote, Vote}
use hotmint.Witnesses.Commit.{qc_of, counting}
use hotmint.Witnesses.Votes.{digest, fresh_state}

abbrev sign : Bytes → Bytes
sign message = length message ∷ []

abbrev trusting : Bytes → Bytes → Bytes → Bool
trusting key message signature = true

-- Member 9 has entered the view and waits.
abbrev replica_node : Node MemoryBlockStore ℕ
replica_node = record {
  state = record fresh_state { current_view = 5; step = waiting_for_proposal };
  store = new_store;
  app_state = 0;
}

abbrev draft : Block
draft = record genesis_block { height = 1; view = 5; proposer = 7; timestamp = 1000 }

abbrev proposed_block : Block
proposed_block = record draft { hash = compute_hash digest draft }

abbrev proposal : ProposalData
proposal = record { block = proposed_block; justify = qc_of genesis_hash 0; double_cert = none }

abbrev no_epochs : EpochContext
no_epochs = record { previous_epoch = none; in_flight_pending = none }

abbrev first_vote_sent : Vote
first_vote_sent = own_vote digest sign replica_node.state proposed_block.hash vote none

sent :
    sent_vote
      (on_proposal memory_store counting digest sign trusting true replica_node proposal 2000
        no_epochs).effects
    ≡ some first_vote_sent
unfolding on_proposal check_proposal dominates check_timestamp proposal_context
    validate_block_evidence validate_all accept first_vote cast_vote own_vote check_and_record_vote
    record_vote update_highest_qc higher_qc with_chain_id genesis leader_for_view leader_from
    power_of get index_of build_index index_from new_store put_block get_block Map.get Map.insert
    next compute_hash block_bytes len_prefixed all_proof_bytes from_le_bytes to_le_bytes
sent = refl

on_proposal-Checked_example :
    (waits_for_proposal waiting_for_proposal ≡ true)
    × Checked digest trusting counting
        (get_block new_store)
        replica_node.state
        0
        proposed_block
        (qc_of genesis_hash 0)
        2000
        none
    × IsOwnVote replica_node.state proposed_block first_vote_sent
    × (true ≡ true
        → proposed_block.app_hash
          ≡ (on_proposal memory_store counting digest sign trusting true replica_node proposal 2000
              no_epochs).after.state.last_app_hash)
on_proposal-Checked_example =
    on_proposal-Checked memory_store counting digest sign trusting true replica_node proposal 2000
      no_epochs first_vote_sent sent

abbrev some_events : List Event
some_events =
    gets_proposal proposal 2000 no_epochs
    ∷ gets_prepare (qc_of 77 5) none
    ∷ enters 6 (
        from_double_cert
          (record { inner_qc = qc_of 77 5; outer_qc = qc_of 77 5; vote_extensions = [] }))
    ∷ proposes 2500 [] none 4
    ∷ votes_for_own 78
    ∷ forms_certificate (qc_of 78 6) none
    ∷ gets_proposal proposal 3000 no_epochs
    ∷ []

casts-Consistent_example :
    Consistent (casts memory_store counting digest sign trusting true replica_node some_events)
casts-Consistent_example =
    casts-Consistent memory_store counting digest sign trusting true replica_node some_events

final-Rises_example :
    Rises replica_node.state
      (final memory_store counting digest sign trusting true replica_node some_events).state
final-Rises_example =
    final-Rises memory_store counting digest sign trusting true replica_node some_events
