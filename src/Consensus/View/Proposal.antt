-- ===== src/Consensus/View/Proposal.antt =====
-- `on_proposal`: a replica checks the proposal, commits what it carries, and votes.
use hotmint.Base.{
  ltb, ◌==◌, if◌then◌else◌, ok, err, ℕ, Bool, true, false, not, ◌&&◌, Option, none, some, List, [],
  ◌∷◌, ◌++◌,
}
use hotmint.Base.Bytes.{Bytes}
use hotmint.Consensus.Application.{Application}
use hotmint.Consensus.Commit.{CommitResult, try_commit}
use hotmint.Consensus.State.{
  ViewStep, waiting_for_proposal, voted_once, ConsensusState, check_and_record_vote,
  update_highest_qc,
}
use hotmint.Consensus.Store.{BlockStore}
use hotmint.Consensus.View.{commit_failed, panicked, send_vote, Reply, saved, own_vote}
use hotmint.Consensus.View.Checks.{check_proposal}
use hotmint.Types.Block.{Block}
use hotmint.Types.Certificate.{QuorumCertificate, DoubleCertificate}
use hotmint.Types.Epoch.{Epoch}
use hotmint.Types.Validator.{leader_for_view, power_of}
use hotmint.Types.Vote.{vote}

pub record ProposalData : Type 0 where
  pub block : Block
  pub justify : QuorumCertificate
  pub double_cert : Option DoubleCertificate

pub record ProposalResult : Type 0 where
  pub pending_epoch : Option Epoch
  pub commit_result : Option CommitResult

pub record EpochContext : Type 0 where
  pub previous_epoch : Option Epoch
  pub in_flight_pending : Option Epoch

abbrev pub nothing : ProposalResult
nothing = record { pending_epoch = none; commit_result = none }

abbrev pub waits_for_proposal : ViewStep → Bool
waits_for_proposal waiting_for_proposal = true
waits_for_proposal _ = false

-- The node's state, its store and its application.
pub record Node (Store AppState : Type 0) : Type 0 where
  pub state : ConsensusState
  pub store : Store
  pub app_state : AppState

abbrev pub no_blocks : List Block → Bool
no_blocks [] = true
no_blocks (b ∷ bs) = false

-- What a fast-forward commit that succeeds leaves of the state.
abbrev pub after_commit : ConsensusState → ℕ → CommitResult → ConsensusState
after_commit s height r =
    if no_blocks r.committed_blocks
    then record s { last_committed_height = height }
    else record s { last_committed_height = height; last_app_hash = r.last_app_hash }

abbrev pub result_with : CommitResult → ProposalResult
result_with r = record { pending_epoch = r.pending_epoch; commit_result = some r }

module _ (bs : BlockStore) (app : Application) (blake3 sign : Bytes → Bytes)
    (verify : Bytes → Bytes → Bytes → Bool) (persistent : Bool) where
  open bs use {Store}
  open app use {AppState, tracks_app_hash}

  -- The first vote, once the guard has let it through: the record on disk comes first.
  unfoldable pub cast_vote :
      Node Store AppState → Block → ProposalResult → Reply (Node Store AppState) ProposalResult
  unfolding own_vote
  cast_vote n b r =
      let s = n.state in
      let disk = saved persistent vote s.current_view b.hash in
      elim (leader_for_view s.validator_set s.current_view) [
        | none ↦ record { after = n; effects = disk; result = err panicked }
        | some l ↦ record {
          after = record n { state = record s { step = voted_once } };
          effects = disk ++ send_vote l.id (own_vote blake3 sign s b.hash vote none) ∷ [];
          result = ok r;
        }
      ]

  abbrev pub abstain :
      Node Store AppState → ProposalResult → Reply (Node Store AppState) ProposalResult
  abstain n r = record {
    after = record n { state = record n.state { step = voted_once } };
    effects = [];
    result = ok r;
  }

  -- From the check of the application's hash on.
  unfoldable pub first_vote :
      Node Store AppState → Block → ProposalResult → Reply (Node Store AppState) ProposalResult
  unfolding cast_vote
  first_vote n b r =
      let s = n.state in
      if tracks_app_hash && not (b.app_hash == s.last_app_hash)
      then record { after = n; effects = []; result = ok r }
      else if ltb 0 (power_of s.validator_set s.validator_id)
      then (let (s', may_sign) = check_and_record_vote s vote s.current_view b.hash in
          let n' : Node Store AppState = record n { state = s' } in
          if may_sign then cast_vote n' b r else abstain n' r)
      else abstain n r

  -- The fast-forward commit, then the vote.
  unfoldable pub accept :
      Node Store AppState → ProposalData → EpochContext → Reply (Node Store AppState) ProposalResult
  unfolding first_vote
  accept n p e = elim p.double_cert [
    | none ↦ first_vote n p.block nothing
    | some dc ↦
        let s = n.state in
        let (left, r) =
          try_commit app (bs.get_block n.store) (bs.get_block_by_height n.store) dc n.app_state
            s.last_committed_height s.current_epoch e.previous_epoch e.in_flight_pending in
        elim r [
          | err x ↦ record {
            after = record n {
              state = record s { last_committed_height = left.1 };
              app_state = left.0;
            };
            effects = [];
            result = err (commit_failed x);
          }
          | ok result ↦
              first_vote (record n { state = after_commit s left.1 result; app_state = left.0 })
                p.block (result_with result)
        ]
  ]

  unfoldable pub on_proposal :
      Node Store AppState
      → ProposalData
      → (now : ℕ) → EpochContext
      → Reply (Node Store AppState) ProposalResult
  unfolding accept check_proposal
  on_proposal n p now e =
      if waits_for_proposal n.state.step
      then elim (check_proposal blake3 verify app (bs.get_block n.store) n.state n.app_state p.block
          p.justify now e.previous_epoch) [
            | err x ↦ record { after = n; effects = []; result = err x }
            | ok _ ↦
                accept
                  (record n {
                    store = bs.put_block n.store p.block;
                    state = update_highest_qc n.state p.justify;
                  })
                  p e
          ]
      else record { after = n; effects = []; result = ok nothing }
