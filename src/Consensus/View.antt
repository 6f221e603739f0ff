-- ===== src/Consensus/View.antt =====
-- crates/hotmint-consensus/src/view_protocol.rs and leader.rs: one view of the protocol.
pub mod Messages
pub mod Entry
pub mod Prepare
pub mod Checks
pub mod Proposal
pub mod Propose
pub mod SelfVote
pub mod Ancestors
pub mod Checked
pub mod Safety
pub mod Steps
pub mod Votes
pub mod Moves
pub mod Run
use hotmint.Base.{◌==◌, if◌then◌else◌, Result, ℕ, Bool, false, Option, none, some, List, [], ◌∷◌}
use hotmint.Base.Bytes.{Bytes}
use hotmint.Consensus.Commit.{CommitError}
use hotmint.Consensus.Evidence.{EvidenceError}
use hotmint.Consensus.State.{ConsensusState}
use hotmint.Types.Block.{Block}
use hotmint.Types.Certificate.{QuorumCertificate, DoubleCertificate}
use hotmint.Types.Epoch.{next}
use hotmint.Types.Validator.{ValidatorSet, leader_for_view}
use hotmint.Types.Vote.{VoteType, Vote, signing_bytes}

pub data ViewError : Type 0 where
  not_dominating empty_set wrong_proposer hash_mismatch parent_mismatch parent_missing : ViewError
  wrong_height zero_timestamp early_timestamp future_timestamp app_rejected no_justify : ViewError
  bad_evidence : EvidenceError → ViewError
  commit_failed : CommitError → ViewError
  -- An `expect` that failed.
  panicked : ViewError

-- What a step sends, and what it writes to disk before it sends.
pub data Effect : Type 0 where
  send_status : (to : ℕ) → Option QuorumCertificate → (validator : ℕ) → Bytes → Effect
  broadcast_proposal :
      Block → QuorumCertificate → Option DoubleCertificate → Bytes → List Block → Effect
  send_vote : (to : ℕ) → Vote → Effect
  broadcast_prepare : QuorumCertificate → Bytes → Effect
  save_last_vote : VoteType → (view block_hash : ℕ) → Effect

-- What a step leaves, what it sent, and its result.
pub record Reply (S R : Type 0) : Type 0 where
  pub after : S
  pub effects : List Effect
  pub result : Result ViewError R

unfoldable pub is_leader : ValidatorSet → (view id : ℕ) → Bool
is_leader vs view id = elim (leader_for_view vs view) [ none ↦ false | some l ↦ l.id == id ]

-- `none` is the panic.
unfoldable pub next_leader : ValidatorSet → ℕ → Option ℕ
next_leader vs view = elim (next view) [
  | none ↦ none
  | some w ↦ elim (leader_for_view vs w) [ none ↦ none | some l ↦ some l.id ]
]

-- The record on disk, where there is a disk.
abbrev pub saved : Bool → VoteType → ℕ → ℕ → List Effect
saved persistent kind view block_hash =
    if persistent then save_last_vote kind view block_hash ∷ [] else []

-- The vote of the state's validator at its view.
unfoldable pub own_vote :
    (blake3 sign : Bytes → Bytes) → ConsensusState → ℕ → VoteType → Option Bytes → Vote
own_vote blake3 sign s block_hash kind ext = record {
  epoch = s.current_epoch.number;
  block_hash = block_hash;
  view = s.current_view;
  validator = s.validator_id;
  signature = sign (
      signing_bytes blake3 s.chain_id_hash s.current_epoch.number s.current_view s.validator_id
        block_hash kind ext);
  vote_type = kind;
  extension = ext;
}
