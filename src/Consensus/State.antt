-- ===== src/Consensus/State.antt =====
-- crates/hotmint-consensus/src/state.rs: the consensus state of one validator.
pub mod Guard
use hotmint.Base.{ltb, ◌==◌, if◌then◌else◌, ℕ, Bool, true, false, Option, none, some, List, []}
use hotmint.Base.Bytes.{Bytes}
use hotmint.Types.Block.{genesis_hash}
use hotmint.Types.Certificate.{QuorumCertificate, DoubleCertificate}
use hotmint.Types.Epoch.{Epoch, genesis}
use hotmint.Types.Validator.{ValidatorSet}
use hotmint.Types.Vote.{VoteType, vote, vote2}

pub data ViewRole : Type 0 where
  leader : ViewRole
  replica : ViewRole

pub data ViewStep : Type 0 where
  entered : ViewStep
  waiting_for_status : ViewStep
  proposed : ViewStep
  waiting_for_proposal : ViewStep
  voted_once : ViewStep
  collecting_votes : ViewStep
  prepared : ViewStep
  sent_vote2 : ViewStep
  done : ViewStep

pub record ConsensusState : Type 0 where
  pub validator_id : ℕ
  pub validator_set : ValidatorSet
  pub chain_id_hash : Bytes
  pub current_view : ℕ
  pub role : ViewRole
  pub step : ViewStep
  pub locked_qc : Option QuorumCertificate
  pub highest_double_cert : Option DoubleCertificate
  pub highest_qc : Option QuorumCertificate
  pub last_committed_height : ℕ
  pub last_app_hash : ℕ
  pub current_epoch : Epoch
  pub pending_vote_extensions : List (ℕ × Bytes)
  pub last_vote1 : Option (ℕ × ℕ)
  pub last_vote2 : Option (ℕ × ℕ)

-- `chain_id_hash` is the `blake3` digest of the chain's name.
unfoldable pub with_chain_id : ℕ → ValidatorSet → Bytes → ConsensusState
unfolding genesis
with_chain_id id vs chain_id_hash = record {
  validator_id = id;
  validator_set = vs;
  chain_id_hash = chain_id_hash;
  current_view = 0;
  role = replica;
  step = entered;
  locked_qc = none;
  highest_double_cert = none;
  highest_qc = none;
  last_committed_height = 0;
  last_app_hash = genesis_hash;
  current_epoch = genesis vs;
  pending_vote_extensions = [];
  last_vote1 = none;
  last_vote2 = none;
}

-- The slot of one vote type under `check_and_record_vote`: what it holds then, and the answer.
unfoldable pub record_vote : Option (ℕ × ℕ) → ℕ → ℕ → Option (ℕ × ℕ) × Bool
record_vote none view block_hash = (some (view, block_hash), true)
record_vote (some (v, h)) view block_hash =
    if ltb view v
    then (some (v, h), false)
    else if v == view
    then (some (v, h), h == block_hash)
    else (some (view, block_hash), true)

unfoldable pub check_and_record_vote : ConsensusState → VoteType → ℕ → ℕ → ConsensusState × Bool
unfolding record_vote
check_and_record_vote s vote view block_hash =
    let (slot, may_sign) = record_vote s.last_vote1 view block_hash in
    (record s { last_vote1 = slot }, may_sign)
check_and_record_vote s vote2 view block_hash =
    let (slot, may_sign) = record_vote s.last_vote2 view block_hash in
    (record s { last_vote2 = slot }, may_sign)

-- Both updates of a certificate: a strictly higher view replaces.
unfoldable pub higher_qc : Option QuorumCertificate → QuorumCertificate → Option QuorumCertificate
higher_qc none qc = some qc
higher_qc (some h) qc = if ltb h.view qc.view then some qc else some h

unfoldable pub update_highest_qc : ConsensusState → QuorumCertificate → ConsensusState
unfolding higher_qc
update_highest_qc s qc = record s { highest_qc = higher_qc s.highest_qc qc }

unfoldable pub update_locked_qc : ConsensusState → QuorumCertificate → ConsensusState
unfolding higher_qc
update_locked_qc s qc = record s { locked_qc = higher_qc s.locked_qc qc }
