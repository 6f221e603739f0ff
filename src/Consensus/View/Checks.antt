-- ===== src/Consensus/View/Checks.antt =====
-- The checks of `on_proposal` before it changes anything.
use hotmint.Base.{
  ltb, leb, ◌==◌, if◌then◌else◌, u64_limit, Result, ok, err, ensure, ok_or, ℕ, ◌+◌, ◌%◌, Bool, true,
  not, ◌&&◌, ◌||◌, Option, none, some, [], ◌>>=◌, ◌>>◌,
}
use hotmint.Base.Bytes.{Bytes}
use hotmint.Consensus.Application.{BlockContext, Application}
use hotmint.Consensus.Evidence.{EvidenceError, validate_block_evidence}
use hotmint.Consensus.State.{ConsensusState}
use hotmint.Consensus.View.{
  ViewError, not_dominating, empty_set, wrong_proposer, hash_mismatch, parent_mismatch,
  parent_missing, wrong_height, zero_timestamp, early_timestamp, future_timestamp, app_rejected,
  bad_evidence, panicked,
}
use hotmint.Types.Block.{Block, compute_hash}
use hotmint.Types.Certificate.{QuorumCertificate, rank}
use hotmint.Types.Epoch.{Epoch, next}
use hotmint.Types.Validator.{leader_for_view}

-- The certificate is of a higher view than the lock, or of its view and block.
unfoldable pub dominates : QuorumCertificate → Option QuorumCertificate → Bool
dominates justify none = true
dominates justify (some l) = not (
    ltb (rank justify) (rank l)
    || (rank justify == rank l && not (justify.block_hash == l.block_hash)))

abbrev pub max_future_drift : ℕ
max_future_drift = 15000

unfoldable pub check_timestamp :
    (height timestamp parent_timestamp now : ℕ) → Result ViewError (Unit {0})
check_timestamp height timestamp parent_timestamp now =
    if ltb 0 height
    then (do
      ensure (not (timestamp == 0)) zero_timestamp
      ensure (leb parent_timestamp timestamp) early_timestamp
      ensure (leb timestamp ((now + max_future_drift) % u64_limit)) future_timestamp)
    else ok tt

unfoldable pub proposal_context : ConsensusState → Block → BlockContext
proposal_context s b = record {
  height = b.height;
  view = b.view;
  proposer = b.proposer;
  epoch = s.current_epoch.number;
  epoch_start_view = s.current_epoch.start_view;
  validator_set = s.validator_set;
  timestamp = b.timestamp;
  vote_extensions = [];
}

abbrev pub evidence_result : Result EvidenceError (Unit {0}) → Result ViewError (Unit {0})
evidence_result (ok u) = ok u
evidence_result (err x) = err (bad_evidence x)

module _ (blake3 : Bytes → Bytes) (verify : Bytes → Bytes → Bytes → Bool) (app : Application)
    (by_hash : ℕ → Option Block) where
  open app use {AppState, validate_block}

  unfoldable pub check_proposal :
      ConsensusState
      → AppState
      → Block
      → (justify : QuorumCertificate) (now : ℕ) (previous_epoch : Option Epoch)
      → Result ViewError (Unit {0})
  unfolding dominates check_timestamp
  check_proposal s a b justify now previous = do
    ensure (dominates justify s.locked_qc) not_dominating
    l ← ok_or (leader_for_view s.validator_set b.view) empty_set
    ensure (b.proposer == l.id) wrong_proposer
    ensure (b.hash == compute_hash blake3 b) hash_mismatch
    ensure (b.parent_hash == justify.block_hash) parent_mismatch
    parent ← ok_or (by_hash b.parent_hash) parent_missing
    height ← ok_or (next parent.height) panicked
    ensure (b.height == height) wrong_height
    check_timestamp b.height b.timestamp parent.timestamp now
    evidence_result
        (validate_block_evidence blake3 verify b s.current_epoch previous s.chain_id_hash)
    ensure (validate_block a b (proposal_context s b)) app_rejected
