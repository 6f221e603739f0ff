-- ===== src/Consensus/View/Checked.antt =====
-- What the checks of `on_proposal` establish when they pass.
use native.Mathlib.Nat.{mod-le}
use hotmint.Base.{
  Option-cases, All, u64_limit, Result, ok, err, Result-cases, ℕ, suc, ◌+◌, ◌≤◌, ◌<◌, ◌≡◌, refl,
  ◌⊎◌, inl, inr, Bool, true, Option, none, some, List, [], ◌∷◌, arith,
}
use hotmint.Base.Bytes.{Bytes}
use hotmint.Consensus.Application.{Application}
use hotmint.Consensus.Evidence.{
  EvidenceError, validate_evidence, validate_all, validate_block_evidence,
}
use hotmint.Consensus.State.{ConsensusState}
use hotmint.Consensus.View.Checks.{
  dominates, max_future_drift, check_timestamp, proposal_context, evidence_result, check_proposal,
}
use hotmint.Types.Block.{Block, compute_hash}
use hotmint.Types.Certificate.{QuorumCertificate}
use hotmint.Types.Epoch.{Epoch, next}
use hotmint.Types.Evidence.{EquivocationProof}
use hotmint.Types.Validator.{ValidatorInfo, leader_for_view}

-- What the checks of a proposal establish.
module _ (blake3 : Bytes → Bytes) (verify : Bytes → Bytes → Bytes → Bool) (app : Application) where
  open app use {AppState, validate_block}

  pub record Checked (by_hash : ℕ → Option Block) (s : ConsensusState) (a : AppState) (b : Block)
      (justify : QuorumCertificate) (now : ℕ) (previous : Option Epoch) : Type 0 where
    pub unlocks :
        (l : QuorumCertificate)
        → s.locked_qc ≡ some l
        → (l.view < justify.view) ⊎ ((l.view ≡ justify.view) × (justify.block_hash ≡ l.block_hash))
    pub by_leader :
        (l : ValidatorInfo) × (leader_for_view s.validator_set b.view ≡ some l)
        × (b.proposer ≡ l.id)
    pub hashed : b.hash ≡ compute_hash blake3 b
    pub certified_parent : b.parent_hash ≡ justify.block_hash
    pub above :
        (q : Block) × (by_hash b.parent_hash ≡ some q)
        × (b.height ≡ suc q.height)
        × (q.timestamp ≤ b.timestamp)
    pub timely : (0 < b.timestamp) × (b.timestamp ≤ now + max_future_drift)
    pub evident :
        All
          (λ p.
            validate_evidence blake3 verify p b.view s.current_epoch previous s.chain_id_hash
            ≡ ok tt)
          b.evidence
    pub app_accepts : validate_block a b (proposal_context s b) ≡ true

  dominates_lem :
      (justify : QuorumCertificate) (locked : Option QuorumCertificate) (l : QuorumCertificate)
      → dominates justify locked ≡ true
      → locked ≡ some l
      → (l.view < justify.view) ⊎ ((l.view ≡ justify.view) × (justify.block_hash ≡ l.block_hash))
  unfolding dominates
  dominates_lem justify none l h e = absurd (ground arith)
  dominates_lem justify (some m) l h e = ground arith

  check_timestamp_lem :
      (height timestamp parent_timestamp now : ℕ)
      → 0 < height
      → check_timestamp height timestamp parent_timestamp now ≡ ok tt
      → (parent_timestamp ≤ timestamp) × (0 < timestamp) × (timestamp ≤ now + max_future_drift)
  unfolding check_timestamp
  check_timestamp_lem height timestamp parent_timestamp now h e =
      let wrapped = mod-le (now + max_future_drift) u64_limit in
      (ground arith, ground arith, ground (arith, wrapped))

  validate_all_lem :
      (ps : List EquivocationProof) (view : ℕ) (current : Epoch) (previous : Option Epoch)
      (chain : Bytes)
      → validate_all blake3 verify ps view current previous chain ≡ ok tt
      → All (λ p. validate_evidence blake3 verify p view current previous chain ≡ ok tt) ps
  unfolding validate_all
  validate_all_lem [] view current previous chain e = tt
  validate_all_lem (p ∷ ps) view current previous chain e =
      elim (Result-cases (validate_evidence blake3 verify p view current previous chain)) [
        | inl (_, valid) ↦
            (valid, validate_all_lem ps view current previous chain (ground (arith, valid)))
        | inr (x, invalid) ↦ absurd (ground (arith, invalid))
      ]

  evidence_result_ok : (r : Result EvidenceError (Unit {0})) → evidence_result r ≡ ok tt → r ≡ ok tt
  evidence_result_ok (ok tt) e = refl
  evidence_result_ok (err x) e = absurd (ground arith)

  pub check_proposal-Checked :
      (by_hash : ℕ → Option Block) (s : ConsensusState) (a : AppState) (b : Block)
      (justify : QuorumCertificate) (now : ℕ) (previous : Option Epoch)
      → check_proposal blake3 verify app by_hash s a b justify now previous ≡ ok tt
      → Checked by_hash s a b justify now previous
  unfolding check_proposal next validate_block_evidence
  check_proposal-Checked by_hash s a b justify now previous e =
      elim (Option-cases (leader_for_view s.validator_set b.view)) [
        | inl none_here ↦ absurd (ground arith)
        | inr (l, led) ↦ elim (Option-cases (by_hash b.parent_hash)) [
          | inl none_here ↦ absurd (ground arith)
          | inr (q, stored) ↦
              let dominating : dominates justify s.locked_qc ≡ true = ground arith in
              let by_leader : b.proposer ≡ l.id = ground arith in
              let hashed : b.hash ≡ compute_hash blake3 b = ground arith in
              let parent : b.parent_hash ≡ justify.block_hash = ground arith in
              let height : b.height ≡ suc q.height = ground arith in
              let timely : check_timestamp b.height b.timestamp q.timestamp now ≡ ok tt =
                ground arith in
              let valid : validate_block a b (proposal_context s b) ≡ true = ground arith in
              let proved : evidence_result (
                    validate_block_evidence blake3 verify b s.current_epoch previous
                      s.chain_id_hash)
                  ≡ ok tt =
                ground arith in
              let (after_parent, nonzero, near) =
                check_timestamp_lem b.height b.timestamp q.timestamp now (omega (arith, height))
                  timely in
              record {
                unlocks = λ m locked. dominates_lem justify s.locked_qc m dominating locked;
                by_leader = (l, led, by_leader);
                hashed = hashed;
                certified_parent = parent;
                above = (q, stored, height, after_parent);
                timely = (nonzero, near);
                evident =
                    validate_all_lem b.evidence b.view s.current_epoch previous s.chain_id_hash
                      (evidence_result_ok _ proved);
                app_accepts = valid;
              }
        ]
      ]
