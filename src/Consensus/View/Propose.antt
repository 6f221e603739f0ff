-- ===== src/Consensus/View/Propose.antt =====
-- `propose`: the leader builds a block on its highest certificate.
use hotmint.Base.{
  ltb, ◌==◌, if◌then◌else◌, retain, u64_limit, saturating_add, Result, ok, err, ℕ, zero, suc, ◌-◌,
  max, Bool, true, false, Option, none, some, List, [], ◌∷◌,
}
use hotmint.Base.Bytes.{Bytes}
use hotmint.Consensus.Application.{BlockContext, Application}
use hotmint.Consensus.Evidence.{validate_evidence}
use hotmint.Consensus.State.{collecting_votes, ConsensusState}
use hotmint.Consensus.Store.{BlockStore}
use hotmint.Consensus.View.{parent_missing, no_justify, panicked, broadcast_proposal, Reply}
use hotmint.Consensus.View.Messages.{proposal_signing_bytes}
use hotmint.Consensus.View.Proposal.{Node}
use hotmint.Types.Block.{Block, genesis_hash, compute_hash}
use hotmint.Types.Certificate.{QuorumCertificate}
use hotmint.Types.Epoch.{Epoch, next}
use hotmint.Types.Evidence.{EquivocationProof}

-- Walk back while the stored blocks are not below the limit; the genesis hash ends it.
unfoldable pub ancestors : (fuel : ℕ) → (ℕ → Option Block) → (depth_limit hash : ℕ) → List Block
ancestors zero by_hash depth_limit hash = []
ancestors (suc fuel) by_hash depth_limit hash =
    if hash == genesis_hash then [] else elim (by_hash hash) [
      | none ↦ []
      | some b ↦
          let rest = ancestors fuel by_hash depth_limit b.parent_hash in
          if ltb b.height depth_limit then [] else b ∷ rest
    ]

abbrev pub is_ok : {E A : Type 0} → Result E A → Bool
is_ok (ok a) = true
is_ok (err e) = false

-- The block before its hash is put in.
abbrev pub block_of :
    ConsensusState → (height parent_hash timestamp : ℕ) → Bytes → List EquivocationProof → Block
block_of s height parent_hash timestamp payload evidence = record {
  height = height;
  parent_hash = parent_hash;
  view = s.current_view;
  proposer = s.validator_id;
  timestamp = timestamp;
  payload = payload;
  app_hash = s.last_app_hash;
  evidence = evidence;
  hash = genesis_hash;
}

unfoldable pub own_context : ConsensusState → (height timestamp : ℕ) → BlockContext
own_context s height timestamp = record {
  height = height;
  view = s.current_view;
  proposer = s.validator_id;
  epoch = s.current_epoch.number;
  epoch_start_view = s.current_epoch.start_view;
  validator_set = s.validator_set;
  timestamp = timestamp;
  vote_extensions = s.pending_vote_extensions;
}

module _ (bs : BlockStore) (app : Application) (blake3 sign : Bytes → Bytes)
    (verify : Bytes → Bytes → Bytes → Bool) where
  open bs use {Store}
  open app use {AppState, create_payload}

  -- The evidence that replicas can check under the current and the previous epoch.
  unfoldable pub checkable :
      ConsensusState → Option Epoch → List EquivocationProof → List EquivocationProof
  checkable s previous proofs =
      retain
        (λ p. is_ok (
          validate_evidence blake3 verify p s.current_view s.current_epoch previous
            s.chain_id_hash))
        proofs

  -- From the call of the application on, with the parent's certificate, height and time known.
  unfoldable pub build :
      Node Store AppState
      → List EquivocationProof
      → Option Epoch
      → (justify : QuorumCertificate) (height timestamp fuel : ℕ)
      → Reply (Node Store AppState) Block
  unfolding own_context checkable ancestors
  build n evidence previous justify height timestamp fuel =
      let s = n.state in
      let (payload, a) = create_payload n.app_state (own_context s height timestamp) in
      let draft =
        block_of s height justify.block_hash timestamp payload (checkable s previous evidence) in
      let block : Block = record draft { hash = compute_hash blake3 draft } in
      let store = bs.put_block n.store block in
      record {
        after = record {
          state = record s { pending_vote_extensions = []; step = collecting_votes };
          store = store;
          app_state = a;
        };
        effects =
            broadcast_proposal block justify s.highest_double_cert
              (sign (proposal_signing_bytes s.chain_id_hash s.current_epoch.number block justify))
              (ancestors fuel (bs.get_block store) (s.last_committed_height - 1) justify.block_hash)
            ∷ [];
        result = ok block;
      }

  -- The fuel is for the walk over the ancestors.
  unfoldable pub propose :
      Node Store AppState
      → (now : ℕ) → List EquivocationProof
      → Option Epoch
      → (fuel : ℕ) → Reply (Node Store AppState) Block
  unfolding build
  propose n now evidence previous fuel = elim n.state.highest_qc [
    | none ↦ record { after = n; effects = []; result = err no_justify }
    | some justify ↦ elim (bs.get_block n.store justify.block_hash) [
      | none ↦ record { after = n; effects = []; result = err parent_missing }
      | some parent ↦ elim (next parent.height) [
        | none ↦ record { after = n; effects = []; result = err panicked }
        | some height ↦
            build n evidence previous justify height
              (max now (saturating_add u64_limit parent.timestamp 1)) fuel
      ]
    ]
  ]
