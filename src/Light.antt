-- ===== src/Light.antt =====
-- crates/hotmint-light/src/lib.rs: the light client. The verifier of signatures and the hash inside
-- the signing bytes are parameters; the state that the source keeps behind a lock is the client's.
pub mod Accept
pub mod Follow
use hotmint.Base.{
  ltb, ◌==◌, if◌then◌else◌, length, checked_add, Result, ok, err, ensure, ok_or, ℕ, Bool, true,
  false, Option, none, some, List, [], ◌∷◌, ◌>>=◌, ◌>>◌,
}
use hotmint.Aggregate.{has_quorum}
use hotmint.Base.Bytes.{Bytes}
use hotmint.Types.Block.{Block}
use hotmint.Types.Certificate.{QuorumCertificate}
use hotmint.Types.Validator.{ValidatorInfo, ValidatorSet}
use hotmint.Types.Vote.{vote, signing_bytes}

pub record BlockHeader : Type 0 where
  pub height : ℕ
  pub parent_hash : ℕ
  pub view : ℕ
  pub proposer : ℕ
  pub timestamp : ℕ
  pub app_hash : ℕ
  pub hash : ℕ

unfoldable pub header_of : Block → BlockHeader
header_of b = record {
  height = b.height;
  parent_hash = b.parent_hash;
  view = b.view;
  proposer = b.proposer;
  timestamp = b.timestamp;
  app_hash = b.app_hash;
  hash = b.hash;
}

pub record TrustedState : Type 0 where
  pub height : ℕ
  pub hash : Option ℕ

pub record LightClient : Type 0 where
  pub trusted_validator_set : ValidatorSet
  pub trusted_state : TrustedState
  pub chain_id_hash : Bytes

pub data LightError : Type 0 where
  not_above_trusted no_trusted_hash height_overflow not_adjacent parent_mismatch : LightError
  qc_mismatch no_quorum flags_mismatch index_out_of_bounds too_few_signatures : LightError
  bad_signature regressing_checkpoint : LightError

-- Only at genesis, whose hash is zero, is the hash of a trusted height known.
unfoldable pub new_client : ValidatorSet → ℕ → Bytes → LightClient
new_client vs height chain = record {
  trusted_validator_set = vs;
  trusted_state = record { height = height; hash = if height == 0 then some 0 else none };
  chain_id_hash = chain;
}

unfoldable pub new_with_trusted_hash : ValidatorSet → ℕ → ℕ → Bytes → LightClient
new_with_trusted_hash vs height hash chain = record {
  trusted_validator_set = vs;
  trusted_state = record { height = height; hash = some hash };
  chain_id_hash = chain;
}

module _ (blake3 : Bytes → Bytes) (verify : Bytes → Bytes → Bytes → Bool) where
  -- Whether a member's signature of the certificate is good.
  unfoldable pub signature_ok : Bytes → QuorumCertificate → ValidatorInfo → Bytes → Bool
  signature_ok chain qc v sig =
      verify v.public_key (signing_bytes blake3 chain qc.epoch qc.view v.id qc.block_hash vote none)
        sig

  -- The loop over the flags, with the members and the signatures that are left.
  unfoldable pub check_signatures :
      Bytes
      → QuorumCertificate
      → List Bool
      → List ValidatorInfo
      → List Bytes
      → Result LightError (Unit {0})
  check_signatures chain qc [] vs [] = ok tt
  check_signatures chain qc [] vs (s ∷ ss) = err bad_signature
  check_signatures chain qc (false ∷ bs) [] ss = check_signatures chain qc bs [] ss
  check_signatures chain qc (false ∷ bs) (v ∷ vs) ss = check_signatures chain qc bs vs ss
  check_signatures chain qc (true ∷ bs) [] ss = err index_out_of_bounds
  check_signatures chain qc (true ∷ bs) (v ∷ vs) [] = err too_few_signatures
  check_signatures chain qc (true ∷ bs) (v ∷ vs) (s ∷ ss) = elim (signature_ok chain qc v s) [
    | false ↦ err bad_signature
    | true ↦ check_signatures chain qc bs vs ss
  ]

  unfoldable pub check_header :
      LightClient → BlockHeader → QuorumCertificate → Result LightError (Unit {0})
  check_header c header qc = do
    ensure (ltb c.trusted_state.height header.height) not_above_trusted
    trusted_hash ← ok_or c.trusted_state.hash no_trusted_hash
    expected ← ok_or (checked_add c.trusted_state.height 1) height_overflow
    ensure (header.height == expected) not_adjacent
    ensure (header.parent_hash == trusted_hash) parent_mismatch
    ensure (qc.block_hash == header.hash) qc_mismatch
    ensure (has_quorum c.trusted_validator_set qc.aggregate_signature) no_quorum
    ensure (length qc.aggregate_signature.signers == length c.trusted_validator_set.validators)
        flags_mismatch
    check_signatures c.chain_id_hash qc qc.aggregate_signature.signers
        c.trusted_validator_set.validators qc.aggregate_signature.signatures

  unfoldable pub verify_header :
      LightClient → BlockHeader → QuorumCertificate → Result LightError (Unit {0}) × LightClient
  verify_header c header qc = elim (check_header c header qc) [
    | err e ↦ (err e, c)
    | ok u ↦ (
      ok tt,
      record c { trusted_state = record { height = header.height; hash = some header.hash } },
    )
  ]

unfoldable pub update_validator_set :
    LightClient → ValidatorSet → ℕ → ℕ → Result LightError (Unit {0}) × LightClient
update_validator_set c vs height hash =
    if ltb height c.trusted_state.height then (err regressing_checkpoint, c) else (
      ok tt,
      record c {
        trusted_validator_set = vs;
        trusted_state = record { height = height; hash = some hash };
      },
    )
