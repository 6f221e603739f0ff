-- ===== src/Types/Evidence.antt =====
-- crates/hotmint-types/src/evidence.rs: proofs that a validator voted twice.
use hotmint.Base.{ℕ, Option}
use hotmint.Base.Bytes.{Bytes}
use hotmint.Types.Vote.{VoteType}

pub record EquivocationProof : Type 0 where
  pub validator : ℕ
  pub view : ℕ
  pub vote_type : VoteType
  pub epoch : ℕ
  pub block_hash_a : ℕ
  pub signature_a : Bytes
  pub extension_a : Option Bytes
  pub block_hash_b : ℕ
  pub signature_b : Bytes
  pub extension_b : Option Bytes
