-- ===== src/Consensus/Application.antt =====
-- crates/hotmint-consensus/src/application.rs and crates/hotmint-types/src/context.rs: what the
-- consensus code asks of the application, whose own code is not part of the repository.
use hotmint.Base.{ℕ, Bool, Option, List}
use hotmint.Base.Bytes.{Bytes}
use hotmint.Types.Block.{Block}
use hotmint.Types.Evidence.{EquivocationProof}
use hotmint.Types.Updates.{ValidatorUpdate}
use hotmint.Types.Validator.{ValidatorSet}

pub record BlockContext : Type 0 where
  pub height : ℕ
  pub view : ℕ
  pub proposer : ℕ
  pub epoch : ℕ
  pub epoch_start_view : ℕ
  pub validator_set : ValidatorSet
  pub timestamp : ℕ
  pub vote_extensions : List (ℕ × Bytes)

-- `EndBlockResponse` without its events, which consensus only passes on.
pub record EndBlockResponse : Type 0 where
  pub validator_updates : List ValidatorUpdate
  pub app_hash : ℕ

-- The callbacks over the application's own state; `none` is an error that they return.
pub record Application : Type 1 where
  pub AppState : Type 0
  pub tracks_app_hash : Bool
  pub create_payload : AppState → BlockContext → Bytes × AppState
  pub validate_block : AppState → Block → BlockContext → Bool
  pub on_evidence : AppState → EquivocationProof → Option AppState
  pub execute_block : AppState → List Bytes → BlockContext → Option (EndBlockResponse × AppState)
  pub on_commit : AppState → Block → BlockContext → Option AppState
