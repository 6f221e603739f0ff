-- ===== src/Types/Epoch.antt =====
-- crates/hotmint-types/src/epoch.rs and view.rs.
use hotmint.Base.{leb, checked_add, ℕ, Bool, Option}
use hotmint.Types.Validator.{ValidatorSet}

pub record Epoch : Type 0 where
  pub number : ℕ
  pub start_view : ℕ
  pub validator_set : ValidatorSet

unfoldable pub genesis : ValidatorSet → Epoch
genesis vs = record { number = 0; start_view = 1; validator_set = vs }

unfoldable pub contains_view : Epoch → ℕ → Bool
contains_view e view = leb e.start_view view

-- `EpochNumber::next`, `ViewNumber::next` and `Height::next`: `none` is the panic at `u64::MAX`.
unfoldable pub next : ℕ → Option ℕ
next n = checked_add n 1
