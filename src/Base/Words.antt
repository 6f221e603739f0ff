-- ===== src/Base/Words.antt =====
-- The checked and saturating arithmetic of Rust's `u64` and `u32`, over numbers.
use Prim.Native.Nat.{ℕ, ◌+◌, ◌-◌, ◌^◌}
use mathlib.Core.Option.{Option, none, some}
use hotmint.Base.Tests.{ltb, leb, if◌then◌else◌}

-- One more than `u64::MAX`.
abbrev pub u64_limit : ℕ
u64_limit = 2 ^ 64

abbrev pub u32_limit : ℕ
u32_limit = 2 ^ 32

abbrev pub checked_add : ℕ → ℕ → Option ℕ
checked_add a b = if ltb (a + b) u64_limit then some (a + b) else none

abbrev pub checked_sub : ℕ → ℕ → Option ℕ
checked_sub a b = if leb b a then some (a - b) else none

-- `saturating_add` at a type whose values lie below `limit`. `saturating_sub` is `-` on ℕ.
abbrev pub saturating_add : ℕ → ℕ → ℕ → ℕ
saturating_add limit a b = if ltb (a + b) limit then a + b else limit - 1
