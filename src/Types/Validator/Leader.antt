-- ===== src/Types/Validator/Leader.antt =====
-- Leader selection by power.
use mathlib.Core.Logic.{◌≢◌}
use hotmint.Base.{
  ltb, if◌then◌else◌, Bool-cases, get_elem?, ℕ, zero, suc, ◌+◌, ◌-◌, ◌%◌, ◌≤◌, ◌<◌, ◌≡◌, refl, inl,
  inr, false, Option, none, some, List, [], ◌∷◌, arith,
}
use hotmint.Types.Validator.{ValidatorInfo, ValidatorSet, is_empty, leader_from, leader_for_view}
use hotmint.Types.Validator.Valid.{sum_power, IsValid}

-- The powers of the members before the one at an index.
abbrev pub power_before : ℕ → List ValidatorInfo → ℕ
power_before i [] = 0
power_before zero (v ∷ vs) = 0
power_before (suc i) (v ∷ vs) = v.power + power_before i vs

leader_from-range :
    (slot c : ℕ) (last : Option ValidatorInfo) (vs : List ValidatorInfo) (i : ℕ) (v : ValidatorInfo)
    → get_elem? vs i ≡ some v
    → c + power_before i vs ≤ slot
    → slot < c + power_before i vs + v.power
    → leader_from slot c last vs ≡ some v
unfolding leader_from
leader_from-range slot c last [] i v at lo hi = cc
leader_from-range slot c last (w ∷ vs) zero v at lo hi = ground arith
leader_from-range slot c last (w ∷ vs) (suc i) v at lo hi =
    ground (arith, leader_from-range slot (c + w.power) (some w) vs i v at)

-- The index whose range holds the slot.
abbrev pub holder : ℕ → List ValidatorInfo → ℕ
holder slot [] = 0
holder slot (v ∷ vs) = if ltb slot v.power then 0 else suc (holder (slot - v.power) vs)

pub holder_lem :
    (slot : ℕ) (vs : List ValidatorInfo)
    → slot < sum_power vs
    → (v : ValidatorInfo) × (get_elem? vs (holder slot vs) ≡ some v)
      × (power_before (holder slot vs) vs ≤ slot)
      × (slot < power_before (holder slot vs) vs + v.power)
holder_lem slot [] h = absurd (omega arith)
holder_lem slot (w ∷ vs) h = elim (Bool-cases (ltb slot w.power)) [
  | inl low ↦ rw low (w, refl, ground arith, ground arith)
  | inr high ↦
      let (v, at, lo, hi) = holder_lem (slot - w.power) vs (ground arith) in
      rw high (v, at, ground arith, ground arith)
]

members : (vs : List ValidatorInfo) → vs ≢ [] → is_empty vs ≡ false
members [] h = absurd (h refl)
members (v ∷ vs) h = refl

-- In a valid set the leader of a view is the member whose range of cumulative power holds the view
-- modulo the total power.
pub leader_for_view-range :
    (s : ValidatorSet) (view i : ℕ) (v : ValidatorInfo)
    → IsValid s
    → get_elem? s.validators i ≡ some v
    → power_before i s.validators ≤ view % s.total_power
    → view % s.total_power < power_before i s.validators + v.power
    → leader_for_view s view ≡ some v
unfolding leader_for_view
leader_for_view-range s view i v h at lo hi = ground (
  arith,
  h.totalled,
  members s.validators some_member,
  h.admissible.positive some_member,
  leader_from-range (view % s.total_power) 0 none s.validators i v at,
)
  where
    some_member : s.validators ≢ []
    some_member e = ground arith

-- Every view of a valid set with members has a leader, and a leader has voting power.
pub leader_for_view_total :
    (s : ValidatorSet) (view : ℕ)
    → IsValid s
    → s.validators ≢ []
    → (v : ValidatorInfo) × (leader_for_view s view ≡ some v) × (0 < v.power)
leader_for_view_total s view h ne =
    let (v, at, lo, hi) = holder_lem (view % s.total_power) s.validators in_range in
    (v, leader_for_view-range s view _ v h at lo hi, omega arith)
  where
    in_range : view % s.total_power < sum_power s.validators
    in_range = omega (arith, h.totalled, h.admissible.positive ne)
