-- ===== src/Types/Validator.antt =====
-- crates/hotmint-types/src/validator.rs: validator sets, their construction and lookups.
pub mod Valid
pub mod Lookup
pub mod Quorum
pub mod Leader
pub mod Same
pub mod Transfer
use mathlib.Core.Option
use hotmint.Base.Map
use hotmint.Base.{
  ltb, ◌==◌, if◌then◌else◌, length, get_elem?, u64_limit, checked_add, Result, ok, err, ensure, ℕ,
  suc, ◌+◌, ◌-◌, ◌*◌, ◌/◌, ◌%◌, Bool, true, false, not, ◌||◌, Option, none, some, List, [], ◌∷◌,
  ◌>>=◌, ◌>>◌,
}
use hotmint.Base.Bytes.{Bytes}
use hotmint.Base.Distinct.{contains}
use hotmint.Base.Map.{nat_eq, text_eq}

pub record ValidatorInfo : Type 0 where
  pub id : ℕ
  pub public_key : Bytes
  pub power : ℕ

pub record ValidatorSet : Type 0 where
  pub validators : List ValidatorInfo
  pub total_power : ℕ
  pub index_map : List (ℕ × ℕ)

pub data SetError : Type 0 where
  total_power_overflow : (id : ℕ) → SetError
  total_power_mismatch : (serialized computed : ℕ) → SetError
  zero_total_power : SetError
  duplicate_id : (id : ℕ) → SetError
  invalid_key_length : (id len : ℕ) → SetError
  duplicate_key : (id : ℕ) → SetError

-- The `try_fold` of `compute_total_power`.
unfoldable pub add_powers : ℕ → List ValidatorInfo → Result SetError ℕ
add_powers acc [] = ok acc
add_powers acc (v ∷ vs) = elim (checked_add acc v.power) [
  | none ↦ err (total_power_overflow v.id)
  | some s ↦ add_powers s vs
]

unfoldable pub compute_total_power : List ValidatorInfo → Result SetError ℕ
compute_total_power = add_powers 0

-- The loop of `try_from_parts` over the members, with the sets of ids and keys seen so far.
unfoldable pub check_members : List ℕ → List Bytes → List ValidatorInfo → Result SetError (Unit {0})
check_members ids keys [] = ok tt
check_members ids keys (v ∷ vs) =
    let rest = check_members (v.id ∷ ids) (v.public_key ∷ keys) vs in
    if contains v.id ids
    then err (duplicate_id v.id)
    else if length v.public_key == 32
    then (if contains v.public_key keys then err (duplicate_key v.id) else rest)
    else err (invalid_key_length v.id (length v.public_key))

-- `enumerate().map(|(i, v)| (v.id, i)).collect()`, from the index `i` on.
unfoldable pub index_from : ℕ → List ValidatorInfo → List (ℕ × ℕ) → List (ℕ × ℕ)
index_from i [] m = m
index_from i (v ∷ vs) m = index_from (suc i) vs (Map.insert v.id i m)

unfoldable pub build_index : List ValidatorInfo → List (ℕ × ℕ)
build_index vs = index_from 0 vs []

abbrev pub is_empty : List ValidatorInfo → Bool
is_empty [] = true
is_empty (v ∷ vs) = false

unfoldable pub try_from_parts : List ValidatorInfo → ℕ → Result SetError ValidatorSet
try_from_parts vs total = do
  computed ← compute_total_power vs
  ensure (total == computed) (total_power_mismatch total computed)
  ensure (is_empty vs || not (total == 0)) zero_total_power
  check_members [] [] vs
  ok (record { validators = vs; total_power = total; index_map = build_index vs })

unfoldable pub try_new : List ValidatorInfo → Result SetError ValidatorSet
try_new vs = do total ← compute_total_power vs; try_from_parts vs total

unfoldable pub rebuild_index : ValidatorSet → ValidatorSet
rebuild_index s = record s { index_map = build_index s.validators }

-- The product and the quotient are taken in `u128`; `as u64` drops the high bits.
unfoldable pub quorum_threshold : ValidatorSet → ℕ
quorum_threshold s = (s.total_power * 2 / 3 + 1) % u64_limit

unfoldable pub max_faulty_power : ValidatorSet → ℕ
max_faulty_power s = s.total_power - quorum_threshold s

-- The loop of `leader_for_view`; the last member stands in when no range holds the slot.
-- The sum is bounded by `total_power`, so the unchecked `+=` is exact on a valid set.
unfoldable pub leader_from :
    ℕ → ℕ → Option ValidatorInfo → List ValidatorInfo → Option ValidatorInfo
leader_from slot cumulative last [] = last
leader_from slot cumulative last (v ∷ vs) =
    let rest = leader_from slot (cumulative + v.power) (some v) vs in
    if ltb slot (cumulative + v.power) then some v else rest

unfoldable pub leader_for_view : ValidatorSet → ℕ → Option ValidatorInfo
leader_for_view s view =
    if is_empty s.validators || s.total_power == 0
    then none
    else leader_from (view % s.total_power) 0 none s.validators

unfoldable pub index_of : ValidatorSet → ℕ → Option ℕ
index_of s id = Map.get id s.index_map

-- `&self.validators[idx]`: an index out of range, a panic there, is `none` here.
unfoldable pub get : ValidatorSet → ℕ → Option ValidatorInfo
get s id = elim (index_of s id) [ none ↦ none | some idx ↦ get_elem? s.validators idx ]

unfoldable pub power_of : ValidatorSet → ℕ → ℕ
power_of s id = elim (get s id) [ none ↦ 0 | some v ↦ v.power ]
