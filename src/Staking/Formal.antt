-- ===== src/Staking/Formal.antt =====
-- crates/hotmint-staking/src/manager.rs: the formal validator list and the updates of an epoch.
pub mod Listing
pub mod Updates
pub mod Pickable
pub mod Refines
use hotmint.Base.{
  ltb, leb, ◌==◌, if◌then◌else◌, take, any, retain, checked_add, ℕ, Bool, false, not, ◌&&◌, ◌||◌,
  Option, none, some, List, [], ◌∷◌, ◌++◌,
}
use hotmint.Base.Bytes.{bytes_eq}
use hotmint.Base.Sort.{sort}
use hotmint.Staking.{ValidatorState, StakingConfig, voting_power}
use hotmint.Staking.Manager.{StakingManager, states}
use hotmint.Types.Updates.{ValidatorUpdate}
use hotmint.Types.Validator.{get, ValidatorInfo, ValidatorSet}

-- `sort_by_key` of `(Reverse(voting_power), id)`.
abbrev pub by_power : ValidatorState → ValidatorState → Bool
by_power a b =
    ltb (voting_power b) (voting_power a) || (voting_power a == voting_power b && leb a.id b.id)

abbrev pub is_active : StakingConfig → ValidatorState → Bool
is_active c v = not v.jailed && (not v.tombstoned && leb c.min_self_stake v.self_stake)

unfoldable pub formal_validator_list : StakingManager → List ValidatorState
formal_validator_list m =
    take m.config.max_validators (sort by_power (retain (is_active m.config) (states m.store)))

-- The running `checked_add` of the powers.
unfoldable pub sum_powers : ℕ → List ValidatorState → Option ℕ
sum_powers total [] = some total
sum_powers total (v ∷ vs) = elim (checked_add total (voting_power v)) [
  | none ↦ none
  | some t ↦ sum_powers t vs
]

abbrev pub update_to : ValidatorState → ValidatorUpdate
update_to v = record { id = v.id; public_key = v.public_key; power = voting_power v }

abbrev pub is_unchanged : ValidatorSet → ValidatorState → Bool
is_unchanged current v = elim (get current v.id) [
  | none ↦ false
  | some i ↦ i.power == voting_power v && bytes_eq i.public_key v.public_key
]

unfoldable pub changed_updates : ValidatorSet → List ValidatorState → List ValidatorUpdate
changed_updates current [] = []
changed_updates current (v ∷ vs) =
    let rest = changed_updates current vs in
    if is_unchanged current v then rest else update_to v ∷ rest

abbrev pub in_list : ℕ → List ValidatorState → Bool
in_list id = any (λ v. v.id == id)

unfoldable pub removal_updates : List ValidatorState → List ValidatorInfo → List ValidatorUpdate
removal_updates formal [] = []
removal_updates formal (i ∷ is) =
    let rest = removal_updates formal is in
    if in_list i.id formal
    then rest
    else record { id = i.id; public_key = i.public_key; power = 0 } ∷ rest

abbrev pub updates_to : List ValidatorState → ValidatorSet → List ValidatorUpdate
updates_to [] current = []
updates_to (v ∷ vs) current = elim (sum_powers 0 (v ∷ vs)) [
  | none ↦ []
  | some t ↦ changed_updates current (v ∷ vs) ++ removal_updates (v ∷ vs) current.validators
]

unfoldable pub compute_validator_updates : StakingManager → ValidatorSet → List ValidatorUpdate
compute_validator_updates m current = updates_to (formal_validator_list m) current
