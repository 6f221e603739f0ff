-- ===== src/Staking/Formal/Refines.antt =====
-- The updates that the staking system computes, applied by the consensus side, lead to the formal
-- validator list.
use hotmint.Base.{
  Option-cases, is_some, any, find, All, All-retain, ok, ℕ, ◌<◌, ◌≡◌, refl, sym, ap, ◌∙◌, subst,
  ◌≢◌, ◌⊎◌, inl, inr, true, none, some, List, [], ◌∷◌, ◌++◌, arith,
}
use hotmint.Base.Sort.{DistinctBy}
use hotmint.Consensus.VoteCollector.{empty}
use hotmint.Staking.{ValidatorState, StakingConfig, total_stake, voting_power}
use hotmint.Staking.Formal.{
  is_active, formal_validator_list, sum_powers, changed_updates, removal_updates, updates_to,
  compute_validator_updates,
}
use hotmint.Staking.Formal.Listing.{All-formal}
use hotmint.Staking.Formal.Pickable.{
  sum_powers_sound, Distinct-ids, Distinct-keys, KeySized-members_of, IsPickable, formal-IsPickable,
}
use hotmint.Staking.Formal.Updates.{
  member_of, members_of, update_members-append, in_list-find, update_members-changed_updates,
  update_members-removal_updates,
}
use hotmint.Staking.Manager.{StakingManager, states}
use hotmint.Staking.Registered.{IsRegistered}
use hotmint.Types.Updates.{try_apply_updates, update_members}
use hotmint.Types.Updates.Accept.{try_apply_updates-accepts}
use hotmint.Types.Validator.{get, ValidatorInfo, ValidatorSet}
use hotmint.Types.Validator.Lookup.{has_id, get-find}
use hotmint.Types.Validator.Valid.{sum_power, IsAdmissible, IsValid}

-- An active validator has voting power, where the least self-stake is positive.
active-power :
    (c : StakingConfig) (v : ValidatorState)
    → 0 < c.min_self_stake
    → is_active c v ≡ true
    → 0 < voting_power v
unfolding voting_power total_stake
active-power c v pos h = ground arith

formal-power :
    (m : StakingManager)
    → 0 < m.config.min_self_stake
    → All (λ v. 0 < voting_power v) (formal_validator_list m)
formal-power m pos =
    All-formal m (λ v. 0 < voting_power v)
      (All-retain (λ v. 0 < voting_power v) (is_active m.config) (states m.store)
        (λ v h. active-power m.config v pos h))

sum_power_pos :
    (vs : List ValidatorState)
    → All (λ v. 0 < voting_power v) vs
    → members_of vs ≢ []
    → 0 < sum_power (members_of vs)
unfolding member_of
sum_power_pos [] h ne = absurd (ne refl)
sum_power_pos (v ∷ vs) h ne = omega (arith, h.0)

any-find : (id : ℕ) (vs : List ValidatorInfo) → any (has_id id) vs ≡ is_some (find (has_id id) vs)
any-find id [] = refl
any-find id (v ∷ vs) = ground (arith, any-find id vs)

updates_to-overflow :
    (vs : List ValidatorState) (current : ValidatorSet)
    → sum_powers 0 vs ≡ none
    → updates_to vs current ≡ []
updates_to-overflow [] current h = refl
updates_to-overflow (v ∷ vs) current h = rw (h, updates_to) refl

updates_to-usable :
    (vs : List ValidatorState) (current : ValidatorSet) (total : ℕ)
    → members_of vs ≢ []
    → sum_powers 0 vs ≡ some total
    → updates_to vs current ≡ changed_updates current vs ++ removal_updates vs current.validators
updates_to-usable [] current total ne h = absurd (ne refl)
updates_to-usable (v ∷ vs) current total ne h = rw (h, updates_to) refl

-- What the updates leave under an id.
update_members-updates :
    (formal : List ValidatorState) (current : ValidatorSet) (id : ℕ)
    → IsValid current
    → DistinctBy (λ v. v.id) formal
    → All (λ v. 0 < voting_power v) formal
    → update_members id
        (changed_updates current formal ++ removal_updates formal current.validators)
        (get current id)
      ≡ find (has_id id) (members_of formal)
update_members-updates formal current id valid d pos =
    update_members-append id (changed_updates current formal) _ (get current id)
    ∙ ap (update_members id (removal_updates formal current.validators))
        (update_members-changed_updates current id formal valid d pos)
    ∙ update_members-removal_updates formal id current.validators _
    ∙ ground
        (arith, in_list-find id formal, get-find current id valid, any-find id current.validators)

-- With an empty formal list, or one whose powers overflow a `u64`, there are no updates.
pub compute_validator_updates-none :
    (m : StakingManager) (current : ValidatorSet)
    → (formal_validator_list m ≡ []) ⊎ (sum_powers 0 (formal_validator_list m) ≡ none)
    → compute_validator_updates m current ≡ []
unfolding compute_validator_updates
compute_validator_updates-none m current (inl empty) = ap (λ vs. updates_to vs current) empty
compute_validator_updates-none m current (inr over) =
    updates_to-overflow (formal_validator_list m) current over

-- Applied to a valid set, the computed updates are accepted and give a valid set whose member under
-- every id is the formal list's validator with its voting power, and none where the list has none:
-- if the list is not empty, its powers add up to a `u64`, and the least self-stake is positive.
pub compute_validator_updates-refines :
    (m : StakingManager) (current : ValidatorSet)
    → IsRegistered m.store
    → IsValid current
    → 0 < m.config.min_self_stake
    → members_of (formal_validator_list m) ≢ []
    → is_some (sum_powers 0 (formal_validator_list m)) ≡ true
    → (t : ValidatorSet) × (try_apply_updates current (compute_validator_updates m current) ≡ ok t)
      × IsValid t
      × ((id : ℕ) → get t id ≡ find (has_id id) (members_of (formal_validator_list m)))
unfolding compute_validator_updates
compute_validator_updates-refines m current r valid pos ne fits =
    elim (Option-cases (sum_powers 0 formal)) [
      | inl over ↦ absurd (ground (arith, over, fits))
      | inr (total, summed) ↦
          subst
            (λ us.
              (t : ValidatorSet) × (try_apply_updates current us ≡ ok t)
              × IsValid t
              × ((id : ℕ) → get t id ≡ find (has_id id) (members_of formal)))
            (sym (updates_to-usable formal current total ne summed))
            (try_apply_updates-accepts current _ (members_of formal) valid (admissible total summed)
              ne (λ id. update_members-updates formal current id valid pickable.unique power))
    ]
  where
    formal : List ValidatorState
    formal = formal_validator_list m

    pickable : IsPickable formal
    pickable = formal-IsPickable m r

    power : All (λ v. 0 < voting_power v) formal
    power = formal-power m pos

    admissible : (total : ℕ) → sum_powers 0 formal ≡ some total → IsAdmissible (members_of formal)
    admissible total summed = record {
      distinct_ids = Distinct-ids formal pickable.unique;
      distinct_keys = Distinct-keys formal pickable.own_key;
      sized = KeySized-members_of formal pickable.sized;
      bounded = omega (arith, sum_powers_sound 0 total formal (ground arith) summed);
      positive = sum_power_pos formal power;
    }
