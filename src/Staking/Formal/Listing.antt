-- ===== src/Staking/Formal/Listing.antt =====
-- crates/hotmint-staking/src/manager.rs: `formal_validator_list` picks the strongest active
-- validators.
use hotmint.Base.Map
use hotmint.Base.{
  ◌==◌, ==_iff, ==_self, Bool-cases, length, get_elem?, any, retain, All, All-imp, All-retain,
  All-retain_of, All-take, length-take, ℕ, suc, ◌≤◌, ◌<◌, ◌≡◌, refl, sym, subst, ◌⊎◌, inl, inr,
  Bool, true, false, some, List, [], ◌∷◌, map, arith,
}
use hotmint.Base.Keys.{DistinctKeys, get-cons_of_Lacks, get-cons_self}
use hotmint.Base.Map.{nat_eq, text_eq}
use hotmint.Base.Sort.{
  sort, IsSorted, All-sort, All-of_sort, sort-IsSorted, take-IsSorted, KeptOrLater,
  take-KeptOrLater,
}
use hotmint.Consensus.VoteCollector.{vote_key_eq}
use hotmint.Staking.{ValidatorState, StakingConfig, voting_power}
use hotmint.Staking.Formal.{by_power, is_active, formal_validator_list}
use hotmint.Staking.Manager.{StakingManager, states}
use hotmint.Staking.Registered.{Named, IsRegistered}
use hotmint.Staking.Registered.Operations.{states-map}
use hotmint.Staking.Store.{StakingStore, get_validator, stake_key_eq}

by_power-total : (x y : ValidatorState) → by_power x y ≡ false → by_power y x ≡ true
by_power-total x y h = ground arith

by_power_trans :
    (x y z : ValidatorState) → by_power x y ≡ true → by_power y z ≡ true → by_power x z ≡ true
by_power_trans x y z h k = ground arith

abbrev pub StoredAs : StakingStore → ValidatorState → Type 0
StoredAs s v = get_validator s v.id ≡ some v

stored_from :
    (m : List (ℕ × ValidatorState))
    → DistinctKeys m
    → All Named m
    → All (λ v. Map.get v.id m ≡ some v) (map (λ kv. kv.1) m)
stored_from [] d n = tt
stored_from ((k, v) ∷ m) d n = (
  subst (λ i. Map.get i ((k, v) ∷ m) ≡ some v) (sym n.0.0) (get-cons_self k v m),
  All-imp (λ w. Map.get w.id m ≡ some w) (λ w. Map.get w.id ((k, v) ∷ m) ≡ some w)
      (map (λ kv. kv.1) m) (λ w h. get-cons_of_Lacks k w.id v w m d.0 h) (stored_from m d.1 n.1),
)

-- What every registered validator has, each of those picked has.
pub All-formal :
    (m : StakingManager) (P : ValidatorState → Type 0)
    → All P (retain (is_active m.config) (states m.store))
    → All P (formal_validator_list m)
unfolding formal_validator_list
All-formal m P h = All-take P m.config.max_validators _ (All-sort P by_power _ h)

states-StoredAs : (s : StakingStore) → IsRegistered s → All (StoredAs s) (states s)
unfolding get_validator
states-StoredAs s r = rw (states-map s r.keyed) (stored_from s.validators r.keyed r.named)

abbrev pub same_id : ValidatorState → ValidatorState → Bool
same_id x y = y.id == x.id

-- What makes a validator eligible, and what does not.
abbrev pub IsEligible : StakingConfig → ValidatorState → Type 0
IsEligible c v = (v.jailed ≡ false) × (v.tombstoned ≡ false) × (c.min_self_stake ≤ v.self_stake)

abbrev pub IsBarred : StakingConfig → ValidatorState → Type 0
IsBarred c v = (v.jailed ≡ true) ⊎ ((v.tombstoned ≡ true) ⊎ (v.self_stake < c.min_self_stake))

-- More power, or the same power and no greater an id.
abbrev pub IsAhead : ValidatorState → ValidatorState → Type 0
IsAhead x y =
    (voting_power y < voting_power x) ⊎ ((voting_power x ≡ voting_power y) × (x.id ≤ y.id))

abbrev pub IsRanked : List ValidatorState → Type 0
IsRanked [] = Unit
IsRanked (x ∷ xs) = All (IsAhead x) xs × IsRanked xs

-- Where a registered validator stands: it is barred, or listed under its id, or after a full list.
abbrev pub IsPlaced : StakingConfig → List ValidatorState → ValidatorState → Type 0
IsPlaced c listed v =
    IsBarred c v
    ⊎ (((i : ℕ) × (w : ValidatorState) × (get_elem? listed i ≡ some w) × (w.id ≡ v.id))
        ⊎ ((length listed ≡ c.max_validators) × All (λ w. IsAhead w v) listed))

by_power-IsAhead : (x y : ValidatorState) → by_power x y ≡ true → IsAhead x y
by_power-IsAhead x y h = ground arith

IsSorted-IsRanked : (xs : List ValidatorState) → IsSorted by_power xs → IsRanked xs
IsSorted-IsRanked [] s = tt
IsSorted-IsRanked (x ∷ xs) s = (
  All-imp (λ y. by_power x y ≡ true) (IsAhead x) xs (λ y h. by_power-IsAhead x y h) s.0,
  IsSorted-IsRanked xs s.1,
)

listed_under :
    (v : ValidatorState) (xs : List ValidatorState)
    → any (same_id v) xs ≡ true
    → (i : ℕ) × (w : ValidatorState) × (get_elem? xs i ≡ some w) × (w.id ≡ v.id)
listed_under v [] h = absurd (ground arith)
listed_under v (x ∷ xs) h = elim (Bool-cases (x.id == v.id)) [
  | inl here ↦ (0, x, refl, (==_iff x.id v.id).0 here)
  | inr elsewhere ↦
      let (i, w, at, same) = listed_under v xs (ground (arith, elsewhere)) in (suc i, w, at, same)
]

KeptOrLater-IsPlaced :
    (c : StakingConfig) (listed : List ValidatorState) (v : ValidatorState)
    → KeptOrLater by_power same_id c.max_validators listed v
    → IsPlaced c listed v
KeptOrLater-IsPlaced c listed v (inl kept) = inr (inl (listed_under v listed kept))
KeptOrLater-IsPlaced c listed v (inr (full, ahead)) = inr (
    inr (
      full,
      All-imp (λ w. by_power w v ≡ true) (λ w. IsAhead w v) listed (λ w h. by_power-IsAhead w v h)
          ahead,
    ))

-- A validator that the filter drops is barred.
IsPlaced-all :
    (c : StakingConfig) (listed : List ValidatorState) (m : List (ℕ × ValidatorState))
    → All
        (KeptOrLater by_power same_id c.max_validators listed)
        (retain (is_active c) (map (λ kv. kv.1) m))
    → All (λ kv. IsPlaced c listed kv.1) m
IsPlaced-all c listed [] h = tt
IsPlaced-all c listed ((k, v) ∷ m) h = elim (Bool-cases (is_active c v)) [
  | inl active ↦
      let h' : KeptOrLater by_power same_id c.max_validators listed v
          × All (KeptOrLater by_power same_id c.max_validators listed)
              (retain (is_active c) (map (λ kv. kv.1) m)) =
        rw active at h in
      (KeptOrLater-IsPlaced c listed v h'.0, IsPlaced-all c listed m h'.1)
  | inr dropped ↦ (inl (ground arith), IsPlaced-all c listed m (rw dropped at h))
]

-- The formal list holds registered validators that are neither jailed nor tombstoned and have the
-- least self-stake, at most `max_validators` of them, those of more power first and by id where
-- powers are equal; a registered validator is barred by one of these conditions, or in the list, or
-- comes after all of a full list.
pub formal_validator_list_lem :
    (m : StakingManager)
    → IsRegistered m.store
    → All (StoredAs m.store) (formal_validator_list m)
      × All (IsEligible m.config) (formal_validator_list m)
      × IsRanked (formal_validator_list m)
      × (length (formal_validator_list m) ≤ m.config.max_validators)
      × All (λ kv. IsPlaced m.config (formal_validator_list m) kv.1) m.store.validators
unfolding formal_validator_list
formal_validator_list_lem m r = (
  All-formal m (StoredAs m.store) (
      All-retain_of (StoredAs m.store) (is_active m.config) (states m.store)
        (states-StoredAs m.store r)),
  All-formal m (IsEligible m.config) (
      All-retain (IsEligible m.config) (is_active m.config) (states m.store)
        (λ v h. (ground arith, ground arith, ground arith))),
  IsSorted-IsRanked _ (take-IsSorted by_power m.config.max_validators sorted ordered),
  length-take m.config.max_validators sorted,
  IsPlaced-all m.config (formal_validator_list m) m.store.validators
      (subst (λ vs. All Kept (retain (is_active m.config) vs)) (states-map m.store r.keyed) kept),
)
  where
    active : List ValidatorState
    active = retain (is_active m.config) (states m.store)

    sorted : List ValidatorState
    sorted = sort by_power active

    ordered : IsSorted by_power sorted
    ordered = sort-IsSorted by_power by_power-total by_power_trans active

    Kept : ValidatorState → Type 0
    Kept = KeptOrLater by_power same_id m.config.max_validators (formal_validator_list m)

    kept : All Kept active
    kept = All-of_sort Kept by_power active (
        take-KeptOrLater by_power same_id (λ v. ==_self v.id) m.config.max_validators sorted
          ordered)
