-- ===== src/Staking/Registered/Operations.antt =====
-- crates/hotmint-staking/src/manager.rs: the operations keep the registry in order.
use hotmint.Base.Map
use hotmint.Base.{
  ltb, ◌==◌, Bool-cases, Option-cases, if_cases, length, any, filter_map, u64_limit, ok,
  Result-cases, ℕ, ◌+◌, ◌≤◌, ◌≡◌, refl, inl, inr, true, false, none, some, List, [], ◌∷◌, map,
  arith,
}
use hotmint.Base.Bytes.{Bytes, bytes_eq, bytes_eq_iff}
use hotmint.Base.Distinct.{NotIn}
use hotmint.Base.Keys.{Lacks, DistinctKeys}
use hotmint.Base.Map.{nat_eq, text_eq}
use hotmint.Consensus.VoteCollector.{vote_key_eq}
use hotmint.Staking.{ValidatorState, total_stake, proposer_reward}
use hotmint.Staking.Manager.{
  StakingManager, Outcome, states, validate_public_key, new_validator, check_registration,
  register_validator, has_pending_unbondings, unregister_validator, unjail, increment_score,
  decrement_score, add_reward, reward_proposer,
}
use hotmint.Staking.Registered.{
  pubkeys, IsRegistered, update_validator-IsRegistered, remove_validator-IsRegistered,
  new_validator-IsRegistered,
}
use hotmint.Staking.Store.{StakingStore, get_validator, all_validator_ids, stake_key_eq}

filter_map-cons_of_Lacks :
    (k : ℕ) (v : ValidatorState) (m xs : List (ℕ × ValidatorState))
    → Lacks k xs
    → filter_map (λ i. Map.get i ((k, v) ∷ m)) (map (λ kv. kv.0) xs)
      ≡ filter_map (λ i. Map.get i m) (map (λ kv. kv.0) xs)
unfolding Map.get
filter_map-cons_of_Lacks k v m [] n = refl
filter_map-cons_of_Lacks k v m ((j, w) ∷ xs) n =
    ground (arith, n.0, filter_map-cons_of_Lacks k v m xs n.1)

looked_up :
    (m : List (ℕ × ValidatorState))
    → DistinctKeys m
    → filter_map (λ i. Map.get i m) (map (λ kv. kv.0) m) ≡ map (λ kv. kv.1) m
unfolding Map.get
looked_up [] d = refl
looked_up ((k, v) ∷ m) d = ground (arith, filter_map-cons_of_Lacks k v m m d.0, looked_up m d.1)

-- The states that the manager walks are those of the map.
pub states-map :
    (s : StakingStore) → DistinctKeys s.validators → states s ≡ map (λ kv. kv.1) s.validators
unfolding get_validator all_validator_ids
states-map s d = looked_up s.validators d

NotIn-of_any :
    (key : Bytes) (m : List (ℕ × ValidatorState))
    → any (λ v. bytes_eq v.public_key key) (map (λ kv. kv.1) m) ≡ false
    → NotIn key (pubkeys m)
NotIn-of_any key [] h = tt
NotIn-of_any key ((j, v) ∷ m) h = (
  (λ same. ground (arith, (bytes_eq_iff v.public_key key).1 same)),
  NotIn-of_any key m (ground arith),
)

check_registration-ok :
    (m : StakingManager) (id : ℕ) (key : Bytes) (stake : ℕ)
    → check_registration m id key stake ≡ ok tt
    → (get_validator m.store id ≡ none)
      × (length key ≡ 32)
      × (any (λ v. bytes_eq v.public_key key) (states m.store) ≡ false)
      × (m.config.min_self_stake ≤ stake)
unfolding check_registration validate_public_key
check_registration-ok m id key stake h = (ground arith, ground arith, ground arith, ground arith)

pub register_validator-IsRegistered :
    (m : StakingManager) (id : ℕ) (key : Bytes) (stake : ℕ)
    → IsRegistered m.store
    → IsRegistered (register_validator m id key stake).1.store
unfolding register_validator
register_validator-IsRegistered m id key stake r =
    elim (Result-cases (check_registration m id key stake)) [
      | inr (e, refused) ↦ rw (refused, register_validator) r
      | inl (u, passed) ↦
          let (unknown, sized, free, enough) = check_registration-ok m id key stake passed in
          rw (passed, register_validator)
            (new_validator-IsRegistered m.store id (new_validator m.config id key stake) r
              (refl, sized)
              (NotIn-of_any key m.store.validators (rw (states-map m.store r.keyed) at free)))
    ]

-- A step on a known validator, or on none.
pub known_cases :
    {A : Type 0} (m : StakingManager) (id : ℕ) (miss : A) (hit : ValidatorState → A)
    (P : A → Type 0)
    → P miss
    → ((v : ValidatorState) → get_validator m.store id ≡ some v → P (hit v))
    → P (elim (get_validator m.store id) [ none ↦ miss | some v ↦ hit v ])
known_cases m id miss hit P p q = elim (Option-cases (get_validator m.store id)) [
  | inl unknown ↦ rw unknown p
  | inr (v, known) ↦ rw known (q v known)
]

abbrev pub Keeps : {A : Type 0} → Outcome A → Type 0
Keeps o = IsRegistered o.1.store

pub unregister_validator-IsRegistered :
    (m : StakingManager) (id : ℕ)
    → IsRegistered m.store
    → IsRegistered (unregister_validator m id).1.store
unfolding unregister_validator
unregister_validator-IsRegistered m id r = known_cases m id _ _ Keeps r (λ v known.
    if_cases Keeps (total_stake v == 0)
      (λ _.
        if_cases Keeps (has_pending_unbondings m.store id)
          (λ _.
            update_validator-IsRegistered m.store id v (record v { tombstoned = true }) r known refl
              refl)
          (λ _. remove_validator-IsRegistered m.store id r))
      (λ _. r))

pub unjail-IsRegistered :
    (m : StakingManager) (id height : ℕ)
    → IsRegistered m.store
    → IsRegistered (unjail m id height).1.store
unfolding unjail
unjail-IsRegistered m id height r = known_cases m id _ _ Keeps r (λ v known.
    if_cases Keeps v.tombstoned (λ _. r)
      (λ _.
        if_cases Keeps v.jailed
          (λ _.
            if_cases Keeps (ltb height v.jail_until_height) (λ _. r)
              (λ _.
                update_validator-IsRegistered m.store id v
                  (record v { jailed = false; jail_until_height = 0 }) r known refl refl))
          (λ _. r)))

pub increment_score-IsRegistered :
    (m : StakingManager) (id delta : ℕ)
    → IsRegistered m.store
    → IsRegistered (increment_score m id delta).store
unfolding increment_score
increment_score-IsRegistered m id delta r =
    known_cases m id _ _ (λ (n : StakingManager). IsRegistered n.store) r
      (λ v known. update_validator-IsRegistered m.store id v _ r known refl refl)

pub decrement_score-IsRegistered :
    (m : StakingManager) (id delta : ℕ)
    → IsRegistered m.store
    → IsRegistered (decrement_score m id delta).store
unfolding decrement_score
decrement_score-IsRegistered m id delta r =
    known_cases m id _ _ (λ (n : StakingManager). IsRegistered n.store) r
      (λ v known. update_validator-IsRegistered m.store id v _ r known refl refl)

pub reward_proposer-IsRegistered :
    (m : StakingManager) (id : ℕ)
    → IsRegistered m.store
    → IsRegistered (reward_proposer m id).1.store
unfolding reward_proposer
reward_proposer-IsRegistered m id r =
    let reward = proposer_reward m.config in
    if_cases Keeps (reward == 0) (λ _. r)
      (λ _. known_cases m id _ _ Keeps r (λ v known.
        if_cases Keeps v.tombstoned (λ _. r)
          (λ _. (elim (Bool-cases (ltb (v.self_stake + reward) u64_limit)) [
            | inl fits ↦
                rw (fits, add_reward)
                  (update_validator-IsRegistered m.store id v
                    (record v { self_stake = v.self_stake + reward }) r known refl refl)
            | inr over ↦ rw (over, add_reward) r
          ]))))
