-- ===== src/Staking/Backed/Operations.antt =====
-- crates/hotmint-staking/src/manager.rs: the operations keep the delegations backed.
use hotmint.Base.{
  ltb, ◌==◌, if◌then◌else◌, Bool-cases, Option-cases, is_some, if_cases, u64_limit, err, ensure,
  >>=-eq-ok, Result-cases, ℕ, ◌+◌, ◌<◌, ◌≡◌, refl, inl, inr, true, false, not, none, some, arith,
}
use hotmint.Base.Bytes.{Bytes}
use hotmint.Staking.{ValidatorState, total_stake, proposer_reward}
use hotmint.Staking.Backed.{
  IsBacked, get_validator-InRange, set_validator-IsBacked, update_validator-IsBacked,
  remove_validator-IsBacked,
}
use hotmint.Staking.Manager.{
  StakingManager, already_registered, validator_not_found, is_tombstoned, Outcome, new_validator,
  check_registration, register_validator, has_pending_unbondings, unregister_validator, unjail,
  set_score, increment_score, decrement_score, add_reward, reward_proposer,
}
use hotmint.Staking.Store.{get_validator}

abbrev Keeps : {A : Type 0} → Outcome A → Type 0
Keeps o = IsBacked o.1.store

pub register_validator-IsBacked :
    (m : StakingManager) (id : ℕ) (key : Bytes) (stake : ℕ)
    → IsBacked m.store
    → stake < u64_limit
    → IsBacked (register_validator m id key stake).1.store
unfolding register_validator check_registration
register_validator-IsBacked m id key stake b r =
    elim (Result-cases (check_registration m id key stake)) [
      | inr (e, refused) ↦ rw (refused, register_validator) b
      | inl (u, passed) ↦
          let (u2, unknown, rest) =
            >>=-eq-ok (ensure (not (is_some (get_validator m.store id))) already_registered) _
              passed in
          let free : get_validator m.store id ≡ none = ground arith in
          rw (passed, register_validator)
            (set_validator-IsBacked m.store m.store id (new_validator m.config id key stake) b refl
              b.distinct (λ j. ground (arith, b.backed j, free)) (r, ground arith))
    ]

pub unregister_validator-IsBacked :
    (m : StakingManager) (id : ℕ) → IsBacked m.store → IsBacked (unregister_validator m id).1.store
unfolding unregister_validator total_stake
unregister_validator-IsBacked m id b = elim (Option-cases (get_validator m.store id)) [
  | inl unknown ↦ rw (unknown, unregister_validator) b
  | inr (v, known) ↦ elim (Bool-cases (total_stake v == 0)) [
    | inr stake_left ↦ rw (known, stake_left, unregister_validator) b
    | inl no_stake ↦ elim (Bool-cases (has_pending_unbondings m.store id)) [
      | inl pending ↦
          rw (known, no_stake, pending, unregister_validator)
            (update_validator-IsBacked m.store id v (record v { tombstoned = true }) b known refl
              (get_validator-InRange m.store id b known).0)
      | inr clear ↦
          rw (known, no_stake, clear, unregister_validator)
            (remove_validator-IsBacked m.store id b (ground (arith, known)))
    ]
  ]
]

pub unjail-IsBacked :
    (m : StakingManager) (id height : ℕ) → IsBacked m.store → IsBacked (unjail m id height).1.store
unfolding unjail
unjail-IsBacked m id height b = elim (Option-cases (get_validator m.store id)) [
  | inl unknown ↦ rw (unknown, unjail) b
  | inr (v, known) ↦
      let freed =
        update_validator-IsBacked m.store id v (record v { jailed = false; jail_until_height = 0 })
          b known refl (get_validator-InRange m.store id b known).0 in
      rw (known, unjail)
        (if_cases Keeps v.tombstoned (λ _. b)
          (λ _.
            if_cases Keeps v.jailed
              (λ _. if_cases Keeps (ltb height v.jail_until_height) (λ _. b) (λ _. freed))
              (λ _. b)))
]

pub set_score-IsBacked :
    (m : StakingManager) (id : ℕ) (v : ValidatorState) (score : ℕ)
    → IsBacked m.store
    → get_validator m.store id ≡ some v
    → IsBacked (set_score m id v score).store
set_score-IsBacked m id v score b known =
    update_validator-IsBacked m.store id v (record v { score = score }) b known refl
      (get_validator-InRange m.store id b known).0

pub increment_score-IsBacked :
    (m : StakingManager) (id delta : ℕ)
    → IsBacked m.store
    → IsBacked (increment_score m id delta).store
unfolding increment_score
increment_score-IsBacked m id delta b = elim (Option-cases (get_validator m.store id)) [
  | inl unknown ↦ rw (unknown, increment_score) b
  | inr (v, known) ↦ rw (known, increment_score) (set_score-IsBacked m id v _ b known)
]

pub decrement_score-IsBacked :
    (m : StakingManager) (id delta : ℕ)
    → IsBacked m.store
    → IsBacked (decrement_score m id delta).store
unfolding decrement_score
decrement_score-IsBacked m id delta b = elim (Option-cases (get_validator m.store id)) [
  | inl unknown ↦ rw (unknown, decrement_score) b
  | inr (v, known) ↦ rw (known, decrement_score) (set_score-IsBacked m id v _ b known)
]

add_reward-IsBacked :
    (m : StakingManager) (id : ℕ) (v : ValidatorState) (reward : ℕ)
    → IsBacked m.store
    → get_validator m.store id ≡ some v
    → Keeps (add_reward m id v reward)
add_reward-IsBacked m id v reward b known =
    elim (Bool-cases (ltb (v.self_stake + reward) u64_limit)) [
      | inr over ↦ rw (over, add_reward) b
      | inl fits ↦
          rw (fits, add_reward)
            (update_validator-IsBacked m.store id v
              (record v { self_stake = v.self_stake + reward }) b known refl (ground arith))
    ]

pub reward_proposer-IsBacked :
    (m : StakingManager) (id : ℕ) → IsBacked m.store → IsBacked (reward_proposer m id).1.store
unfolding reward_proposer
reward_proposer-IsBacked m id b =
    if_cases Keeps (proposer_reward m.config == 0) (λ _. b) (λ _. paid)
  where
    paid : Keeps (elim (get_validator m.store id) [
      | none ↦ (err validator_not_found, m)
      | some v ↦
          if v.tombstoned
          then (err is_tombstoned, m)
          else add_reward m id v (proposer_reward m.config)
    ])
    paid = elim (Option-cases (get_validator m.store id)) [
      | inl unknown ↦ rw unknown b
      | inr (v, known) ↦ rw known (
          if_cases Keeps v.tombstoned (λ _. b)
            (λ _. add_reward-IsBacked m id v (proposer_reward m.config) b known))
    ]
