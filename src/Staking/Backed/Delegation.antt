-- ===== src/Staking/Backed/Delegation.antt =====
-- crates/hotmint-staking/src/manager.rs: delegating keeps the delegations backed.
use hotmint.Base.{
  ltb, ◌==◌, if◌then◌else◌, ==_iff, ==_self, Bool-cases, Option-cases, if_cases, u64_limit,
  checked_add, ok, err, ℕ, ◌+◌, ◌≤◌, ◌<◌, ◌≡◌, refl, sym, subst, ◌⊎◌, inl, inr, false, Option, none,
  some, arith,
}
use hotmint.Base.Bytes.{Bytes}
use hotmint.Base.Map.{get-insert, nat_eq}
use hotmint.Staking.{ValidatorState}
use hotmint.Staking.Backed.{
  staked_on, delegated_to, amount_of, IsBacked, get_validator-InRange, staked_on-lower_stake,
  lower_stake-DistinctKeys, set_validator-IsBacked,
}
use hotmint.Staking.Manager.{
  StakingManager, validator_not_found, is_tombstoned, delegated_stake_overflow, Outcome, with_store,
  add_to_stake, delegate, lower_stake,
}
use hotmint.Staking.Store.{
  stake_key_beq, stake_key_eq, StakingStore, get_validator, set_validator, get_stake, set_stake,
  remove_stake,
}

pub stake_le_delegated :
    (s : StakingStore) (who : Bytes) (id : ℕ)
    → IsBacked s
    → amount_of (get_stake s who id) ≤ delegated_to id s
stake_le_delegated s who id b =
    let moved = staked_on-lower_stake s who id 0 id b.distinct in
    ground (arith, moved, b.backed id, ==_self id)

-- A delegator's stake moves together with the validator's recorded total.
pub move_stake-IsBacked :
    (s : StakingStore) (who : Bytes) (id left d : ℕ) (v : ValidatorState)
    → IsBacked s
    → get_validator s id ≡ some v
    → d + amount_of (get_stake s who id) ≡ v.delegated_stake + left
    → d < u64_limit
    → IsBacked (set_validator (lower_stake s who id left) id (record v { delegated_stake = d }))
unfolding remove_stake set_stake
move_stake-IsBacked s who id left d v b known even fits =
    set_validator-IsBacked s (lower_stake s who id left) id (record v { delegated_stake = d }) b
      (same left) (lower_stake-DistinctKeys s who id left b.distinct) moved
      ((get_validator-InRange s id b known).0, fits)
  where
    same : (n : ℕ) → (lower_stake s who id n).validators ≡ s.validators
    same n =
        if_cases (λ (t : StakingStore). t.validators ≡ s.validators) (n == 0) (λ _. refl)
          (λ _. refl)

    moved :
        (j : ℕ) → staked_on j (lower_stake s who id left) ≡ (if id == j then d else staked_on j s)
    moved j = elim (Bool-cases (id == j)) [
      | inl hit ↦
          let here : id ≡ j = (==_iff id j).0 hit in
          let sums = staked_on-lower_stake s who id left j b.distinct in
          let total = b.backed id in ground (arith, sums, total, known, even, here)
      | inr miss ↦ ground (arith, staked_on-lower_stake s who id left j b.distinct)
    ]

-- The store after an accepted delegation.
abbrev delegated : StakingManager → Bytes → ℕ → ℕ → ValidatorState → StakingStore
delegated m who id amount v =
    set_validator (lower_stake m.store who id (amount_of (get_stake m.store who id) + amount)) id
      (record v { delegated_stake = v.delegated_stake + amount })

add_to_stake_lem :
    (m : StakingManager) (who : Bytes) (id amount : ℕ) (v : ValidatorState)
    → IsBacked m.store
    → get_validator m.store id ≡ some v
    → 0 < amount
    → v.delegated_stake + amount < u64_limit
    → add_to_stake
        (with_store m
          (set_validator m.store id (record v { delegated_stake = v.delegated_stake + amount })))
        who
        id
        amount
      ≡ (ok tt, with_store m (delegated m who id amount v))
unfolding set_validator set_stake get_stake
add_to_stake_lem m who id amount v b known pos fits =
    let bounded = stake_le_delegated m.store who id b in
    elim (Option-cases (get_stake m.store who id)) [
      | inl fresh ↦ ground (arith, fresh)
      | inr (e, old) ↦ ground (arith, old, bounded, known)
    ]

delegated-IsBacked :
    (m : StakingManager) (who : Bytes) (id amount : ℕ) (v : ValidatorState)
    → IsBacked m.store
    → get_validator m.store id ≡ some v
    → v.delegated_stake + amount < u64_limit
    → IsBacked (delegated m who id amount v)
delegated-IsBacked m who id amount v b known fits =
    move_stake-IsBacked m.store who id (amount_of (get_stake m.store who id) + amount)
      (v.delegated_stake + amount) v b known (omega arith) fits

-- The delegator's entry has grown by the amount and so has the validator's total, and nothing else
-- has changed.
abbrev pub Recorded : StakingManager → Bytes → ℕ → ℕ → StakingManager → Type 0
Recorded m who id amount n =
    (v : ValidatorState) × (get_validator m.store id ≡ some v)
    × ((j : ℕ)
        → get_validator n.store j ≡ (
            if id == j
            then some (record v { delegated_stake = v.delegated_stake + amount })
            else get_validator m.store j))
    × ((addr : Bytes) (j : ℕ)
        → get_stake n.store addr j ≡ (
            if stake_key_beq (record { addr = who; vid = id }) (record { addr = addr; vid = j })
            then some (record { amount = amount_of (get_stake m.store who id) + amount })
            else get_stake m.store addr j))
    × (n.store.unbondings ≡ m.store.unbondings)

delegated-Recorded :
    (m : StakingManager) (who : Bytes) (id amount : ℕ) (v : ValidatorState)
    → get_validator m.store id ≡ some v
    → 0 < amount
    → Recorded m who id amount (with_store m (delegated m who id amount v))
unfolding get_validator get_stake set_validator set_stake
delegated-Recorded m who id amount v known pos =
    let left = amount_of (get_stake m.store who id) + amount in
    let some_left : (left == 0) ≡ false = ground (arith, pos) in
    (
      v,
      known,
      rw some_left (λ j. get-insert id j _ m.store.validators),
      rw some_left (λ addr j. get-insert _ _ (record { amount = left }) m.store.stakes),
      rw some_left refl,
    )

-- Delegating either fails and changes nothing at all, or adds the amount to the delegator's entry and
-- to the validator's total and changes nothing else; the delegations stay backed. In particular the overflow of the delegator's
-- entry, which would come after the first write, cannot happen.
pub delegate-IsBacked :
    (m : StakingManager) (who : Bytes) (id amount : ℕ)
    → IsBacked m.store
    → IsBacked (delegate m who id amount).1.store
      × ((((delegate m who id amount).0 ≡ ok tt)
            × Recorded m who id amount (delegate m who id amount).1)
          ⊎ ((delegate m who id amount).1 ≡ m))
unfolding delegate
delegate-IsBacked m who id amount b =
    if_cases Good (amount == 0) (λ _. (b, inr refl)) (λ some_tokens. known_cases (ground arith))
  where
    Good : Outcome (Unit {0}) → Type 0
    Good o = IsBacked o.1.store × (((o.0 ≡ ok tt) × Recorded m who id amount o.1) ⊎ (o.1 ≡ m))

    added :
        (v : ValidatorState)
        → get_validator m.store id ≡ some v
        → 0 < amount
        → Good (elim (checked_add v.delegated_stake amount) [
          | none ↦ (err delegated_stake_overflow, m)
          | some d ↦
              add_to_stake
                (with_store m (set_validator m.store id (record v { delegated_stake = d })))
                who
                id
                amount
        ])
    added v known pos = elim (Bool-cases (ltb (v.delegated_stake + amount) u64_limit)) [
      | inr over ↦ rw over (b, inr refl)
      | inl fits ↦
          let below : v.delegated_stake + amount < u64_limit = ground arith in
          rw (fits, add_to_stake_lem m who id amount v b known pos below)
            (
              delegated-IsBacked m who id amount v b known below,
              inl (refl, delegated-Recorded m who id amount v known pos),
            )
    ]

    looked_up : Option ValidatorState → Outcome (Unit {0})
    looked_up found = elim found [
      | none ↦ (err validator_not_found, m)
      | some v ↦
          if v.tombstoned
          then (err is_tombstoned, m)
          else elim (checked_add v.delegated_stake amount) [
            | none ↦ (err delegated_stake_overflow, m)
            | some d ↦
                add_to_stake
                  (with_store m (set_validator m.store id (record v { delegated_stake = d }))) who
                  id amount
          ]
    ]

    known_cases : 0 < amount → Good (looked_up (get_validator m.store id))
    known_cases pos = elim (Option-cases (get_validator m.store id)) [
      | inl unknown ↦ subst (λ found. Good (looked_up found)) (sym unknown) (b, inr refl)
      | inr (v, known) ↦
          subst (λ found. Good (looked_up found)) (sym known)
            (if_cases Good v.tombstoned (λ _. (b, inr refl)) (λ _. added v known pos))
    ]
