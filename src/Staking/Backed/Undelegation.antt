-- ===== src/Staking/Backed/Undelegation.antt =====
-- crates/hotmint-staking/src/manager.rs: undelegating keeps the delegations backed.
use hotmint.Base.{
  ltb, ◌==◌, Option-cases, if_cases, u64_limit, ℕ, ◌+◌, ◌-◌, ◌≤◌, ◌<◌, ◌≡◌, inl, inr, some, arith,
}
use hotmint.Base.Bytes.{Bytes}
use hotmint.Staking.{ValidatorState, StakeEntry, UnbondingEntry}
use hotmint.Staking.Backed.{amount_of, IsBacked, get_validator-InRange}
use hotmint.Staking.Backed.Delegation.{stake_le_delegated, move_stake-IsBacked}
use hotmint.Staking.Manager.{StakingManager, Outcome, undelegate}
use hotmint.Staking.Store.{StakingStore, get_validator, get_stake, push_unbonding}

push_unbonding-IsBacked :
    (s : StakingStore) (e : UnbondingEntry) → IsBacked s → IsBacked (push_unbonding s e)
unfolding push_unbonding get_validator
push_unbonding-IsBacked s e b = record {
  backed = b.backed;
  distinct = b.distinct;
  ranged = b.ranged;
}

-- Undelegating either fails and changes nothing, or lowers the delegator's entry and the
-- validator's total together; the delegations stay backed.
pub undelegate-IsBacked :
    (m : StakingManager) (who : Bytes) (id amount height : ℕ)
    → IsBacked m.store
    → IsBacked (undelegate m who id amount height).1.store
unfolding undelegate
undelegate-IsBacked m who id amount height b =
    if_cases Keeps (amount == 0) (λ _. b)
      (λ _. (elim (Option-cases (get_validator m.store id)) [
        | inl unknown ↦ rw unknown b
        | inr (v, known) ↦ elim (Option-cases (get_stake m.store who id)) [
          | inl fresh ↦ rw (known, fresh) b
          | inr (e, old) ↦
              rw (known, old)
                (if_cases Keeps (ltb e.amount amount) (λ _. b)
                  (λ enough. push_unbonding-IsBacked _ _ (
                    move_stake-IsBacked m.store who id (e.amount - amount)
                      (v.delegated_stake - amount) v b known (even v e known old (ground arith))
                      (small v known))))
        ]
      ]))
  where
    Keeps : Outcome (Unit {0}) → Type 0
    Keeps o = IsBacked o.1.store

    even :
        (v : ValidatorState) (e : StakeEntry)
        → get_validator m.store id ≡ some v
        → get_stake m.store who id ≡ some e
        → amount ≤ e.amount
        → v.delegated_stake - amount + amount_of (get_stake m.store who id)
          ≡ v.delegated_stake + (e.amount - amount)
    even v e known old enough =
        ground (arith, stake_le_delegated m.store who id b, known, old, enough)

    small :
        (v : ValidatorState)
        → get_validator m.store id ≡ some v
        → v.delegated_stake - amount < u64_limit
    small v known = omega (arith, (get_validator-InRange m.store id b known).1)
