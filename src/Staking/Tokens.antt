-- ===== src/Staking/Tokens.antt =====
-- crates/hotmint-staking/src/manager.rs: the tokens that delegators have with a validator, staked or
-- unbonding, through an undelegation, a release and a slash.
use hotmint.Base.{
  ltb, leb, ◌==◌, if◌then◌else◌, leb→le, Option-cases, if_cases, All, All-retain, u64_limit,
  saturating_add, ℕ, ◌+◌, ◌-◌, ◌≤◌, ◌<◌, ◌≡◌, refl, ap, ◌∙◌, inl, inr, Bool, not, some, List, [],
  ◌∷◌, ◌++◌, arith,
}
use hotmint.Base.Bytes.{Bytes}
use hotmint.Base.Sort.{sum, sum-retain}
use hotmint.Staking.{ValidatorState, StakeEntry, UnbondingEntry}
use hotmint.Staking.Backed.{staked_on, IsBacked, staked_on-lower_stake}
use hotmint.Staking.Manager.{
  StakingManager, Outcome, lower_stake, undelegated, undelegate, pending_ids, is_prunable,
  prune_ids, prune_tombstoned_validators, process_unbonding,
}
use hotmint.Staking.Store.{
  StakingStore, get_validator, set_validator, remove_validator, all_validator_ids, get_stake,
  set_stake, remove_stake, push_unbonding, drain_mature_unbondings, all_unbondings,
}
use hotmint.Types.Validator.Valid.{ids}

abbrev pub unbonding_part : ℕ → UnbondingEntry → ℕ
unbonding_part id e = if e.validator == id then e.amount else 0

abbrev pub unbonding_on : ℕ → StakingStore → ℕ
unbonding_on id s = sum (unbonding_part id) s.unbondings

prune_ids-unbondings :
    (pending ids : List ℕ) (s : StakingStore) → (prune_ids pending ids s).unbondings ≡ s.unbondings
unfolding prune_ids remove_validator
prune_ids-unbondings pending [] s = refl
prune_ids-unbondings pending (id ∷ ids) s =
    prune_ids-unbondings pending ids _ ∙ (elim (Option-cases (get_validator s id)) [
      | inl unknown ↦ rw unknown refl
      | inr (v, known) ↦ rw known (
          if_cases (λ (t : StakingStore). t.unbondings ≡ s.unbondings) (is_prunable pending id v)
            (λ _. refl) (λ _. refl))
    ])

-- The entries released are exactly the mature ones, and the queue keeps the others: any quantity
-- summed over the queue splits between the two.
pub process_unbonding_lem :
    (m : StakingManager) (height : ℕ) (f : UnbondingEntry → ℕ)
    → All (λ e. e.completion_height ≤ height) (process_unbonding m height).0
      × All (λ e. height < e.completion_height) (process_unbonding m height).1.store.unbondings
      × (sum f (process_unbonding m height).0
            + sum f (process_unbonding m height).1.store.unbondings
          ≡ sum f m.store.unbondings)
unfolding process_unbonding drain_mature_unbondings prune_tombstoned_validators
process_unbonding_lem m height f = (
  All-retain (λ e. e.completion_height ≤ height) is_mature m.store.unbondings
      (λ e h. leb→le e.completion_height height h),
  rw kept (
      All-retain (λ e. height < e.completion_height) (λ e. not (is_mature e)) m.store.unbondings
        (λ e h. ground arith)),
  rw kept (sum-retain f is_mature m.store.unbondings),
)
  where
    is_mature : UnbondingEntry → Bool
    is_mature e = leb e.completion_height height

    drained : StakingStore
    drained = (drain_mature_unbondings m.store height).1

    kept :
        (prune_ids
          (pending_ids (all_unbondings drained))
          (all_validator_ids drained)
          drained).unbondings
        ≡ drained.unbondings
    kept = prune_ids-unbondings _ _ drained

abbrev pub tokens_on : ℕ → StakingStore → ℕ
tokens_on id s = staked_on id s + unbonding_on id s

sum-append_one :
    (f : UnbondingEntry → ℕ) (es : List UnbondingEntry) (e : UnbondingEntry)
    → sum f (es ++ e ∷ []) ≡ sum f es + f e
sum-append_one f [] e = omega arith
sum-append_one f (d ∷ es) e = omega (arith, sum-append_one f es e)

pub lower_stake-unbondings :
    (s : StakingStore) (who : Bytes) (id left : ℕ)
    → (lower_stake s who id left).unbondings ≡ s.unbondings
unfolding remove_stake set_stake
lower_stake-unbondings s who id left =
    if_cases (λ (t : StakingStore). t.unbondings ≡ s.unbondings) (left == 0) (λ _. refl) (λ _. refl)

undelegated-tokens :
    (m : StakingManager) (who : Bytes) (id amount height : ℕ) (v : ValidatorState) (e : StakeEntry)
    (j : ℕ)
    → IsBacked m.store
    → get_stake m.store who id ≡ some e
    → amount ≤ e.amount
    → tokens_on j (undelegated m who id amount height v e.amount) ≡ tokens_on j m.store
unfolding push_unbonding set_validator set_stake remove_stake
undelegated-tokens m who id amount height v e j b old enough =
    let queue = sum-append_one (unbonding_part j) m.store.unbondings (record {
      staker = who;
      validator = id;
      amount = amount;
      completion_height = saturating_add u64_limit height m.config.unbonding_period;
    }) in
    let stakes = staked_on-lower_stake m.store who id (e.amount - amount) j b.distinct in
    let queues = lower_stake-unbondings m.store who id (e.amount - amount) in
    ground (arith, queue, stakes, old, ap (sum (unbonding_part j)) queues)

-- Undelegating, refused or not, moves tokens from a stake to the queue: what delegators have with
-- any validator stays.
pub undelegate-tokens :
    (m : StakingManager) (who : Bytes) (id amount height j : ℕ)
    → IsBacked m.store
    → tokens_on j (undelegate m who id amount height).1.store ≡ tokens_on j m.store
unfolding undelegate
undelegate-tokens m who id amount height j b =
    if_cases Kept (amount == 0) (λ _. refl)
      (λ _. (elim (Option-cases (get_validator m.store id)) [
        | inl unknown ↦ rw unknown refl
        | inr (v, known) ↦ elim (Option-cases (get_stake m.store who id)) [
          | inl fresh ↦ rw (known, fresh) refl
          | inr (e, old) ↦
              rw (known, old)
                (if_cases Kept (ltb e.amount amount) (λ _. refl)
                  (λ enough. undelegated-tokens m who id amount height v e j b old (ground arith)))
        ]
      ]))
  where
    Kept : Outcome (Unit {0}) → Type 0
    Kept o = tokens_on j o.1.store ≡ tokens_on j m.store
