-- ===== src/Staking/Manager.antt =====
-- crates/hotmint-staking/src/manager.rs: registration, delegation, unbonding, scores and rewards.
-- An operation on `&mut self` that returns a result is a function to the result and the manager it
-- leaves, on the error paths too.
use hotmint.Base.{
  ltb, leb, ◌==◌, if◌then◌else◌, is_some, length, any, filter_map, u64_limit, u32_limit,
  checked_add, saturating_add, Result, ok, err, ensure, ℕ, ◌-◌, min, Bool, true, false, not, ◌&&◌,
  none, some, List, [], ◌∷◌, ◌>>◌,
}
use hotmint.Base.Bytes.{Bytes, bytes_eq}
use hotmint.Base.Distinct.{contains}
use hotmint.Base.Map.{nat_eq, text_eq}
use hotmint.Consensus.VoteCollector.{vote_key_eq}
use hotmint.Staking.{
  ValidatorState, UnbondingEntry, StakingConfig, total_stake, voting_power, proposer_reward,
}
use hotmint.Staking.Store.{
  StakingStore, get_validator, set_validator, remove_validator, all_validator_ids, get_stake,
  set_stake, remove_stake, push_unbonding, drain_mature_unbondings, all_unbondings,
}
use hotmint.Types.Validator.Valid.{ids}

pub record StakingManager : Type 0 where
  pub store : StakingStore
  pub config : StakingConfig

pub data StakingError : Type 0 where
  already_registered validator_not_found is_tombstoned self_stake_below_minimum : StakingError
  invalid_key_length duplicate_public_key slashable_stake_remains zero_amount : StakingError
  delegated_stake_overflow stake_entry_overflow stake_not_found : StakingError
  insufficient_delegation empty_evidence_id already_slashed not_jailed : StakingError
  still_jailed reward_overflow : StakingError

abbrev pub Outcome : Type 0 → Type 0
Outcome A = Result StakingError A × StakingManager

abbrev pub with_store : StakingManager → StakingStore → StakingManager
with_store m s = record m { store = s }

abbrev pub states : StakingStore → List ValidatorState
states s = filter_map (get_validator s) (all_validator_ids s)

unfoldable pub validate_public_key : StakingManager → Bytes → Result StakingError (Unit {0})
validate_public_key m key = do
  ensure (length key == 32) invalid_key_length
  ensure (not (any (λ v. bytes_eq v.public_key key) (states m.store))) duplicate_public_key

abbrev pub new_validator : StakingConfig → ℕ → Bytes → ℕ → ValidatorState
new_validator c id key stake = record {
  id = id;
  public_key = key;
  self_stake = stake;
  delegated_stake = 0;
  score = c.initial_score;
  jailed = false;
  jail_until_height = 0;
  tombstoned = false;
  applied_slashes = [];
}

unfoldable pub check_registration : StakingManager → ℕ → Bytes → ℕ → Result StakingError (Unit {0})
check_registration m id key stake = do
  ensure (not (is_some (get_validator m.store id))) already_registered
  validate_public_key m key
  ensure (leb m.config.min_self_stake stake) self_stake_below_minimum

unfoldable pub register_validator : StakingManager → ℕ → Bytes → ℕ → Outcome (Unit {0})
register_validator m id key stake = elim (check_registration m id key stake) [
  | err e ↦ (err e, m)
  | ok u ↦ (ok tt, with_store m (set_validator m.store id (new_validator m.config id key stake)))
]

unfoldable pub has_pending_unbondings : StakingStore → ℕ → Bool
has_pending_unbondings s id = any (λ e. e.validator == id && not (e.amount == 0)) (all_unbondings s)

unfoldable pub unregister_validator : StakingManager → ℕ → Outcome ℕ
unregister_validator m id = elim (get_validator m.store id) [
  | none ↦ (err validator_not_found, m)
  | some v ↦
      if total_stake v == 0
      then (if has_pending_unbondings m.store id
          then (ok 0, with_store m (set_validator m.store id (record v { tombstoned = true })))
          else (ok 0, with_store m (remove_validator m.store id)))
      else (err slashable_stake_remains, m)
]

-- The validator's total is written before the delegator's entry is added up.
abbrev pub add_to_stake : StakingManager → Bytes → ℕ → ℕ → Outcome (Unit {0})
add_to_stake m who id amount =
    let old : ℕ = elim (get_stake m.store who id) [ none ↦ 0 | some e ↦ e.amount ] in
    elim (checked_add old amount) [
      | none ↦ (err stake_entry_overflow, m)
      | some a ↦ (ok tt, with_store m (set_stake m.store who id (record { amount = a })))
    ]

unfoldable pub delegate : StakingManager → Bytes → ℕ → ℕ → Outcome (Unit {0})
delegate m who id amount =
    if amount == 0 then (err zero_amount, m) else elim (get_validator m.store id) [
      | none ↦ (err validator_not_found, m)
      | some v ↦
          if v.tombstoned
          then (err is_tombstoned, m)
          else elim (checked_add v.delegated_stake amount) [
            | none ↦ (err delegated_stake_overflow, m)
            | some d ↦
                let written = set_validator m.store id (record v { delegated_stake = d }) in
                add_to_stake (with_store m written) who id amount
          ]
    ]

abbrev pub lower_stake : StakingStore → Bytes → ℕ → ℕ → StakingStore
lower_stake s who id left =
    if left == 0 then remove_stake s who id else set_stake s who id (record { amount = left })

abbrev pub undelegated : StakingManager → Bytes → ℕ → ℕ → ℕ → ValidatorState → ℕ → StakingStore
undelegated m who id amount height v have =
    let lowered = lower_stake m.store who id (have - amount) in
    let written =
      set_validator lowered id (record v { delegated_stake = v.delegated_stake - amount }) in
    push_unbonding written (record {
      staker = who;
      validator = id;
      amount = amount;
      completion_height = saturating_add u64_limit height m.config.unbonding_period;
    })

unfoldable pub undelegate : StakingManager → Bytes → ℕ → ℕ → ℕ → Outcome (Unit {0})
undelegate m who id amount height =
    if amount == 0 then (err zero_amount, m) else elim (get_validator m.store id) [
      | none ↦ (err validator_not_found, m)
      | some v ↦ elim (get_stake m.store who id) [
        | none ↦ (err stake_not_found, m)
        | some e ↦
            if ltb e.amount amount
            then (err insufficient_delegation, m)
            else (ok tt, with_store m (undelegated m who id amount height v e.amount))
      ]
    ]

-- The ids that still have tokens in the unbonding queue.
abbrev pub pending_ids : List UnbondingEntry → List ℕ
pending_ids [] = []
pending_ids (e ∷ es) =
    let rest = pending_ids es in if e.amount == 0 then rest else e.validator ∷ rest

abbrev pub is_prunable : List ℕ → ℕ → ValidatorState → Bool
is_prunable pending id v = v.tombstoned && (total_stake v == 0 && not (contains id pending))

-- The loop of `prune_tombstoned_validators`.
unfoldable pub prune_ids : List ℕ → List ℕ → StakingStore → StakingStore
prune_ids pending [] s = s
prune_ids pending (id ∷ ids) s = prune_ids pending ids (elim (get_validator s id) [
  | none ↦ s
  | some v ↦ if is_prunable pending id v then remove_validator s id else s
])

unfoldable pub prune_tombstoned_validators : StakingStore → StakingStore
prune_tombstoned_validators s = prune_ids (pending_ids (all_unbondings s)) (all_validator_ids s) s

unfoldable pub process_unbonding : StakingManager → ℕ → List UnbondingEntry × StakingManager
process_unbonding m height =
    let drained = drain_mature_unbondings m.store height in
    (drained.0, with_store m (prune_tombstoned_validators drained.1))

unfoldable pub unjail : StakingManager → ℕ → ℕ → Outcome (Unit {0})
unjail m id height = elim (get_validator m.store id) [
  | none ↦ (err validator_not_found, m)
  | some v ↦
      if v.tombstoned
      then (err is_tombstoned, m)
      else if v.jailed
      then (if ltb height v.jail_until_height then (err still_jailed, m) else (
        ok tt,
        with_store m
            (set_validator m.store id (record v { jailed = false; jail_until_height = 0 })),
      ))
      else (err not_jailed, m)
]

abbrev pub set_score : StakingManager → ℕ → ValidatorState → ℕ → StakingManager
set_score m id v score = with_store m (set_validator m.store id (record v { score = score }))

unfoldable pub increment_score : StakingManager → ℕ → ℕ → StakingManager
increment_score m id delta = elim (get_validator m.store id) [
  | none ↦ m
  | some v ↦ set_score m id v (min (saturating_add u32_limit v.score delta) m.config.max_score)
]

unfoldable pub decrement_score : StakingManager → ℕ → ℕ → StakingManager
decrement_score m id delta = elim (get_validator m.store id) [
  | none ↦ m
  | some v ↦ set_score m id v (v.score - delta)
]

abbrev pub add_reward : StakingManager → ℕ → ValidatorState → ℕ → Outcome ℕ
add_reward m id v reward = elim (checked_add v.self_stake reward) [
  | none ↦ (err reward_overflow, m)
  | some stake ↦
      (ok reward, with_store m (set_validator m.store id (record v { self_stake = stake })))
]

unfoldable pub reward_proposer : StakingManager → ℕ → Outcome ℕ
reward_proposer m id =
    let reward = proposer_reward m.config in
    if reward == 0 then (ok 0, m) else elim (get_validator m.store id) [
      | none ↦ (err validator_not_found, m)
      | some v ↦ if v.tombstoned then (err is_tombstoned, m) else add_reward m id v reward
    ]

unfoldable pub voting_power_of : StakingManager → ℕ → ℕ
voting_power_of m id = elim (get_validator m.store id) [ none ↦ 0 | some v ↦ voting_power v ]

abbrev pub add_stakes : ℕ → List ValidatorState → ℕ
add_stakes acc [] = acc
add_stakes acc (v ∷ vs) = add_stakes (saturating_add u64_limit acc (total_stake v)) vs

unfoldable pub total_staked : StakingManager → ℕ
total_staked m = add_stakes 0 (states m.store)
