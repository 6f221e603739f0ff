-- ===== src/Witnesses/Staking.antt =====
-- The theorems on staking, at a store of two validators, one delegator and one unbonding entry.
use hotmint.Base.Map
use hotmint.Base.{
  length, replicate, find, All, u64_limit, saturating_add, ok, err, ℕ, ◌+◌, ◌≤◌, ◌<◌, ◌≡◌, refl,
  ◌⊎◌, false, List, [], ◌∷◌, arith,
}
use hotmint.Base.Bytes.{Bytes}
use hotmint.Base.Map.{nat_eq, text_eq}
use hotmint.Base.Sort.{insert_sorted, sort, sum}
use hotmint.Consensus.VoteCollector.{vote_key_eq}
use hotmint.Staking.{
  SlashReason, double_sign, downtime, ValidatorState, UnbondingEntry, default_config, total_stake,
  voting_power,
}
use hotmint.Staking.Backed.{IsBacked}
use hotmint.Staking.Backed.Delegation.{Recorded, delegate-IsBacked}
use hotmint.Staking.Formal.{formal_validator_list, sum_powers, compute_validator_updates}
use hotmint.Staking.Formal.Listing.{
  StoredAs, IsEligible, IsRanked, IsPlaced, formal_validator_list_lem,
}
use hotmint.Staking.Formal.Refines.{compute_validator_updates-refines}
use hotmint.Staking.Formal.Updates.{members_of}
use hotmint.Staking.Manager.{
  StakingManager, already_slashed, with_store, delegate, undelegate, process_unbonding, unjail,
  voting_power_of,
}
use hotmint.Staking.Punish.{slash_with_evidence-tokens, slash_with_evidence-again}
use hotmint.Staking.Registered.{IsRegistered}
use hotmint.Staking.Registered.Stakes.{run_all-IsRegistered}
use hotmint.Staking.Run.{
  Operation, register_op, delegate_op, slash_op, run_all, fresh_manager, fresh_manager-IsBacked,
  run_all-IsBacked,
}
use hotmint.Staking.Slash.{slash_rate, slash_store, slash_result, slash_with_evidence}
use hotmint.Staking.Store.{StakingStore, get_validator, all_validator_ids, stake_key_eq}
use hotmint.Staking.Tokens.{process_unbonding_lem, tokens_on, undelegate-tokens}
use hotmint.Types.Updates.{try_apply_updates}
use hotmint.Types.Validator.{get, ValidatorSet}
use hotmint.Types.Validator.Lookup.{has_id}
use hotmint.Types.Validator.Valid.{IsValid}
use hotmint.Witnesses.Validators.{four, four-IsValid}

abbrev validator_at : ℕ → ℕ → ℕ → ValidatorState
validator_at id own delegated_stake = record {
  id = id;
  public_key = replicate 32 id;
  self_stake = own;
  delegated_stake = delegated_stake;
  score = 10000;
  jailed = false;
  jail_until_height = 0;
  tombstoned = false;
  applied_slashes = [];
}

abbrev alice : Bytes
alice = 65 ∷ []

abbrev queued : UnbondingEntry
queued = record { staker = alice; validator = 7; amount = 40; completion_height = 90 }

abbrev two : StakingStore
two = record {
  validators = (7, validator_at 7 1500 60) ∷ (5, validator_at 5 2000 0) ∷ [];
  stakes = (record { addr = alice; vid = 7 }, record { amount = 60 }) ∷ [];
  unbondings = queued ∷ [];
}

abbrev manager : StakingManager
manager = record { store = two; config = default_config }

two-IsBacked : IsBacked two
unfolding get_validator Map.get
two-IsBacked = record {
  backed = λ id. ground arith;
  distinct = (tt, tt);
  ranged = ((omega arith, omega arith), ((omega arith, omega arith), tt));
}

two-IsRegistered : IsRegistered two
two-IsRegistered = record {
  keyed = (((λ e. omega arith), tt), (tt, tt));
  named = ((refl, refl), ((refl, refl), tt));
  apart = (((λ e. cc), tt), (tt, tt));
}

abbrev opening : List Operation
opening =
    register_op 7 (replicate 32 7) 1500 ∷ delegate_op alice 7 60 ∷ slash_op 7 alice downtime 4 ∷ []

run_all-IsBacked_example : IsBacked (run_all (fresh_manager default_config) opening).store
run_all-IsBacked_example =
    run_all-IsBacked (fresh_manager default_config) opening (omega arith, (tt, (tt, tt)))
      (fresh_manager-IsBacked default_config)

run_all-IsRegistered_example : IsRegistered (run_all (fresh_manager default_config) opening).store
run_all-IsRegistered_example =
    run_all-IsRegistered (fresh_manager default_config) opening (omega arith, (tt, (tt, tt)))
      (fresh_manager-IsBacked default_config) (record { keyed = tt; named = tt; apart = tt })

-- A slash of five per cent for double signing.
abbrev slashed : StakingManager
slashed = with_store manager (slash_store manager 7 (validator_at 7 1500 60) alice double_sign 100)

slash_accepted :
    slash_with_evidence manager 7 alice double_sign 100
    ≡ (ok (slash_result manager 7 (validator_at 7 1500 60) double_sign), slashed)
unfolding slash_with_evidence get_validator Map.get
slash_accepted = refl

slash_with_evidence-tokens_example :
    tokens_on 7 slashed.store
      + (slash_result manager 7 (validator_at 7 1500 60) double_sign).delegated_slashed
    ≡ 100
unfolding slash_rate
slash_with_evidence-tokens_example =
    slash_with_evidence-tokens manager slashed 7 alice double_sign 100
      (slash_result manager 7 (validator_at 7 1500 60) double_sign) two-IsBacked (omega arith)
      (omega arith) slash_accepted

slash_with_evidence-again_example :
    (voting_power_of slashed 7 ≡ 0)
    × ((reason2 : SlashReason) (later : ℕ)
        → slash_with_evidence slashed 7 alice reason2 later ≡ (err already_slashed, slashed))
    × ((later : ℕ)
        → ((saturating_add u64_limit 100 1000 ≤ later) × (0 ≤ later))
          ⊎ ((unjail slashed 7 later).1 ≡ slashed))
unfolding get_validator Map.get
slash_with_evidence-again_example =
    slash_with_evidence-again manager slashed 7 (validator_at 7 1500 60) alice double_sign 100
      (slash_result manager 7 (validator_at 7 1500 60) double_sign) refl slash_accepted

delegate-IsBacked_example :
    IsBacked (delegate manager alice 7 25).1.store
    × ((((delegate manager alice 7 25).0 ≡ ok tt)
          × Recorded manager alice 7 25 (delegate manager alice 7 25).1)
        ⊎ ((delegate manager alice 7 25).1 ≡ manager))
delegate-IsBacked_example = delegate-IsBacked manager alice 7 25 two-IsBacked

undelegate-tokens_example :
    tokens_on 7 (undelegate manager alice 7 25 100).1.store ≡ tokens_on 7 two
undelegate-tokens_example = undelegate-tokens manager alice 7 25 100 7 two-IsBacked

process_unbonding_lem_example :
    All (λ e. e.completion_height ≤ 95) (process_unbonding manager 95).0
    × All (λ e. 95 < e.completion_height) (process_unbonding manager 95).1.store.unbondings
    × (sum (λ e. e.amount) (process_unbonding manager 95).0
          + sum (λ e. e.amount) (process_unbonding manager 95).1.store.unbondings
        ≡ 40)
process_unbonding_lem_example = process_unbonding_lem manager 95 (λ e. e.amount)

formal_validator_list_lem_example :
    All (StoredAs two) (formal_validator_list manager)
    × All (IsEligible default_config) (formal_validator_list manager)
    × IsRanked (formal_validator_list manager)
    × (length (formal_validator_list manager) ≤ 100)
    × All (λ kv. IsPlaced default_config (formal_validator_list manager) kv.1) two.validators
formal_validator_list_lem_example = formal_validator_list_lem manager two-IsRegistered

compute_validator_updates-refines_example :
    (t : ValidatorSet) × (try_apply_updates four (compute_validator_updates manager four) ≡ ok t)
    × IsValid t
    × ((id : ℕ) → get t id ≡ find (has_id id) (members_of (formal_validator_list manager)))
unfolding formal_validator_list get_validator all_validator_ids Map.get sort insert_sorted
    voting_power total_stake sum_powers
compute_validator_updates-refines_example =
    compute_validator_updates-refines manager four two-IsRegistered four-IsValid (omega arith)
      (λ e. cc) refl
