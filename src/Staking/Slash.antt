-- ===== src/Staking/Slash.antt =====
-- crates/hotmint-staking/src/manager.rs: `slash` and `slash_with_evidence`.
use hotmint.Base.{
  ◌==◌, if◌then◌else◌, length, any, retain, u64_limit, saturating_add, ok, err, ℕ, ◌+◌, ◌-◌, ◌*◌,
  ◌/◌, ◌%◌, max, Bool, true, not, ◌&&◌, none, some, List, [], ◌∷◌, ◌++◌, map,
}
use hotmint.Base.Bytes.{Bytes, bytes_eq}
use hotmint.Base.Order.{bytes_leb}
use hotmint.Base.Sort.{sort, sum}
use hotmint.Staking.{
  SlashReason, double_sign, downtime, ValidatorState, StakeEntry, SlashResult, UnbondingEntry,
  StakingConfig,
}
use hotmint.Staking.Manager.{
  StakingManager, validator_not_found, empty_evidence_id, already_slashed, Outcome, with_store,
  lower_stake,
}
use hotmint.Staking.Store.{
  StakingStore, get_validator, set_validator, stakers_of, all_unbondings, replace_unbondings,
}

unfoldable pub slash_rate : StakingConfig → SlashReason → ℕ
slash_rate c double_sign = c.slash_rate_double_sign
slash_rate c downtime = c.slash_rate_downtime

unfoldable pub default_evidence_id : SlashReason → Bytes
default_evidence_id double_sign =
    114 ∷ 101 ∷ 97 ∷ 115 ∷ 111 ∷ 110 ∷ 58 ∷ 100 ∷ 111 ∷ 117 ∷ 98 ∷ 108 ∷ 101 ∷ 45 ∷ 115 ∷ 105 ∷ 103
    ∷ 110 ∷ []
default_evidence_id downtime =
    114 ∷ 101 ∷ 97 ∷ 115 ∷ 111 ∷ 110 ∷ 58 ∷ 100 ∷ 111 ∷ 119 ∷ 110 ∷ 116 ∷ 105 ∷ 109 ∷ 101 ∷ []

abbrev pub by_addr : Bytes × StakeEntry → Bytes × StakeEntry → Bool
by_addr x y = bytes_leb x.0 y.0

-- The part of a stake that a rate in basis points takes; the product is one of `u128`.
unfoldable pub slash_amount : ℕ → ℕ → ℕ
slash_amount rate stake = stake * rate / 10000 % u64_limit

-- The part of `slash` that falls on the stakes up to `cumulative`, out of `total`.
unfoldable pub cumulative_share : ℕ → ℕ → ℕ → ℕ
cumulative_share slash total cumulative = cumulative * slash / total % u64_limit

abbrev pub share_of : ℕ → ℕ → ℕ → ℕ → ℕ
share_of slash total before amount =
    cumulative_share slash total (before + amount) - cumulative_share slash total before

-- The loop over the sorted delegators, from the stake `before` it has passed. `slashed_so_far` is
-- the share of that stake; the sum of the stakes is the unchecked `u64` sum of the source, which
-- the validator's recorded delegated stake bounds.
unfoldable pub slash_stakers :
    ℕ → ℕ → ℕ → ℕ → List (Bytes × StakeEntry) → StakingStore → StakingStore
slash_stakers id slash total before [] s = s
slash_stakers id slash total before ((who, e) ∷ rest) s =
    slash_stakers id slash total (before + e.amount) rest
      (lower_stake s who id (e.amount - share_of slash total before e.amount))

abbrev pub entry_amount : Bytes × StakeEntry → ℕ
entry_amount x = x.1.amount

unfoldable pub slash_delegations : StakingStore → ℕ → ℕ → StakingStore
slash_delegations s id slash =
    let stakers = sort by_addr (stakers_of s id) in
    let total = sum entry_amount stakers in
    if slash == 0 then s else (if total == 0 then s else slash_stakers id slash total 0 stakers s)

abbrev pub slashed_state : StakingConfig → ValidatorState → Bytes → SlashReason → ℕ → ValidatorState
slashed_state c v evidence reason height = record v {
  self_stake = v.self_stake - slash_amount (slash_rate c reason) v.self_stake;
  delegated_stake = v.delegated_stake - slash_amount (slash_rate c reason) v.delegated_stake;
  jailed = true;
  jail_until_height = max v.jail_until_height (saturating_add u64_limit height c.jail_duration);
  score = v.score - c.max_score / 10;
  applied_slashes = v.applied_slashes ++ record { evidence_id = evidence; reason = reason } ∷ [];
}

abbrev pub is_hit : ℕ → UnbondingEntry → Bool
is_hit id e = e.validator == id && not (e.amount == 0)

abbrev pub slash_unbonding : ℕ → ℕ → UnbondingEntry → UnbondingEntry
slash_unbonding id rate e =
    if is_hit id e then record e { amount = e.amount - slash_amount rate e.amount } else e

-- `unbonding_slashed` of the `map` over the queue.
abbrev pub unbondings_slashed : ℕ → ℕ → ℕ → List UnbondingEntry → ℕ
unbondings_slashed id rate acc [] = acc
unbondings_slashed id rate acc (e ∷ es) =
    let taken : ℕ =
      if is_hit id e then saturating_add u64_limit acc (slash_amount rate e.amount) else acc in
    unbondings_slashed id rate taken es

unfoldable pub slash_unbondings : ℕ → ℕ → List UnbondingEntry → List UnbondingEntry
slash_unbondings id rate es = retain (λ e. not (e.amount == 0)) (map (slash_unbonding id rate) es)

abbrev pub is_applied : Bytes → ValidatorState → Bool
is_applied evidence v = any (λ a. bytes_eq a.evidence_id evidence) v.applied_slashes

unfoldable pub slash_store :
    StakingManager → ℕ → ValidatorState → Bytes → SlashReason → ℕ → StakingStore
slash_store m id v evidence reason height =
    let rate = slash_rate m.config reason in
    let stakes_cut = slash_delegations m.store id (slash_amount rate v.delegated_stake) in
    let written = set_validator stakes_cut id (slashed_state m.config v evidence reason height) in
    replace_unbondings written (slash_unbondings id rate (all_unbondings written))

unfoldable pub slash_result : StakingManager → ℕ → ValidatorState → SlashReason → SlashResult
slash_result m id v reason =
    let rate = slash_rate m.config reason in
    record {
      self_slashed = slash_amount rate v.self_stake;
      delegated_slashed =
          saturating_add u64_limit (slash_amount rate v.delegated_stake)
            (unbondings_slashed id rate 0 (all_unbondings m.store));
      jailed = true;
    }

unfoldable pub slash_with_evidence :
    StakingManager → ℕ → Bytes → SlashReason → ℕ → Outcome SlashResult
slash_with_evidence m id evidence reason height =
    if length evidence == 0 then (err empty_evidence_id, m) else elim (get_validator m.store id) [
      | none ↦ (err validator_not_found, m)
      | some v ↦ if is_applied evidence v then (err already_slashed, m) else (
        ok (slash_result m id v reason),
        with_store m (slash_store m id v evidence reason height),
      )
    ]

unfoldable pub slash : StakingManager → ℕ → SlashReason → ℕ → Outcome SlashResult
slash m id reason height = slash_with_evidence m id (default_evidence_id reason) reason height
