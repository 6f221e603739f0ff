-- ===== src/Staking/Punish.antt =====
-- crates/hotmint-staking/src/manager.rs: what an accepted slash reports, takes and forbids.
use native.Mathlib.Nat.{mul-le-mul_left, div-le_of_le-mul, mod-le, mul_comm}
use hotmint.Base.{
  leb, ◌==◌, ==_self, Bool-cases, Option-cases, if_cases, length, any, u64_limit, saturating_add,
  ok, err, ℕ, ◌+◌, ◌-◌, ◌*◌, ◌/◌, ◌≤◌, ◌<◌, max, ◌≡◌, refl, ap, ◌∙◌, ◌⊎◌, inl, inr, true, false,
  some, List, [], ◌∷◌, ◌++◌, arith,
}
use hotmint.Base.Bytes.{Bytes, bytes_eq, bytes_eq_iff}
use hotmint.Base.Map.{get-insert, nat_eq}
use hotmint.Base.Sort.{sort, sum}
use hotmint.Staking.{
  SlashReason, AppliedSlash, ValidatorState, StakeEntry, SlashResult, UnbondingEntry, voting_power,
}
use hotmint.Staking.Backed.{IsBacked}
use hotmint.Staking.Backed.Evidence.{slash_amount_lt, staked_on-slash_delegations}
use hotmint.Staking.Manager.{StakingManager, already_slashed, with_store, unjail, voting_power_of}
use hotmint.Staking.Slash.{
  slash_rate, by_addr, slash_amount, share_of, slash_stakers, entry_amount, slash_delegations,
  slashed_state, is_hit, unbondings_slashed, slash_unbondings, slash_store, slash_result,
  slash_with_evidence,
}
use hotmint.Staking.Store.{
  StakingStore, get_validator, set_validator, stakers_of, all_unbondings, replace_unbondings,
}
use hotmint.Staking.Tokens.{unbonding_part, tokens_on, lower_stake-unbondings}

slash_amount_le : (rate stake : ℕ) → rate ≤ 10000 → slash_amount rate stake ≤ stake
unfolding slash_amount
slash_amount_le rate stake le = omega (arith, part, mod-le (stake * rate / 10000) u64_limit)
  where
    part : stake * rate / 10000 ≤ stake
    part = div-le_of_le-mul 10000 (rw (mul_comm 10000 stake) (mul-le-mul_left stake le))

-- The queue gives up what the slash counts as taken from it.
slash_unbondings-sum :
    (id rate acc : ℕ) (es : List UnbondingEntry)
    → rate ≤ 10000
    → acc + sum (unbonding_part id) es < u64_limit
    → sum (unbonding_part id) (slash_unbondings id rate es) + unbondings_slashed id rate acc es
      ≡ sum (unbonding_part id) es + acc
unfolding slash_unbondings
slash_unbondings-sum id rate acc [] le fits = refl
slash_unbondings-sum id rate acc (e ∷ es) le fits =
    let part = slash_amount_le rate e.amount le in
    elim (Bool-cases (is_hit id e)) [
      | inl hit ↦
          ground (
            arith,
            part,
            hit,
            slash_unbondings-sum id rate (acc + slash_amount rate e.amount) es le,
          )
      | inr miss ↦ ground (arith, miss, slash_unbondings-sum id rate acc es le)
    ]

-- An accepted slash was asked for under a fresh evidence id of a known validator.
pub slash_with_evidence_ok :
    (m n : StakingManager) (id : ℕ) (evidence : Bytes) (reason : SlashReason) (height : ℕ)
    (r : SlashResult)
    → slash_with_evidence m id evidence reason height ≡ (ok r, n)
    → (v : ValidatorState) × (get_validator m.store id ≡ some v)
      × (r ≡ slash_result m id v reason)
      × (n ≡ with_store m (slash_store m id v evidence reason height))
      × ((length evidence == 0) ≡ false)
unfolding slash_with_evidence
slash_with_evidence_ok m n id evidence reason height r h =
    elim (Option-cases (get_validator m.store id)) [
      | inl unknown ↦ absurd (ground (arith, unknown))
      | inr (v, known) ↦ (v, known, ground (arith, known), ground (arith, known), ground arith)
    ]

slash_stakers-unbondings :
    (id cut total before : ℕ) (xs : List (Bytes × StakeEntry)) (s : StakingStore)
    → (slash_stakers id cut total before xs s).unbondings ≡ s.unbondings
unfolding slash_stakers
slash_stakers-unbondings id cut total before [] s = refl
slash_stakers-unbondings id cut total before ((who, e) ∷ xs) s =
    slash_stakers-unbondings id cut total (before + e.amount) xs _
    ∙ lower_stake-unbondings s who id (e.amount - share_of cut total before e.amount)

slash_delegations-unbondings :
    (s : StakingStore) (id cut : ℕ) → (slash_delegations s id cut).unbondings ≡ s.unbondings
unfolding slash_delegations
slash_delegations-unbondings s id cut =
    if_cases (λ (t : StakingStore). t.unbondings ≡ s.unbondings) (cut == 0) (λ _. refl)
      (λ _.
        if_cases (λ (t : StakingStore). t.unbondings ≡ s.unbondings)
          (sum entry_amount (sort by_addr (stakers_of s id)) == 0) (λ _. refl)
          (λ _. slash_stakers-unbondings id cut _ 0 (sort by_addr (stakers_of s id)) s))

slash_store-unbondings :
    (m : StakingManager) (id : ℕ) (v : ValidatorState) (evidence : Bytes) (reason : SlashReason)
    (height : ℕ)
    → (slash_store m id v evidence reason height).unbondings
      ≡ slash_unbondings id (slash_rate m.config reason) m.store.unbondings
unfolding slash_store replace_unbondings set_validator all_unbondings
slash_store-unbondings m id v evidence reason height =
    ap (slash_unbondings id (slash_rate m.config reason))
      (slash_delegations-unbondings m.store id _)

-- An accepted slash takes from the validator's delegators exactly the amount that it reports: what
-- they keep, staked or unbonding, and that amount add up to what they had. The rate is at most all,
-- and the delegators' tokens fit a word.
pub slash_with_evidence-tokens :
    (m n : StakingManager) (id : ℕ) (evidence : Bytes) (reason : SlashReason) (height : ℕ)
    (r : SlashResult)
    → IsBacked m.store
    → slash_rate m.config reason ≤ 10000
    → tokens_on id m.store < u64_limit
    → slash_with_evidence m id evidence reason height ≡ (ok r, n)
    → tokens_on id n.store + r.delegated_slashed ≡ tokens_on id m.store
unfolding slash_store replace_unbondings set_validator slash_result all_unbondings
slash_with_evidence-tokens m n id evidence reason height r b le fits h =
    let (v, known, reported, made, nonempty) =
      slash_with_evidence_ok m n id evidence reason height r h in
    let rate = slash_rate m.config reason in
    let cut = slash_amount rate v.delegated_stake in
    let below = slash_amount_lt rate v.delegated_stake in
    rw (reported, made)
      (ground (
        arith,
        slash_unbondings-sum id rate 0 m.store.unbondings le (omega (arith, fits)),
        staked_on-slash_delegations m.store id cut id b.distinct below,
        ap (sum (unbonding_part id)) (slash_store-unbondings m id v evidence reason height),
        slash_amount_le rate v.delegated_stake le,
        b.backed id,
        known,
        fits,
      ))

applied_self :
    (evidence : Bytes) (reason : SlashReason) (xs : List AppliedSlash)
    → any
        (λ a. bytes_eq a.evidence_id evidence)
        (xs ++ record { evidence_id = evidence; reason = reason } ∷ [])
      ≡ true
applied_self evidence reason [] = ground (arith, (bytes_eq_iff evidence evidence).1 refl)
applied_self evidence reason (x ∷ xs) = ground (arith, applied_self evidence reason xs)

slashed-get_validator :
    (m : StakingManager) (id : ℕ) (v : ValidatorState) (evidence : Bytes) (reason : SlashReason)
    (height : ℕ)
    → get_validator (slash_store m id v evidence reason height) id
      ≡ some (slashed_state m.config v evidence reason height)
unfolding slash_store replace_unbondings set_validator get_validator
slashed-get_validator m id v evidence reason height = get-insert id id _ _ ∙ rw (==_self id) refl

-- A validator that was slashed has no voting power, cannot be slashed again for the same evidence,
-- whatever the reason and the height, and is not released before its new jail time has passed, nor
-- before the one that it had.
pub slash_with_evidence-again :
    (m n : StakingManager) (id : ℕ) (v : ValidatorState) (evidence : Bytes) (reason : SlashReason)
    (height : ℕ) (r : SlashResult)
    → get_validator m.store id ≡ some v
    → slash_with_evidence m id evidence reason height ≡ (ok r, n)
    → (voting_power_of n id ≡ 0)
      × ((reason2 : SlashReason) (later : ℕ)
          → slash_with_evidence n id evidence reason2 later ≡ (err already_slashed, n))
      × ((later : ℕ)
          → ((saturating_add u64_limit height m.config.jail_duration ≤ later)
              × (v.jail_until_height ≤ later))
            ⊎ ((unjail n id later).1 ≡ n))
unfolding slash_with_evidence voting_power_of voting_power unjail
slash_with_evidence-again m n id v evidence reason height r registered h =
    let (w, known, reported, made, nonempty) =
      slash_with_evidence_ok m n id evidence reason height r h in
    let same : w ≡ v = ground (arith, known, registered) in
    let found : get_validator n.store id ≡ some (slashed_state m.config v evidence reason height) =
      rw (← same, made) (slashed-get_validator m id w evidence reason height) in
    let jail = max v.jail_until_height (saturating_add u64_limit height m.config.jail_duration) in
    (
      rw (found, voting_power_of) refl,
      (λ reason2 later.
          rw (nonempty, found, applied_self evidence reason v.applied_slashes, slash_with_evidence)
            refl),
      (λ later. elim (Bool-cases (leb jail later)) [
        | inl late ↦ inl (ground arith, ground arith)
        | inr early ↦ inr (ground (arith, found, early))
      ]),
    )
