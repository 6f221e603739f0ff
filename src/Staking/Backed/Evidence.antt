-- ===== src/Staking/Backed/Evidence.antt =====
-- crates/hotmint-staking/src/manager.rs: `slash_with_evidence` takes from the delegators what it takes
-- from the validator's recorded delegated stake.
use native.Mathlib.Nat.{mod-lt}
use hotmint.Base.{
  ◌==◌, if◌then◌else◌, ==_iff, Bool-cases, Option-cases, if_cases, length, u64_limit, ℕ, ◌-◌, ◌*◌,
  ◌/◌, ◌<◌, ◌≡◌, refl, ap, ◌∙◌, subst, inl, inr, some, List, arith,
}
use hotmint.Base.Bytes.{Bytes}
use hotmint.Base.Keys.{DistinctKeys, DistinctKeys-sort}
use hotmint.Base.Sort.{sort, sum, sum-sort, All-sort}
use hotmint.Staking.{SlashReason, ValidatorState, StakeEntry, SlashResult}
use hotmint.Staking.Backed.{
  staked_on, InRange, IsBacked, get_validator-InRange, set_validator-IsBacked,
}
use hotmint.Staking.Backed.Slashing.{
  stakers_in-sum, stakers_in-DistinctKeys, StoredIn, stakers_in-StoredIn, Cut, slash_stakers-Cut,
}
use hotmint.Staking.Manager.{StakingManager, Outcome}
use hotmint.Staking.Shares.{sum_left, sum_left_lem}
use hotmint.Staking.Slash.{
  slash_rate, by_addr, slash_amount, slash_stakers, entry_amount, slash_delegations, slashed_state,
  is_applied, slash_store, slash_with_evidence,
}
use hotmint.Staking.Store.{
  StakingStore, get_validator, set_validator, stakers_in, stakers_of, replace_unbondings,
}

pub slash_amount_lt : (rate stake : ℕ) → slash_amount rate stake < u64_limit
unfolding slash_amount
slash_amount_lt rate stake = mod-lt (stake * rate / 10000) (ground arith)

sum_stakers :
    (s : StakingStore) (id : ℕ) → sum entry_amount (sort by_addr (stakers_of s id)) ≡ staked_on id s
unfolding stakers_of
sum_stakers s id =
    sum-sort by_addr entry_amount (stakers_in id s.stakes) ∙ stakers_in-sum id s.stakes

pub slash_delegations_lem :
    (s : StakingStore) (id cut : ℕ)
    → DistinctKeys s.stakes
    → cut < u64_limit
    → Cut s (slash_delegations s id cut) id (staked_on id s) (staked_on id s - cut)
unfolding slash_delegations stakers_of
slash_delegations_lem s id cut d fits =
    if_cases Result (cut == 0)
      (λ none_cut. record { same = refl; distinct = d; moved = λ j. ground arith })
      (λ some_cut.
        if_cases Result (total == 0)
          (λ empty. record {
            same = refl;
            distinct = d;
            moved = λ j. ground (arith, sum_stakers s id);
          })
          (λ full.
            subst (λ n. Cut s slashed_store id n (n - cut)) (sum_stakers s id)
              (subst (Cut s slashed_store id total) (sum_left_lem cut stakers (ground arith) fits)
                slashed)))
  where
    Result : StakingStore → Type 0
    Result t = Cut s t id (staked_on id s) (staked_on id s - cut)

    stakers : List (Bytes × StakeEntry)
    stakers = sort by_addr (stakers_of s id)

    total : ℕ
    total = sum entry_amount stakers

    slashed_store : StakingStore
    slashed_store = slash_stakers id cut total 0 stakers s

    slashed : Cut s slashed_store id total (sum_left cut total 0 stakers)
    slashed =
        slash_stakers-Cut id cut total 0 stakers s d
          (DistinctKeys-sort by_addr (stakers_in id s.stakes)
            (stakers_in-DistinctKeys id s.stakes d))
          (All-sort (StoredIn id s.stakes) by_addr (stakers_in id s.stakes)
            (stakers_in-StoredIn id s.stakes d))

-- What is left of the delegations to one validator; those to the others stay.
pub staked_on-slash_delegations :
    (s : StakingStore) (id cut j : ℕ)
    → DistinctKeys s.stakes
    → cut < u64_limit
    → staked_on j (slash_delegations s id cut)
      ≡ (if id == j then staked_on id s - cut else staked_on j s)
staked_on-slash_delegations s id cut j d fits = elim (Bool-cases (id == j)) [
  | inl hit ↦
      let here : id ≡ j = (==_iff id j).0 hit in
      ground (arith, (slash_delegations_lem s id cut d fits).moved j, ap (λ i. staked_on i s) here)
  | inr miss ↦ ground (arith, (slash_delegations_lem s id cut d fits).moved j)
]

slash_store-IsBacked :
    (m : StakingManager) (id : ℕ) (v : ValidatorState) (evidence : Bytes) (reason : SlashReason)
    (height : ℕ)
    → IsBacked m.store
    → get_validator m.store id ≡ some v
    → IsBacked (slash_store m id v evidence reason height)
unfolding slash_store replace_unbondings get_validator
slash_store-IsBacked m id v evidence reason height b known = record {
  backed = written.backed;
  distinct = written.distinct;
  ranged = written.ranged;
}
  where
    cut : ℕ
    cut = slash_amount (slash_rate m.config reason) v.delegated_stake

    fits : cut < u64_limit
    fits = slash_amount_lt (slash_rate m.config reason) v.delegated_stake

    w : ValidatorState
    w = slashed_state m.config v evidence reason height

    range : InRange v
    range = get_validator-InRange m.store id b known

    moved :
        (j : ℕ)
        → staked_on j (slash_delegations m.store id cut)
          ≡ (if id == j then w.delegated_stake else staked_on j m.store)
    moved j =
        ground
          (arith, staked_on-slash_delegations m.store id cut j b.distinct fits, b.backed id, known)

    rest :
        Cut m.store
          (slash_delegations m.store id cut)
          id
          (staked_on id m.store)
          (staked_on id m.store - cut)
    rest = slash_delegations_lem m.store id cut b.distinct fits

    written : IsBacked (set_validator (slash_delegations m.store id cut) id w)
    written =
        set_validator-IsBacked m.store (slash_delegations m.store id cut) id w b rest.same
          rest.distinct moved (omega (arith, range.0), omega (arith, range.1))

-- A slash, accepted or refused, keeps the delegations of every validator equal to its recorded
-- delegated stake.
pub slash_with_evidence-IsBacked :
    (m : StakingManager) (id : ℕ) (evidence : Bytes) (reason : SlashReason) (height : ℕ)
    → IsBacked m.store
    → IsBacked (slash_with_evidence m id evidence reason height).1.store
unfolding slash_with_evidence
slash_with_evidence-IsBacked m id evidence reason height b =
    if_cases Keeps (length evidence == 0) (λ _. b)
      (λ _. (elim (Option-cases (get_validator m.store id)) [
        | inl unknown ↦ rw unknown b
        | inr (v, known) ↦ rw known (
            if_cases Keeps (is_applied evidence v) (λ _. b)
              (λ _. slash_store-IsBacked m id v evidence reason height b known))
      ]))
  where
    Keeps : Outcome SlashResult → Type 0
    Keeps o = IsBacked o.1.store
