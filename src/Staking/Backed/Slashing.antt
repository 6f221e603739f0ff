-- ===== src/Staking/Backed/Slashing.antt =====
-- crates/hotmint-staking/src/manager.rs: a slash and the release of tokens keep the delegations
-- backed.
use hotmint.Base.Map
use hotmint.Base.{
  ◌==◌, if◌then◌else◌, ==_iff, Option-cases, if_cases, All, All-imp, ℕ, ◌+◌, ◌-◌, ◌≡◌, refl, ap,
  ◌∙◌, ◌≢◌, inl, inr, false, some, List, [], ◌∷◌, arith,
}
use hotmint.Base.Bytes.{Bytes, bytes_eq_iff}
use hotmint.Base.Keys.{Lacks, DistinctKeys, weight, get-cons_of_Lacks, get-cons_self}
use hotmint.Base.Map.{get-insert, get-remove, nat_eq, text_eq}
use hotmint.Base.Sort.{sum}
use hotmint.Consensus.VoteCollector.{vote_key_eq}
use hotmint.Staking.{StakeEntry, total_stake}
use hotmint.Staking.Backed.{
  delegated_part, staked_on, amount_of, IsBacked, staked_on-lower_stake, lower_stake-DistinctKeys,
  remove_validator-IsBacked,
}
use hotmint.Staking.Manager.{
  StakingManager, lower_stake, is_prunable, prune_ids, prune_tombstoned_validators,
  process_unbonding,
}
use hotmint.Staking.Shares.{sum_left}
use hotmint.Staking.Slash.{share_of, slash_stakers, entry_amount}
use hotmint.Staking.Store.{
  StakeKey, stake_key_beq, StakingStore, get_validator, get_stake, set_stake, remove_stake,
  stakers_in, drain_mature_unbondings, stake_key_eq,
}
use hotmint.Types.Validator.Valid.{ids}

prune_ids-IsBacked :
    (pending ids : List ℕ) (s : StakingStore) → IsBacked s → IsBacked (prune_ids pending ids s)
unfolding prune_ids total_stake
prune_ids-IsBacked pending [] s b = b
prune_ids-IsBacked pending (id ∷ ids) s b =
    prune_ids-IsBacked pending ids _ (elim (Option-cases (get_validator s id)) [
      | inl unknown ↦ rw unknown b
      | inr (v, known) ↦ rw known (
          if_cases (λ t. IsBacked t) (is_prunable pending id v)
            (λ gone. remove_validator-IsBacked s id b (ground (arith, known, gone))) (λ kept. b))
    ])

pub process_unbonding-IsBacked :
    (m : StakingManager) (height : ℕ)
    → IsBacked m.store
    → IsBacked (process_unbonding m height).1.store
unfolding process_unbonding prune_tombstoned_validators drain_mature_unbondings get_validator
process_unbonding-IsBacked m height b =
    prune_ids-IsBacked _ _ _
      (record { backed = b.backed; distinct = b.distinct; ranged = b.ranged })

-- The delegators of a validator, as the store lists them.
pub stakers_in-sum :
    (id : ℕ) (m : List (StakeKey × StakeEntry))
    → sum entry_amount (stakers_in id m) ≡ weight (delegated_part id) m
stakers_in-sum id [] = refl
stakers_in-sum id ((k, e) ∷ m) = ground (arith, stakers_in-sum id m)

pub stakers_in-Lacks :
    (id : ℕ) (who : Bytes) (m : List (StakeKey × StakeEntry))
    → Lacks (record { addr = who; vid = id }) m
    → Lacks who (stakers_in id m)
stakers_in-Lacks id who [] n = tt
stakers_in-Lacks id who ((k, e) ∷ m) n =
    if_cases (Lacks who) (k.vid == id)
      (λ hit. ((λ same. ground (arith, n.0)), stakers_in-Lacks id who m n.1))
      (λ miss. stakers_in-Lacks id who m n.1)

pub stakers_in-DistinctKeys :
    (id : ℕ) (m : List (StakeKey × StakeEntry)) → DistinctKeys m → DistinctKeys (stakers_in id m)
stakers_in-DistinctKeys id [] d = tt
stakers_in-DistinctKeys id ((k, e) ∷ m) d =
    if_cases DistinctKeys (k.vid == id)
      (λ hit. (
        stakers_in-Lacks id k.addr m (rw⁻¹ ((==_iff k.vid id).0 hit) d.0),
        stakers_in-DistinctKeys id m d.1,
      ))
      (λ miss. stakers_in-DistinctKeys id m d.1)

abbrev pub StoredIn : ℕ → List (StakeKey × StakeEntry) → Bytes × StakeEntry → Type 0
StoredIn id m x = Map.get (record { addr = x.0; vid = id }) m ≡ some x.1

pub stakers_in-StoredIn :
    (id : ℕ) (m : List (StakeKey × StakeEntry))
    → DistinctKeys m
    → All (StoredIn id m) (stakers_in id m)
stakers_in-StoredIn id [] d = tt
stakers_in-StoredIn id ((k, e) ∷ m) d =
    let rest =
      All-imp (StoredIn id m) (StoredIn id ((k, e) ∷ m)) (stakers_in id m)
        (λ x h. get-cons_of_Lacks k (record { addr = x.0; vid = id }) e x.1 m d.0 h)
        (stakers_in-StoredIn id m d.1) in
    if_cases (All (StoredIn id ((k, e) ∷ m))) (k.vid == id)
      (λ hit. (rw⁻¹ ((==_iff k.vid id).0 hit) (get-cons_self k e m), rest)) (λ miss. rest)

-- A write of one delegator's stake leaves those of the others.
lower_stake-Stored :
    (s : StakingStore) (who : Bytes) (id left : ℕ) (x : Bytes × StakeEntry)
    → x.0 ≢ who
    → StoredIn id s.stakes x
    → StoredIn id (lower_stake s who id left).stakes x
unfolding remove_stake set_stake
lower_stake-Stored s who id left x n h =
    if_cases (λ (t : StakingStore). StoredIn id t.stakes x) (left == 0)
      (λ _. ground (arith, Map.get-remove key other s.stakes, apart, h))
      (λ _. ground (arith, Map.get-insert key other (record { amount = left }) s.stakes, apart, h))
  where
    key : StakeKey
    key = record { addr = who; vid = id }

    other : StakeKey
    other = record { addr = x.0; vid = id }

    apart : stake_key_beq key other ≡ false
    apart = ground (arith, bytes_eq_iff who x.0, n)

-- The writes of all the other delegators' stakes in a list.
lower_stake-All_Stored :
    (s : StakingStore) (who : Bytes) (id left : ℕ) (xs : List (Bytes × StakeEntry))
    → Lacks who xs
    → All (StoredIn id s.stakes) xs
    → All (StoredIn id (lower_stake s who id left).stakes) xs
lower_stake-All_Stored s who id left [] n h = tt
lower_stake-All_Stored s who id left (x ∷ xs) n h =
    (lower_stake-Stored s who id left x n.0 h.0, lower_stake-All_Stored s who id left xs n.1 h.1)

pub lower_stake-validators :
    (s : StakingStore) (who : Bytes) (id left : ℕ)
    → (lower_stake s who id left).validators ≡ s.validators
unfolding remove_stake set_stake
lower_stake-validators s who id left =
    if_cases (λ (t : StakingStore). t.validators ≡ s.validators) (left == 0) (λ _. refl) (λ _. refl)

stored :
    (s : StakingStore) (who : Bytes) (id : ℕ) (e : StakeEntry)
    → StoredIn id s.stakes (who, e)
    → amount_of (get_stake s who id) ≡ e.amount
unfolding get_stake
stored s who id e h = ap amount_of h

pub record Cut (s t : StakingStore) (id taken left : ℕ) : Type 0 where
  pub same : t.validators ≡ s.validators
  pub distinct : DistinctKeys t.stakes
  pub moved :
      (j : ℕ)
      → staked_on j t + (if id == j then taken else 0)
        ≡ staked_on j s + (if id == j then left else 0)

-- The loop replaces the stakes of its delegators by what their shares leave.
pub slash_stakers-Cut :
    (id cut total before : ℕ) (xs : List (Bytes × StakeEntry)) (s : StakingStore)
    → DistinctKeys s.stakes
    → DistinctKeys xs
    → All (StoredIn id s.stakes) xs
    → Cut s
        (slash_stakers id cut total before xs s)
        id
        (sum entry_amount xs)
        (sum_left cut total before xs)
unfolding slash_stakers
slash_stakers-Cut id cut total before [] s d dx h = record {
  same = refl;
  distinct = d;
  moved = λ j. refl;
}
slash_stakers-Cut id cut total before ((who, e) ∷ xs) s d dx h =
    let left : ℕ = e.amount - share_of cut total before e.amount in
    let rest =
      slash_stakers-Cut id cut total (before + e.amount) xs (lower_stake s who id left)
        (lower_stake-DistinctKeys s who id left d) dx.1
        (lower_stake-All_Stored s who id left xs dx.0 h.1) in
    record {
      same = rest.same ∙ lower_stake-validators s who id left;
      distinct = rest.distinct;
      moved = λ j.
          ground
            (arith, rest.moved j, staked_on-lower_stake s who id left j d, stored s who id e h.0);
    }
