-- ===== src/Staking/Backed.antt =====
-- The invariant of the staking store: the delegations to each validator add up to its recorded
-- delegated stake. Here for the writes that the operations are made of.
pub mod Operations
pub mod Delegation
pub mod Undelegation
pub mod Slashing
pub mod Evidence
use hotmint.Base.Map
use hotmint.Base.{
  ◌==◌, if◌then◌else◌, Bool-cases, All, u64_limit, ℕ, ◌+◌, ◌<◌, ◌≡◌, refl, ap, inl, inr, Option,
  none, some, arith,
}
use hotmint.Base.Bytes.{Bytes}
use hotmint.Base.Keys.{
  DistinctKeys, weight, weight_at, All-remove, DistinctKeys-insert, DistinctKeys-remove,
  weight-insert, weight-remove,
}
use hotmint.Base.Map.{get-insert, get-remove, All-insert, All-get, nat_eq, text_eq}
use hotmint.Consensus.VoteCollector.{vote_key_eq}
use hotmint.Staking.{ValidatorState, StakeEntry}
use hotmint.Staking.Manager.{lower_stake}
use hotmint.Staking.Store.{
  StakeKey, StakingStore, get_validator, set_validator, remove_validator, get_stake, set_stake,
  remove_stake, stake_key_eq,
}

abbrev pub delegated_part : ℕ → StakeKey → StakeEntry → ℕ
delegated_part id k e = if k.vid == id then e.amount else 0

-- The sum of the delegations to a validator.
abbrev pub staked_on : ℕ → StakingStore → ℕ
staked_on id s = weight (delegated_part id) s.stakes

-- The recorded delegated stake; nothing for an unknown validator.
abbrev pub delegated_to : ℕ → StakingStore → ℕ
delegated_to id s = elim (get_validator s id) [ none ↦ 0 | some v ↦ v.delegated_stake ]

abbrev pub amount_of : Option StakeEntry → ℕ
amount_of none = 0
amount_of (some e) = e.amount

abbrev pub InRange : ValidatorState → Type 0
InRange v = (v.self_stake < u64_limit) × (v.delegated_stake < u64_limit)

pub record IsBacked (s : StakingStore) : Type 0 where
  pub backed : (id : ℕ) → staked_on id s ≡ delegated_to id s
  pub distinct : DistinctKeys s.stakes
  pub ranged : All (λ kv. InRange kv.1) s.validators

pub get_validator-InRange :
    (s : StakingStore) (id : ℕ) {v : ValidatorState}
    → IsBacked s
    → get_validator s id ≡ some v
    → InRange v
unfolding get_validator
get_validator-InRange s id {v} b g = Map.All-get (λ kv. InRange kv.1) id v s.validators b.ranged g

pub staked_on-lower_stake :
    (s : StakingStore) (who : Bytes) (id left j : ℕ)
    → DistinctKeys s.stakes
    → staked_on j (lower_stake s who id left)
        + (if id == j then amount_of (get_stake s who id) else 0)
      ≡ staked_on j s + (if id == j then left else 0)
unfolding remove_stake set_stake get_stake
staked_on-lower_stake s who id left j d = elim (Bool-cases (left == 0)) [
  | inl gone ↦ ground (arith, gone, removed)
  | inr some_left ↦ ground (arith, some_left, written)
]
  where
    key : StakeKey
    key = record { addr = who; vid = id }

    removed :
        weight (delegated_part j) (Map.remove key s.stakes)
          + weight_at (delegated_part j) key (Map.get key s.stakes)
        ≡ weight (delegated_part j) s.stakes
    removed = weight-remove (delegated_part j) key s.stakes d

    written :
        weight (delegated_part j) (Map.insert key (record { amount = left }) s.stakes)
          + weight_at (delegated_part j) key (Map.get key s.stakes)
        ≡ weight (delegated_part j) s.stakes + (if id == j then left else 0)
    written = weight-insert (delegated_part j) key (record { amount = left }) s.stakes

pub lower_stake-DistinctKeys :
    (s : StakingStore) (who : Bytes) (id left : ℕ)
    → DistinctKeys s.stakes
    → DistinctKeys (lower_stake s who id left).stakes
unfolding remove_stake set_stake
lower_stake-DistinctKeys s who id left d = elim (Bool-cases (left == 0)) [
  | inl gone ↦ rw gone (DistinctKeys-remove (record { addr = who; vid = id }) s.stakes d)
  | inr some_left ↦
      rw some_left (
        DistinctKeys-insert (record { addr = who; vid = id }) (record { amount = left }) s.stakes d)
]

-- A write of a validator's state that fits the delegations, these being changed for it alone.
pub set_validator-IsBacked :
    (s t : StakingStore) (id : ℕ) (w : ValidatorState)
    → IsBacked s
    → t.validators ≡ s.validators
    → DistinctKeys t.stakes
    → ((j : ℕ) → staked_on j t ≡ (if id == j then w.delegated_stake else staked_on j s))
    → InRange w
    → IsBacked (set_validator t id w)
unfolding set_validator get_validator
set_validator-IsBacked s t id w b same d moved r = record {
  backed = λ j.
      ground (arith, moved j, b.backed j, Map.get-insert id j w t.validators, ap (Map.get j) same);
  distinct = d;
  ranged = Map.All-insert (λ kv. InRange kv.1) id w t.validators r (rw same b.ranged);
}

-- A write that leaves the recorded delegated stake as it was.
pub update_validator-IsBacked :
    (s : StakingStore) (id : ℕ) (v w : ValidatorState)
    → IsBacked s
    → get_validator s id ≡ some v
    → w.delegated_stake ≡ v.delegated_stake
    → w.self_stake < u64_limit
    → IsBacked (set_validator s id w)
update_validator-IsBacked s id v w b g same r =
    set_validator-IsBacked s s id w b refl b.distinct (λ j. ground (arith, b.backed j, g, same))
      (r, omega (arith, same, get_validator-InRange s id b g))

pub remove_validator-IsBacked :
    (s : StakingStore) (id : ℕ)
    → IsBacked s
    → delegated_to id s ≡ 0
    → IsBacked (remove_validator s id)
unfolding remove_validator get_validator
remove_validator-IsBacked s id b none_left = record {
  backed = λ j. ground (arith, b.backed j, Map.get-remove id j s.validators, none_left);
  distinct = b.distinct;
  ranged = All-remove (λ kv. InRange kv.1) id s.validators b.ranged;
}
