-- ===== src/Staking/Registered.antt =====
-- The invariant of the registry: every state stands under its own id with a key of Ed25519's length,
-- and no two validators share a key. Here for the writes that the operations are made of.
pub mod Operations
pub mod Stakes
use hotmint.Base.Map
use hotmint.Base.{
  ◌==◌, Bool-cases, if_cases, length, All, ℕ, ◌≡◌, sym, ap, ◌∙◌, ◌≢◌, inl, inr, some, List, [], ◌∷◌,
  map, arith,
}
use hotmint.Base.Bytes.{Bytes}
use hotmint.Base.Distinct.{NotIn, Distinct}
use hotmint.Base.Keys.{DistinctKeys, All-remove, DistinctKeys-insert, DistinctKeys-remove}
use hotmint.Base.Map.{All-insert, All-get, nat_eq, text_eq}
use hotmint.Consensus.VoteCollector.{vote_key_eq}
use hotmint.Staking.{ValidatorState}
use hotmint.Staking.Store.{
  StakingStore, get_validator, set_validator, remove_validator, stake_key_eq,
}
use hotmint.Types.Validator.{get}

abbrev pub pubkeys : List (ℕ × ValidatorState) → List Bytes
pubkeys = map λ kv. kv.1.public_key

abbrev pub Named : ℕ × ValidatorState → Type 0
Named kv = (kv.1.id ≡ kv.0) × (length kv.1.public_key ≡ 32)

pub record IsRegistered (s : StakingStore) : Type 0 where
  pub keyed : DistinctKeys s.validators
  pub named : All Named s.validators
  pub apart : Distinct (pubkeys s.validators)

pubkeys-insert :
    (id : ℕ) (v w : ValidatorState) (m : List (ℕ × ValidatorState))
    → Map.get id m ≡ some v
    → w.public_key ≡ v.public_key
    → pubkeys (Map.insert id w m) ≡ pubkeys m
unfolding Map.get Map.insert
pubkeys-insert id v w [] g same = absurd (cc)
pubkeys-insert id v w ((j, u) ∷ m) g same = elim (Bool-cases (j == id)) [
  | inl hit ↦ ground (arith, hit, g, same)
  | inr miss ↦ ground (arith, miss, g, pubkeys-insert id v w m)
]

pub get_validator-Named :
    (s : StakingStore) (id : ℕ) {v : ValidatorState}
    → IsRegistered s
    → get_validator s id ≡ some v
    → Named (id, v)
unfolding get_validator
get_validator-Named s id {v} r g = Map.All-get Named id v s.validators r.named g

-- A write of a known validator that leaves its id and key.
pub update_validator-IsRegistered :
    (s : StakingStore) (id : ℕ) (v w : ValidatorState)
    → IsRegistered s
    → get_validator s id ≡ some v
    → w.id ≡ v.id
    → w.public_key ≡ v.public_key
    → IsRegistered (set_validator s id w)
unfolding get_validator set_validator
update_validator-IsRegistered s id v w r known same_id same_key =
    let (name, sized) = get_validator-Named s id r known in
    record {
      keyed = DistinctKeys-insert id w s.validators r.keyed;
      named =
          Map.All-insert Named id w s.validators (same_id ∙ name, ap length same_key ∙ sized)
            r.named;
      apart = rw (pubkeys-insert id v w s.validators known same_key) r.apart;
    }

NotIn-pubkeys-remove :
    (key : Bytes) (id : ℕ) (m : List (ℕ × ValidatorState))
    → NotIn key (pubkeys m)
    → NotIn key (pubkeys (Map.remove id m))
unfolding Map.remove
NotIn-pubkeys-remove key id [] n = tt
NotIn-pubkeys-remove key id ((j, u) ∷ m) n =
    if_cases (λ l. NotIn key (pubkeys l)) (j == id) (λ _. NotIn-pubkeys-remove key id m n.1)
      (λ _. (n.0, NotIn-pubkeys-remove key id m n.1))

Distinct-pubkeys-remove :
    (id : ℕ) (m : List (ℕ × ValidatorState))
    → Distinct (pubkeys m)
    → Distinct (pubkeys (Map.remove id m))
unfolding Map.remove
Distinct-pubkeys-remove id [] d = tt
Distinct-pubkeys-remove id ((j, u) ∷ m) d =
    if_cases (λ l. Distinct (pubkeys l)) (j == id) (λ _. Distinct-pubkeys-remove id m d.1)
      (λ _. (NotIn-pubkeys-remove u.public_key id m d.0, Distinct-pubkeys-remove id m d.1))

pub remove_validator-IsRegistered :
    (s : StakingStore) (id : ℕ) → IsRegistered s → IsRegistered (remove_validator s id)
unfolding remove_validator
remove_validator-IsRegistered s id r = record {
  keyed = DistinctKeys-remove id s.validators r.keyed;
  named = All-remove Named id s.validators r.named;
  apart = Distinct-pubkeys-remove id s.validators r.apart;
}

-- Stakes and the unbonding queue are no part of it.
pub same_validators-IsRegistered :
    (s t : StakingStore) → t.validators ≡ s.validators → IsRegistered s → IsRegistered t
same_validators-IsRegistered s t same r = record {
  keyed = rw same r.keyed;
  named = rw same r.named;
  apart = rw same r.apart;
}

NotIn-pubkeys-insert :
    (key : Bytes) (id : ℕ) (w : ValidatorState) (m : List (ℕ × ValidatorState))
    → NotIn key (pubkeys m)
    → w.public_key ≢ key
    → NotIn key (pubkeys (Map.insert id w m))
unfolding Map.insert
NotIn-pubkeys-insert key id w [] n other = (other, tt)
NotIn-pubkeys-insert key id w ((j, u) ∷ m) n other =
    if_cases (λ l. NotIn key (pubkeys l)) (j == id) (λ _. (other, n.1))
      (λ _. (n.0, NotIn-pubkeys-insert key id w m n.1 other))

Distinct-pubkeys-insert :
    (id : ℕ) (w : ValidatorState) (m : List (ℕ × ValidatorState))
    → Distinct (pubkeys m)
    → NotIn w.public_key (pubkeys m)
    → Distinct (pubkeys (Map.insert id w m))
unfolding Map.insert
Distinct-pubkeys-insert id w [] d n = (tt, tt)
Distinct-pubkeys-insert id w ((j, u) ∷ m) d n =
    if_cases (λ l. Distinct (pubkeys l)) (j == id) (λ _. (n.1, d.1))
      (λ _. (
        NotIn-pubkeys-insert u.public_key id w m d.0 (λ e. n.0 (sym e)),
        Distinct-pubkeys-insert id w m d.1 n.1,
      ))

-- A new validator under a free key.
pub new_validator-IsRegistered :
    (s : StakingStore) (id : ℕ) (w : ValidatorState)
    → IsRegistered s
    → Named (id, w)
    → NotIn w.public_key (pubkeys s.validators)
    → IsRegistered (set_validator s id w)
unfolding set_validator
new_validator-IsRegistered s id w r n free = record {
  keyed = DistinctKeys-insert id w s.validators r.keyed;
  named = Map.All-insert Named id w s.validators n r.named;
  apart = Distinct-pubkeys-insert id w s.validators r.apart free;
}
