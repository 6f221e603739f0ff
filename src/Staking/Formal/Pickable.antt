-- ===== src/Staking/Formal/Pickable.antt =====
-- What a list picked from the registry has, as members of a validator set.
use hotmint.Base.{
  ltb, Bool-cases, length, All, All-retain_of, u64_limit, ℕ, ◌+◌, ◌<◌, ◌≡◌, ◌≢◌, inl, inr, some,
  List, [], ◌∷◌, map, arith,
}
use hotmint.Base.Bytes.{Bytes}
use hotmint.Base.Distinct.{NotIn, Distinct}
use hotmint.Base.Keys.{Lacks, DistinctKeys}
use hotmint.Base.Map.{nat_eq, text_eq}
use hotmint.Base.Sort.{DistinctBy, DistinctBy-retain, DistinctBy-sort, DistinctBy-take}
use hotmint.Consensus.VoteCollector.{vote_key_eq}
use hotmint.Staking.{ValidatorState, voting_power}
use hotmint.Staking.Formal.{by_power, is_active, formal_validator_list, sum_powers}
use hotmint.Staking.Formal.Listing.{All-formal}
use hotmint.Staking.Formal.Updates.{member_of, members_of}
use hotmint.Staking.Manager.{StakingManager, states}
use hotmint.Staking.Registered.{pubkeys, Named, IsRegistered}
use hotmint.Staking.Registered.Operations.{states-map}
use hotmint.Staking.Store.{stake_key_eq}
use hotmint.Types.Validator.Valid.{ids, keys, sum_power, KeySized}

pub sum_powers_sound :
    (acc t : ℕ) (vs : List ValidatorState)
    → acc < u64_limit
    → sum_powers acc vs ≡ some t
    → acc + sum_power (members_of vs) < u64_limit
unfolding sum_powers member_of
sum_powers_sound acc t [] b h = omega arith
sum_powers_sound acc t (v ∷ vs) b h = elim (Bool-cases (ltb (acc + voting_power v) u64_limit)) [
  | inl fits ↦ ground (arith, fits, sum_powers_sound (acc + voting_power v) t vs)
  | inr over ↦ absurd (ground (arith, over))
]

ids_of : (x : ℕ) (vs : List ValidatorState) → All (λ y. y.id ≢ x) vs → NotIn x (ids (members_of vs))
unfolding member_of
ids_of x [] n = tt
ids_of x (v ∷ vs) n = (n.0, ids_of x vs n.1)

pub Distinct-ids :
    (vs : List ValidatorState) → DistinctBy (λ v. v.id) vs → Distinct (ids (members_of vs))
unfolding member_of
Distinct-ids [] d = tt
Distinct-ids (v ∷ vs) d = (ids_of v.id vs d.0, Distinct-ids vs d.1)

keys_of :
    (x : Bytes) (vs : List ValidatorState)
    → All (λ y. y.public_key ≢ x) vs
    → NotIn x (keys (members_of vs))
unfolding member_of
keys_of x [] n = tt
keys_of x (v ∷ vs) n = (n.0, keys_of x vs n.1)

pub Distinct-keys :
    (vs : List ValidatorState) → DistinctBy (λ v. v.public_key) vs → Distinct (keys (members_of vs))
unfolding member_of
Distinct-keys [] d = tt
Distinct-keys (v ∷ vs) d = (keys_of v.public_key vs d.0, Distinct-keys vs d.1)

pub KeySized-members_of :
    (vs : List ValidatorState)
    → All (λ v. length v.public_key ≡ 32) vs
    → All KeySized (members_of vs)
unfolding member_of
KeySized-members_of [] h = tt
KeySized-members_of (v ∷ vs) h = (h.0, KeySized-members_of vs h.1)

-- A list that the registry's states can give.
pub record IsPickable (vs : List ValidatorState) : Type 0 where
  pub unique : DistinctBy (λ v. v.id) vs
  pub own_key : DistinctBy (λ v. v.public_key) vs
  pub sized : All (λ v. length v.public_key ≡ 32) vs

entries-IsPickable :
    (m : List (ℕ × ValidatorState))
    → DistinctKeys m
    → All Named m
    → Distinct (pubkeys m)
    → IsPickable (map (λ kv. kv.1) m)
entries-IsPickable [] d n a = record { unique = tt; own_key = tt; sized = tt }
entries-IsPickable ((k, v) ∷ m) d n a =
    let rest = entries-IsPickable m d.1 n.1 a.1 in
    record {
      unique = (others m d.0 n.1, rest.unique);
      own_key = (other_keys m a.0, rest.own_key);
      sized = (n.0.1, rest.sized);
    }
  where
    others :
        (l : List (ℕ × ValidatorState))
        → Lacks k l
        → All Named l
        → All (λ y. y.id ≢ v.id) (map (λ kv. kv.1) l)
    others [] f g = tt
    others ((j, w) ∷ l) f g = ((λ e. ground (arith, f.0, g.0.0, n.0.0)), others l f.1 g.1)

    other_keys :
        (l : List (ℕ × ValidatorState))
        → NotIn v.public_key (pubkeys l)
        → All (λ y. y.public_key ≢ v.public_key) (map (λ kv. kv.1) l)
    other_keys [] f = tt
    other_keys ((j, w) ∷ l) f = (f.0, other_keys l f.1)

pub formal-IsPickable :
    (m : StakingManager) → IsRegistered m.store → IsPickable (formal_validator_list m)
unfolding formal_validator_list
formal-IsPickable m r = record {
  unique = picked (λ v. v.id) all.unique;
  own_key = picked (λ v. v.public_key) all.own_key;
  sized =
      All-formal m (λ v. length v.public_key ≡ 32)
        (All-retain_of (λ v. length v.public_key ≡ 32) (is_active m.config) (states m.store)
          all.sized);
}
  where
    all : IsPickable (states m.store)
    all =
        rw (states-map m.store r.keyed)
          (entries-IsPickable m.store.validators r.keyed r.named r.apart)

    picked :
        {B : Type 0} (f : ValidatorState → B)
        → DistinctBy f (states m.store)
        → DistinctBy f (formal_validator_list m)
    picked f d =
        DistinctBy-take f m.config.max_validators _ (
          DistinctBy-sort f by_power _
            (DistinctBy-retain f (is_active m.config) (states m.store) d))
