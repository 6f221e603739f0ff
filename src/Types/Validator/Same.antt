-- ===== src/Types/Validator/Same.antt =====
-- Member lists that hold the same member under every id: one is admissible when the other is.
use hotmint.Base.{
  ◌==◌, if◌then◌else◌, ==_iff, Bool-cases, if_cases, find, retain, All, ℕ, ◌+◌, ◌≡◌, refl, sym, ap,
  subst, ◌≢◌, inl, inr, Bool, not, none, some, List, [], ◌∷◌, arith,
}
use hotmint.Base.Bytes.{Bytes}
use hotmint.Base.Distinct.{NotIn, Distinct}
use hotmint.Base.Map.{nat_eq, text_eq}
use hotmint.Consensus.VoteCollector.{vote_key_eq}
use hotmint.Staking.Store.{stake_key_eq}
use hotmint.Types.Validator.{ValidatorInfo}
use hotmint.Types.Validator.Lookup.{has_id}
use hotmint.Types.Validator.Valid.{ids, keys, sum_power}

pub find_of_NotIn :
    (id : ℕ) (vs : List ValidatorInfo) → NotIn id (ids vs) → find (has_id id) vs ≡ none
find_of_NotIn id [] n = refl
find_of_NotIn id (v ∷ vs) n = ground (arith, find_of_NotIn id vs n.1, n.0)

pub NotIn-of_find :
    (id : ℕ) (vs : List ValidatorInfo) → find (has_id id) vs ≡ none → NotIn id (ids vs)
NotIn-of_find id [] h = tt
NotIn-of_find id (v ∷ vs) h = ((λ same. ground (arith, h)), NotIn-of_find id vs (ground (arith, h)))

pub id-find :
    (id : ℕ) (vs : List ValidatorInfo) (v : ValidatorInfo)
    → find (has_id id) vs ≡ some v
    → v.id ≡ id
id-find id [] v h = cc
id-find id (w ∷ vs) v h = ground (arith, id-find id vs v)

-- A property of what is found under every id is one of every member, and the reverse.
pub All-of_find {ℓ} :
    (P : ValidatorInfo → Type ℓ) (vs : List ValidatorInfo)
    → Distinct (ids vs)
    → ((id : ℕ) (v : ValidatorInfo) → find (has_id id) vs ≡ some v → P v)
    → All P vs
All-of_find P [] d h = tt
All-of_find P (v ∷ vs) d h = (
  h v.id v (ground arith),
  All-of_find P vs d.1 (λ id w found. h id w (ground (arith, found, other id w found))),
)
  where
    other : (id : ℕ) (w : ValidatorInfo) → find (has_id id) vs ≡ some w → v.id ≢ id
    other id w found same =
        ground (arith, find_of_NotIn v.id vs d.0, found, same, ap (λ i. find (has_id i) vs) same)

pub All-find {ℓ} :
    (P : ValidatorInfo → Type ℓ) (vs : List ValidatorInfo) (id : ℕ) (v : ValidatorInfo)
    → All P vs
    → find (has_id id) vs ≡ some v
    → P v
All-find P [] id v h found = absurd (cc)
All-find P (w ∷ vs) id v h found = elim (Bool-cases (w.id == id)) [
  | inl hit ↦ subst P (ground (arith, found, hit)) h.0
  | inr miss ↦ All-find P vs id v h.1 (ground (arith, found, miss))
]

pub find-retain :
    (id gone : ℕ) (vs : List ValidatorInfo)
    → find (has_id id) (retain (λ v. not (v.id == gone)) vs)
      ≡ (if gone == id then none else find (has_id id) vs)
find-retain id gone [] = ground arith
find-retain id gone (v ∷ vs) = ground (arith, find-retain id gone vs)

-- Different ids have different keys.
abbrev pub KeysApart : List ValidatorInfo → Type 0
KeysApart vs =
    (i j : ℕ) (v w : ValidatorInfo)
    → find (has_id i) vs ≡ some v
    → find (has_id j) vs ≡ some w
    → v.public_key ≡ w.public_key
    → i ≡ j

abbrev KeyNot : Bytes → ValidatorInfo → Type 0
KeyNot key v = v.public_key ≢ key

NotIn-keys : (key : Bytes) (vs : List ValidatorInfo) → NotIn key (keys vs) → All (KeyNot key) vs
NotIn-keys key [] n = tt
NotIn-keys key (v ∷ vs) n = (n.0, NotIn-keys key vs n.1)

NotIn-of_keys : (key : Bytes) (vs : List ValidatorInfo) → All (KeyNot key) vs → NotIn key (keys vs)
NotIn-of_keys key [] n = tt
NotIn-of_keys key (v ∷ vs) n = (n.0, NotIn-of_keys key vs n.1)

pub Distinct-KeysApart : (vs : List ValidatorInfo) → Distinct (keys vs) → KeysApart vs
Distinct-KeysApart [] d i j v w fi fj same = absurd (cc)
Distinct-KeysApart (u ∷ vs) d i j v w fi fj same =
    let fresh = NotIn-keys u.public_key vs d.0 in
    elim (Bool-cases (u.id == i)) [
      | inl hi ↦ elim (Bool-cases (u.id == j)) [
        | inl hj ↦ ground arith
        | inr mj ↦
            absurd (All-find (KeyNot u.public_key) vs j w fresh (ground arith) (ground arith))
      ]
      | inr mi ↦ elim (Bool-cases (u.id == j)) [
        | inl hj ↦
            absurd (All-find (KeyNot u.public_key) vs i v fresh (ground arith) (ground arith))
        | inr mj ↦ Distinct-KeysApart vs d.1 i j v w (ground arith) (ground arith) same
      ]
    ]

pub KeysApart-Distinct :
    (vs : List ValidatorInfo) → Distinct (ids vs) → KeysApart vs → Distinct (keys vs)
KeysApart-Distinct [] d k = tt
KeysApart-Distinct (u ∷ vs) d k = (
  NotIn-of_keys u.public_key vs (All-of_find (KeyNot u.public_key) vs d.1 other),
  KeysApart-Distinct vs d.1 (λ i j v w fi fj same. k i j v w (later i v fi) (later j w fj) same),
)
  where
    apart : (i : ℕ) (v : ValidatorInfo) → find (has_id i) vs ≡ some v → u.id ≢ i
    apart i v found same =
        ground (arith, find_of_NotIn u.id vs d.0, found, ap (λ n. find (has_id n) vs) same)

    later :
        (i : ℕ) (v : ValidatorInfo)
        → find (has_id i) vs ≡ some v
        → find (has_id i) (u ∷ vs) ≡ some v
    later i v found = ground (arith, found, apart i v found)

    other : (i : ℕ) (v : ValidatorInfo) → find (has_id i) vs ≡ some v → KeyNot u.public_key v
    other i v found same =
        apart i v found (k u.id i u v (ground arith) (later i v found) (sym same))

-- Taking out the member found takes out its power.
pub sum_power-retain :
    (id : ℕ) (vs : List ValidatorInfo)
    → Distinct (ids vs)
    → sum_power (retain (λ v. not (v.id == id)) vs)
        + elim (find (has_id id) vs) [ none ↦ 0 | some v ↦ v.power ]
      ≡ sum_power vs
sum_power-retain id [] d = refl
sum_power-retain id (v ∷ vs) d = elim (Bool-cases (v.id == id)) [
  | inl hit ↦
      let gone : find (has_id id) vs ≡ none =
        rw⁻¹ ((==_iff v.id id).0 hit) (find_of_NotIn v.id vs d.0) in
      ground (arith, hit, gone, sum_power-retain id vs d.1)
  | inr miss ↦ ground (arith, miss, sum_power-retain id vs d.1)
]

ids-retain :
    (p : ValidatorInfo → Bool) (x : ℕ) (vs : List ValidatorInfo)
    → NotIn x (ids vs)
    → NotIn x (ids (retain p vs))
ids-retain p x [] n = tt
ids-retain p x (v ∷ vs) n =
    if_cases (λ ws. NotIn x (ids ws)) (p v) (λ _. (n.0, ids-retain p x vs n.1))
      (λ _. ids-retain p x vs n.1)

pub Distinct-retain :
    (p : ValidatorInfo → Bool) (vs : List ValidatorInfo)
    → Distinct (ids vs)
    → Distinct (ids (retain p vs))
Distinct-retain p [] d = tt
Distinct-retain p (v ∷ vs) d =
    if_cases (λ ws. Distinct (ids ws)) (p v)
      (λ _. (ids-retain p v.id vs d.0, Distinct-retain p vs d.1)) (λ _. Distinct-retain p vs d.1)
