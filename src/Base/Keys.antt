-- ===== src/Base/Keys.antt =====
-- Association lists without repeated keys: what writes keep, and sums over the entries.
use Prim.Native.Nat.{ℕ, ◌+◌}
use mathlib.Core.Path.{◌≡◌, refl, sym, ap, ◌∙◌}
use mathlib.Core.Logic.{◌≢◌, inl, inr}
use mathlib.Core.Bool.{Bool}
use mathlib.Core.Option.{Option, none, some}
use mathlib.Core.List.{List, [], ◌∷◌}
use native.Mathlib.Omega.{arith}
use hotmint.Base.Tests.{Bool-cases, if_cases}
use hotmint.Base.Lists.{All, All-imp}
use hotmint.Base.Map
use hotmint.Base.Sort.{insert_sorted, sort, All-insert_sorted, All-sort}
use hotmint.Base.Map.{Eq, All-insert, All-retain_keys}

module _ {ℓ κ} {K : Type ℓ} {V : Type κ} where
  abbrev pub Lacks : K → List (K × V) → Type ℓ
  Lacks k = All (λ kv. kv.0 ≢ k)

  abbrev pub DistinctKeys : List (K × V) → Type ℓ
  DistinctKeys [] = Unit
  DistinctKeys ((k, v) ∷ m) = Lacks k m × DistinctKeys m

  -- The sum of a quantity of the entries.
  abbrev pub weight : (K → V → ℕ) → List (K × V) → ℕ
  weight f [] = 0
  weight f ((k, v) ∷ m) = f k v + weight f m

  abbrev pub weight_at : (K → V → ℕ) → K → Option V → ℕ
  weight_at f k none = 0
  weight_at f k (some v) = f k v

module _ {ℓ κ} {K : Type ℓ} {V : Type κ} ⦃e : Eq K⦄ where
  pub get_of_Lacks : (k : K) (m : List (K × V)) → Lacks k m → Map.get k m ≡ none
  unfolding Map.get
  get_of_Lacks k [] h = refl
  get_of_Lacks k ((j, w) ∷ m) h = ground (arith, e.beq_iff j k, h.0, get_of_Lacks k m h.1)

  pub Lacks-of_get : (k : K) (m : List (K × V)) → Map.get k m ≡ none → Lacks k m
  unfolding Map.get
  Lacks-of_get k [] h = tt
  Lacks-of_get k ((j, w) ∷ m) h = elim (Bool-cases (e.beq j k)) [
    | inl hit ↦ absurd (ground arith)
    | inr miss ↦ ((λ p. ground (arith, e.beq_iff j k)), Lacks-of_get k m (ground arith))
  ]

  -- What is found in a list is found under a further key, which the list lacks.
  pub get-cons_of_Lacks :
      (k j : K) (v w : V) (m : List (K × V))
      → Lacks k m
      → Map.get j m ≡ some w
      → Map.get j ((k, v) ∷ m) ≡ some w
  unfolding Map.get
  get-cons_of_Lacks k j v w m n h = elim (Bool-cases (e.beq k j)) [
    | inl hit ↦
        let same : k ≡ j = (e.beq_iff k j).0 hit in
        absurd (ground (arith, get_of_Lacks k m n, h, ap (λ i. Map.get i m) same))
    | inr miss ↦ rw miss h
  ]

  pub get-cons_self : (k : K) (v : V) (m : List (K × V)) → Map.get k ((k, v) ∷ m) ≡ some v
  unfolding Map.get
  get-cons_self k v m = rw ((e.beq_iff k k).1 refl) refl

  pub each_get : (m : List (K × V)) → DistinctKeys m → All (λ kv. Map.get kv.0 m ≡ some kv.1) m
  each_get [] d = tt
  each_get ((k, v) ∷ m) d = (
    get-cons_self k v m,
    All-imp (λ kv. Map.get kv.0 m ≡ some kv.1) (λ kv. Map.get kv.0 ((k, v) ∷ m) ≡ some kv.1) m
        (λ kv h. get-cons_of_Lacks k kv.0 v kv.1 m d.0 h) (each_get m d.1),
  )

  remove_of_Lacks : (k : K) (m : List (K × V)) → Lacks k m → Map.remove k m ≡ m
  unfolding Map.remove
  remove_of_Lacks k [] h = refl
  remove_of_Lacks k ((j, w) ∷ m) h = ground (arith, e.beq_iff j k, h.0, remove_of_Lacks k m h.1)

  pub All-remove {μ} :
      (P : K × V → Type μ) (k : K) (m : List (K × V)) → All P m → All P (Map.remove k m)
  unfolding Map.remove
  All-remove P k [] h = tt
  All-remove P k ((j, w) ∷ m) h = elim (Bool-cases (e.beq j k)) [
    | inl hit ↦ rw hit (All-remove P k m h.1)
    | inr miss ↦ rw miss (h.0, All-remove P k m h.1)
  ]

  pub DistinctKeys-insert :
      (k : K) (v : V) (m : List (K × V)) → DistinctKeys m → DistinctKeys (Map.insert k v m)
  unfolding Map.insert
  DistinctKeys-insert k v [] d = (tt, tt)
  DistinctKeys-insert k v ((j, w) ∷ m) d = elim (Bool-cases (e.beq j k)) [
    | inl hit ↦ rw (hit, ← (e.beq_iff j k).0 hit) d
    | inr miss ↦ rw miss (
      All-insert (λ kv. kv.0 ≢ j) k v m (λ p. ground (arith, e.beq_iff j k)) d.0,
      DistinctKeys-insert k v m d.1,
    )
  ]

  pub DistinctKeys-remove :
      (k : K) (m : List (K × V)) → DistinctKeys m → DistinctKeys (Map.remove k m)
  unfolding Map.remove
  DistinctKeys-remove k [] d = tt
  DistinctKeys-remove k ((j, w) ∷ m) d = elim (Bool-cases (e.beq j k)) [
    | inl hit ↦ rw hit (DistinctKeys-remove k m d.1)
    | inr miss ↦ rw miss (All-remove (λ kv. kv.0 ≢ j) k m d.0, DistinctKeys-remove k m d.1)
  ]

  -- A write moves the sum by the difference of the new and the old value of its key.
  pub weight-insert :
      (f : K → V → ℕ) (k : K) (v : V) (m : List (K × V))
      → weight f (Map.insert k v m) + weight_at f k (Map.get k m) ≡ weight f m + f k v
  unfolding Map.insert Map.get
  weight-insert f k v [] = omega arith
  weight-insert f k v ((j, w) ∷ m) = elim (Bool-cases (e.beq j k)) [
    | inl hit ↦ rw (hit, (e.beq_iff j k).0 hit) (omega arith)
    | inr miss ↦ rw miss (omega (arith, weight-insert f k v m))
  ]

  pub weight-remove :
      (f : K → V → ℕ) (k : K) (m : List (K × V))
      → DistinctKeys m
      → weight f (Map.remove k m) + weight_at f k (Map.get k m) ≡ weight f m
  unfolding Map.remove Map.get
  weight-remove f k [] d = omega arith
  weight-remove f k ((j, w) ∷ m) d = elim (Bool-cases (e.beq j k)) [
    | inl hit ↦
        let key = (e.beq_iff j k).0 hit in
        rw (hit, remove_of_Lacks k m (rw (← key) d.0), key) (omega arith)
    | inr miss ↦ rw miss (omega (arith, weight-remove f k m d.1))
  ]

module _ {ℓ κ} {K : Type ℓ} {V : Type κ} (le : K × V → K × V → Bool) where
  DistinctKeys-insert_sorted :
      (k : K) (v : V) (m : List (K × V))
      → Lacks k m
      → DistinctKeys m
      → DistinctKeys (insert_sorted le (k, v) m)
  unfolding insert_sorted
  DistinctKeys-insert_sorted k v [] n d = (tt, tt)
  DistinctKeys-insert_sorted k v ((j, w) ∷ m) n d = elim (Bool-cases (le (k, v) (j, w))) [
    | inl e ↦ rw e (n, d)
    | inr e ↦ rw e (
      All-insert_sorted (λ kv. kv.0 ≢ j) le (k, v) m (λ p. n.0 (sym p)) d.0,
      DistinctKeys-insert_sorted k v m n.1 d.1,
    )
  ]

  pub DistinctKeys-sort : (m : List (K × V)) → DistinctKeys m → DistinctKeys (sort le m)
  unfolding sort
  DistinctKeys-sort [] d = tt
  DistinctKeys-sort ((k, v) ∷ m) d =
      DistinctKeys-insert_sorted k v (sort le m) (All-sort (λ kv. kv.0 ≢ k) le m d.0)
        (DistinctKeys-sort m d.1)

-- Sorting and filtering by key leave what is found under a key.
module _ {ℓ κ} {K : Type ℓ} {V : Type κ} ⦃e : Eq K⦄ (le : K × V → K × V → Bool) where
  get-insert_sorted :
      (k j : K) (v : V) (m : List (K × V))
      → Lacks j m
      → Map.get k (insert_sorted le (j, v) m) ≡ Map.get k ((j, v) ∷ m)
  unfolding insert_sorted Map.get
  get-insert_sorted k j v [] n = refl
  get-insert_sorted k j v ((i, w) ∷ m) n =
      ground (arith, n.0, e.beq_iff i k, e.beq_iff j k, get-insert_sorted k j v m n.1)

  pub get-sort : (k : K) (m : List (K × V)) → DistinctKeys m → Map.get k (sort le m) ≡ Map.get k m
  unfolding sort Map.get
  get-sort k [] d = refl
  get-sort k ((j, v) ∷ m) d =
      get-insert_sorted k j v (sort le m) (All-sort (λ kv. kv.0 ≢ j) le m d.0)
      ∙ ground (arith, get-sort k m d.1)

pub DistinctKeys-retain_keys {ℓ κ} :
    {K : Type ℓ} {V : Type κ} ⦃e : Eq K⦄ (p : K → Bool) (m : List (K × V))
    → DistinctKeys m
    → DistinctKeys (Map.retain_keys p m)
unfolding Map.retain_keys
DistinctKeys-retain_keys p [] d = tt
DistinctKeys-retain_keys p ((j, w) ∷ m) d =
    if_cases DistinctKeys (p j)
      (λ _. (All-retain_keys (λ kv. kv.0 ≢ j) p m d.0, DistinctKeys-retain_keys p m d.1))
      (λ _. DistinctKeys-retain_keys p m d.1)
