-- ===== src/Base/Map.antt =====
-- `HashMap` and `BTreeMap` as association lists over a key type with a Boolean equality.
use Prim.Native.Nat.{ℕ}
use mathlib.Core.Path.{◌≡◌, refl, ap, ap₂, subst}
use mathlib.Core.Logic.{◌↔◌, inl, inr}
use mathlib.Core.Bool.{Bool, true}
use mathlib.Core.Option.{Option, none, some}
use mathlib.Core.List.{List, [], ◌∷◌}
use native.Mathlib.Omega.{arith}
use hotmint.Base.Tests.{◌==◌, ==_iff, if◌then◌else◌, Bool-cases}
use hotmint.Base.Lists.{All}
use hotmint.Base.Bytes.{Bytes, bytes_eq, bytes_eq_iff}

pub record Eq {ℓ} (A : Type ℓ) : Type ℓ where
  pub beq : A → A → Bool
  pub beq_iff : (a b : A) → (beq a b ≡ true) ↔ (a ≡ b)

instance abbrev pub nat_eq : Eq ℕ
nat_eq = record { beq = ◌==◌; beq_iff = ==_iff }

instance abbrev pub text_eq : Eq Bytes
text_eq = record { beq = bytes_eq; beq_iff = bytes_eq_iff }

module _ {ℓ κ} {K : Type ℓ} {V : Type κ} ⦃e : Eq K⦄ where
  unfoldable pub get : K → List (K × V) → Option V
  get k [] = none
  get k ((j, v) ∷ m) = if e.beq j k then some v else get k m

  -- The new value takes the place of the old one; a new key goes to the end.
  unfoldable pub insert : K → V → List (K × V) → List (K × V)
  insert k v [] = (k, v) ∷ []
  insert k v ((j, w) ∷ m) = if e.beq j k then (k, v) ∷ m else (j, w) ∷ insert k v m

  unfoldable pub remove : K → List (K × V) → List (K × V)
  remove k [] = []
  remove k ((j, w) ∷ m) = if e.beq j k then remove k m else (j, w) ∷ remove k m

  pub get-insert :
      (k j : K) (v : V) (m : List (K × V))
      → get j (insert k v m) ≡ (if e.beq k j then some v else get j m)
  unfolding get insert
  get-insert k j v [] = refl
  get-insert k j v ((i, w) ∷ m) =
      ground (arith, e.beq_iff k j, e.beq_iff i k, e.beq_iff i j, get-insert k j v m)

  pub get-remove :
      (k j : K) (m : List (K × V)) → get j (remove k m) ≡ (if e.beq k j then none else get j m)
  unfolding get remove
  get-remove k j [] = ground arith
  get-remove k j ((i, w) ∷ m) =
      ground (arith, e.beq_iff k j, e.beq_iff i k, e.beq_iff i j, get-remove k j m)

-- A property of every entry is kept by a write of an entry that has it, and holds of a value found.
module _ {ℓ κ μ} {K : Type ℓ} {V : Type κ} ⦃e : Eq K⦄ (P : K × V → Type μ) where
  pub All-insert : (k : K) (v : V) (m : List (K × V)) → P (k, v) → All P m → All P (insert k v m)
  unfolding insert
  All-insert k v [] p h = (p, tt)
  All-insert k v ((j, w) ∷ m) p h = elim (Bool-cases (e.beq j k)) [
    | inl hit ↦ rw hit (p, h.1)
    | inr miss ↦ rw miss (h.0, All-insert k v m p h.1)
  ]

  pub All-get : (k : K) (v : V) (m : List (K × V)) → All P m → get k m ≡ some v → P (k, v)
  unfolding get
  All-get k v [] h g = absurd (cc)
  All-get k v ((j, w) ∷ m) h g = elim (Bool-cases (e.beq j k)) [
    | inl hit ↦
        let value : w ≡ v = cc (rw (hit, get) at g) in
        let key : j ≡ k = (e.beq_iff j k).0 hit in subst P (ap₂ (λ a b. (a, b)) key value) h.0
    | inr miss ↦ All-get k v m h.1 (rw (miss, get) at g)
  ]

-- A filter of the entries by their keys.
module _ {ℓ κ} {K : Type ℓ} {V : Type κ} ⦃e : Eq K⦄ where
  unfoldable pub retain_keys : (K → Bool) → List (K × V) → List (K × V)
  retain_keys p [] = []
  retain_keys p ((j, w) ∷ m) = if p j then (j, w) ∷ retain_keys p m else retain_keys p m

  pub get-retain_keys :
      (p : K → Bool) (k : K) (m : List (K × V))
      → get k (retain_keys p m) ≡ (if p k then get k m else none)
  unfolding get retain_keys
  get-retain_keys p k [] = ground arith
  get-retain_keys p k ((j, w) ∷ m) = elim (Bool-cases (e.beq j k)) [
    | inl hit ↦ ground (arith, hit, get-retain_keys p k m, ap p ((e.beq_iff j k).0 hit))
    | inr miss ↦ ground (arith, miss, get-retain_keys p k m)
  ]

pub All-retain_keys {ℓ κ μ} :
    {K : Type ℓ} {V : Type κ} (P : K × V → Type μ) (p : K → Bool) ⦃e : Eq K⦄ (m : List (K × V))
    → All P m
    → All P (retain_keys p m)
unfolding retain_keys
All-retain_keys P p [] h = tt
All-retain_keys P p ((j, w) ∷ m) h = elim (Bool-cases (p j)) [
  | inl keep ↦ rw keep (h.0, All-retain_keys P p m h.1)
  | inr drop ↦ rw drop (All-retain_keys P p m h.1)
]
