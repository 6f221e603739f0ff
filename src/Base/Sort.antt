-- ===== src/Base/Sort.antt =====
-- `sort_by` and `sort_by_key` of slices: a stable insertion sort, and what it keeps.
use Prim.Native.Nat.{ℕ, zero, suc, ◌+◌}
use mathlib.Core.Path.{◌≡◌, refl, sym, ap}
use mathlib.Core.Logic.{inl, inr, ◌≢◌, ◌⊎◌}
use mathlib.Core.Bool.{Bool, true, false, not, ◌||◌}
use mathlib.Core.List.{List, [], ◌∷◌}
use native.Mathlib.Omega.{arith}
use hotmint.Base.Tests.{if_cases, if◌then◌else◌, Bool-cases}
use hotmint.Base.Lists.{any, take, length, All-take, All-retain_of, All-imp, retain, All}

module _ {ℓ} {A : Type ℓ} where
  unfoldable pub insert_sorted : (A → A → Bool) → A → List A → List A
  insert_sorted le x [] = x ∷ []
  insert_sorted le x (y ∷ ys) = if le x y then x ∷ y ∷ ys else y ∷ insert_sorted le x ys

  unfoldable pub sort : (A → A → Bool) → List A → List A
  sort le [] = []
  sort le (x ∷ xs) = insert_sorted le x (sort le xs)

  abbrev pub sum : (A → ℕ) → List A → ℕ
  sum f [] = 0
  sum f (x ∷ xs) = f x + sum f xs

  sum-insert_sorted :
      (le : A → A → Bool) (f : A → ℕ) (x : A) (ys : List A)
      → sum f (insert_sorted le x ys) ≡ f x + sum f ys
  unfolding insert_sorted
  sum-insert_sorted le f x [] = refl
  sum-insert_sorted le f x (y ∷ ys) = ground (arith, sum-insert_sorted le f x ys)

  pub sum-sort : (le : A → A → Bool) (f : A → ℕ) (xs : List A) → sum f (sort le xs) ≡ sum f xs
  unfolding sort
  sum-sort le f [] = refl
  sum-sort le f (x ∷ xs) = omega (arith, sum-insert_sorted le f x (sort le xs), sum-sort le f xs)

  any-insert_sorted :
      (le : A → A → Bool) (p : A → Bool) (x : A) (ys : List A)
      → any p (insert_sorted le x ys) ≡ (p x || any p ys)
  unfolding insert_sorted
  any-insert_sorted le p x [] = refl
  any-insert_sorted le p x (y ∷ ys) = ground (arith, any-insert_sorted le p x ys)

  pub any-sort : (le : A → A → Bool) (p : A → Bool) (xs : List A) → any p (sort le xs) ≡ any p xs
  unfolding sort
  any-sort le p [] = refl
  any-sort le p (x ∷ xs) = ground (arith, any-insert_sorted le p x (sort le xs), any-sort le p xs)

  -- A filter and the filter of the others share a sum out.
  pub sum-retain :
      (f : A → ℕ) (p : A → Bool) (xs : List A)
      → sum f (retain p xs) + sum f (retain (λ x. not (p x)) xs) ≡ sum f xs
  sum-retain f p [] = refl
  sum-retain f p (x ∷ xs) = ground (arith, sum-retain f p xs)

  -- Every entry above it in the list is related to it.
  abbrev pub IsSorted : (A → A → Bool) → List A → Type ℓ
  IsSorted le [] = Unit
  IsSorted le (x ∷ xs) = All (λ y. le x y ≡ true) xs × IsSorted le xs

module _ {ℓ κ} {A : Type ℓ} (P : A → Type κ) (le : A → A → Bool) where
  pub All-insert_sorted : (x : A) (ys : List A) → P x → All P ys → All P (insert_sorted le x ys)
  unfolding insert_sorted
  All-insert_sorted x [] p h = (p, tt)
  All-insert_sorted x (y ∷ ys) p h = elim (Bool-cases (le x y)) [
    | inl e ↦ rw e (p, h)
    | inr e ↦ rw e (h.0, All-insert_sorted x ys p h.1)
  ]

  pub All-sort : (xs : List A) → All P xs → All P (sort le xs)
  unfolding sort
  All-sort [] h = tt
  All-sort (x ∷ xs) h = All-insert_sorted x (sort le xs) h.0 (All-sort xs h.1)

  All-of_insert_sorted : (x : A) (ys : List A) → All P (insert_sorted le x ys) → P x × All P ys
  unfolding insert_sorted
  All-of_insert_sorted x [] h = h
  All-of_insert_sorted x (y ∷ ys) h = elim (Bool-cases (le x y)) [
    | inl e ↦ (rw e at h)
    | inr e ↦
        let kept : P y × All P (insert_sorted le x ys) = rw e at h in
        let rest = All-of_insert_sorted x ys kept.1 in (rest.0, (kept.0, rest.1))
  ]

  pub All-of_sort : (xs : List A) → All P (sort le xs) → All P xs
  unfolding sort
  All-of_sort [] h = tt
  All-of_sort (x ∷ xs) h =
      let parts = All-of_insert_sorted x (sort le xs) h in (parts.0, All-of_sort xs parts.1)

-- `f` takes each value once on the list.
abbrev pub DistinctBy {ℓ κ} : {A : Type ℓ} {B : Type κ} → (A → B) → List A → Type κ
DistinctBy f [] = Unit
DistinctBy f (x ∷ xs) = All (λ y. f y ≢ f x) xs × DistinctBy f xs

module _ {ℓ κ} {A : Type ℓ} {B : Type κ} (f : A → B) where
  pub DistinctBy-retain :
      (p : A → Bool) (xs : List A) → DistinctBy f xs → DistinctBy f (retain p xs)
  DistinctBy-retain p [] d = tt
  DistinctBy-retain p (x ∷ xs) d =
      if_cases (DistinctBy f) (p x)
        (λ _. (All-retain_of (λ y. f y ≢ f x) p xs d.0, DistinctBy-retain p xs d.1))
        (λ _. DistinctBy-retain p xs d.1)

  DistinctBy-insert_sorted :
      (le : A → A → Bool) (x : A) (ys : List A)
      → All (λ y. f y ≢ f x) ys
      → DistinctBy f ys
      → DistinctBy f (insert_sorted le x ys)
  unfolding insert_sorted
  DistinctBy-insert_sorted le x [] n d = (tt, tt)
  DistinctBy-insert_sorted le x (y ∷ ys) n d =
      if_cases (DistinctBy f) (le x y) (λ _. (n, d))
        (λ _. (
          All-insert_sorted (λ z. f z ≢ f y) le x ys (λ e. n.0 (sym e)) d.0,
          DistinctBy-insert_sorted le x ys n.1 d.1,
        ))

  pub DistinctBy-sort :
      (le : A → A → Bool) (xs : List A) → DistinctBy f xs → DistinctBy f (sort le xs)
  unfolding sort
  DistinctBy-sort le [] d = tt
  DistinctBy-sort le (x ∷ xs) d =
      DistinctBy-insert_sorted le x (sort le xs) (All-sort (λ y. f y ≢ f x) le xs d.0)
        (DistinctBy-sort le xs d.1)

  pub DistinctBy-take : (n : ℕ) (xs : List A) → DistinctBy f xs → DistinctBy f (take n xs)
  DistinctBy-take zero xs d = tt
  DistinctBy-take (suc n) [] d = tt
  DistinctBy-take (suc n) (x ∷ xs) d =
      (All-take (λ y. f y ≢ f x) n xs d.0, DistinctBy-take n xs d.1)

-- The result of sorting by a total and transitive test is sorted.
module _ {ℓ} {A : Type ℓ} (le : A → A → Bool) (total : (x y : A) → le x y ≡ false → le y x ≡ true)
    (trans : (x y z : A) → le x y ≡ true → le y z ≡ true → le x z ≡ true) where
  insert_sorted-IsSorted :
      (x : A) (ys : List A) → IsSorted le ys → IsSorted le (insert_sorted le x ys)
  unfolding insert_sorted
  insert_sorted-IsSorted x [] s = (tt, tt)
  insert_sorted-IsSorted x (y ∷ ys) s = elim (Bool-cases (le x y)) [
    | inl before ↦ rw before (
      (
        before,
        All-imp (λ z. le y z ≡ true) (λ z. le x z ≡ true) ys (λ z h. trans x y z before h) s.0,
      ),
      s,
    )
    | inr after ↦ rw after (
      All-insert_sorted (λ z. le y z ≡ true) le x ys (total x y after) s.0,
      insert_sorted-IsSorted x ys s.1,
    )
  ]

  pub sort-IsSorted : (xs : List A) → IsSorted le (sort le xs)
  unfolding sort
  sort-IsSorted [] = tt
  sort-IsSorted (x ∷ xs) = insert_sorted-IsSorted x (sort le xs) (sort-IsSorted xs)

pub take-IsSorted {ℓ} :
    {A : Type ℓ} (le : A → A → Bool) (n : ℕ) (xs : List A)
    → IsSorted le xs
    → IsSorted le (take n xs)
take-IsSorted le zero xs s = tt
take-IsSorted le (suc n) [] s = tt
take-IsSorted le (suc n) (x ∷ xs) s =
    (All-take (λ y. le x y ≡ true) n xs s.0, take-IsSorted le n xs s.1)

module _ {ℓ} {A : Type ℓ} (le inside : A → A → Bool) where
  -- An entry is among those kept, or these are `n` entries which all come before it.
  abbrev pub KeptOrLater : ℕ → List A → A → Type 0
  KeptOrLater n kept x =
      (any (inside x) kept ≡ true) ⊎ ((length kept ≡ n) × All (λ y. le y x ≡ true) kept)

  KeptOrLater-cons :
      (n : ℕ) (x y : A) (kept : List A)
      → le x y ≡ true
      → KeptOrLater n kept y
      → KeptOrLater (suc n) (x ∷ kept) y
  KeptOrLater-cons n x y kept o (inl h) = inl (ground (arith, h))
  KeptOrLater-cons n x y kept o (inr (full, later)) = inr (ap suc full, (o, later))

  KeptOrLater-zero : (xs : List A) → All (KeptOrLater 0 []) xs
  KeptOrLater-zero [] = tt
  KeptOrLater-zero (x ∷ xs) = (inr (refl, tt), KeptOrLater-zero xs)

  KeptOrLater-later :
      (n : ℕ) (x : A) (kept ys : List A)
      → All (λ y. le x y ≡ true) ys
      → All (KeptOrLater n kept) ys
      → All (KeptOrLater (suc n) (x ∷ kept)) ys
  KeptOrLater-later n x kept [] o h = tt
  KeptOrLater-later n x kept (y ∷ ys) o h =
      (KeptOrLater-cons n x y kept o.0 h.0, KeptOrLater-later n x kept ys o.1 h.1)

  -- Whoever a cut of a sorted list leaves out comes after all that it keeps, and the cut is full.
  pub take-KeptOrLater :
      ((x : A) → inside x x ≡ true)
      → (n : ℕ) (xs : List A) → IsSorted le xs
      → All (KeptOrLater n (take n xs)) xs
  take-KeptOrLater self zero xs s = KeptOrLater-zero xs
  take-KeptOrLater self (suc n) [] s = tt
  take-KeptOrLater self (suc n) (x ∷ xs) s = (
    inl (ground (arith, self x)),
    KeptOrLater-later n x (take n xs) xs s.0 (take-KeptOrLater self n xs s.1),
  )
