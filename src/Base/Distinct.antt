-- ===== src/Base/Distinct.antt =====
-- Lists as `HashSet`s: membership tests and lists without repetition.
use mathlib.Core.Path.{◌≡◌, refl, sym}
use mathlib.Core.Logic.{◌↔◌, ◌≢◌}
use mathlib.Core.Bool.{Bool, false, ◌||◌}
use mathlib.Core.List.{List, [], ◌∷◌}
use native.Mathlib.Omega.{arith}
use hotmint.Base.Lists.{All}
use hotmint.Base.Map.{Eq}

abbrev pub NotIn {ℓ} : {A : Type ℓ} → A → List A → Type ℓ
NotIn x = All (λ y. y ≢ x)

abbrev pub Distinct {ℓ} : {A : Type ℓ} → List A → Type ℓ
Distinct [] = Unit
Distinct (x ∷ xs) = NotIn x xs × Distinct xs

-- No entry of the second list is in the first.
abbrev pub Apart {ℓ} : {A : Type ℓ} → List A → List A → Type ℓ
Apart xs = All (λ y. NotIn y xs)

module _ {ℓ} {A : Type ℓ} where
  pub Apart-nil : (ys : List A) → Apart [] ys
  Apart-nil [] = tt
  Apart-nil (y ∷ ys) = (tt, Apart-nil ys)

  pub Apart-cons : (x : A) (xs ys : List A) → NotIn x ys → Apart xs ys → Apart (x ∷ xs) ys
  Apart-cons x xs [] n a = tt
  Apart-cons x xs (y ∷ ys) n a = (((λ e. n.0 (sym e)), a.0), Apart-cons x xs ys n.1 a.1)

  pub Apart-uncons : (x : A) (xs ys : List A) → Apart (x ∷ xs) ys → NotIn x ys × Apart xs ys
  Apart-uncons x xs [] a = (tt, tt)
  Apart-uncons x xs (y ∷ ys) a =
      let rest = Apart-uncons x xs ys a.1 in (((λ e. a.0.0 (sym e)), rest.0), (a.0.1, rest.1))

module _ {ℓ} {A : Type ℓ} ⦃e : Eq A⦄ where
  abbrev pub contains : A → List A → Bool
  contains x [] = false
  contains x (y ∷ ys) = e.beq y x || contains x ys

  pub contains_iff : (x : A) (ys : List A) → (contains x ys ≡ false) ↔ NotIn x ys
  contains_iff x [] = ((λ _. tt), (λ _. refl))
  contains_iff x (y ∷ ys) = (
    (λ h. ((λ p. ground (arith, e.beq_iff y x)), (contains_iff x ys).0 (ground arith))),
    (λ h. ground (arith, e.beq_iff y x, (contains_iff x ys).1 h.1)),
  )
