-- ===== src/Staking/Shares.antt =====
-- The division of a slash among the delegators: cumulative rounding charges the exact sum.
use native.Mathlib.Nat.{
  mod-eq_of_lt, le-div_iff_mul-le, div-mul-le_self, add-mul-div_right, add-mul, mul-le-mul_left,
  mul-le-mul_right, mul-div_cancel_left, zero-mul, zero-div, add-zero, zero-add, add_assoc,
}
use hotmint.Base.{
  leb, Bool-cases, u64_limit, ℕ, ◌+◌, ◌-◌, ◌*◌, ◌/◌, ◌≤◌, ◌<◌, ◌≡◌, refl, inl, inr, List, [], ◌∷◌,
  arith,
}
use hotmint.Base.Bytes.{Bytes}
use hotmint.Base.Sort.{sum}
use hotmint.Staking.{StakeEntry}
use hotmint.Staking.Slash.{cumulative_share, share_of, entry_amount}

div_mono : (a b : ℕ) {n : ℕ} → 0 < n → a ≤ b → a / n ≤ b / n
div_mono a b {n} pos h = (le-div_iff_mul-le pos).1 (omega (arith, div-mul-le_self a n, h))

-- A share is at most the stake where the slash is at most the total.
div_share_le :
    (cut total c a : ℕ) → 0 < total → cut ≤ total → (c + a) * cut / total ≤ c * cut / total + a
div_share_le cut total c a pos h =
    let within : (c + a) * cut ≤ c * cut + a * total =
      omega (arith, add-mul c a cut, mul-le-mul_left a h) in
    omega (
      arith,
      div_mono ((c + a) * cut) (c * cut + a * total) pos within,
      add-mul-div_right (c * cut) a pos,
    )

-- A share is at least the stake where the slash is at least the total.
div_share_ge :
    (cut total c a : ℕ) → 0 < total → total ≤ cut → c * cut / total + a ≤ (c + a) * cut / total
div_share_ge cut total c a pos h =
    let within : c * cut + a * total ≤ (c + a) * cut =
      omega (arith, add-mul c a cut, mul-le-mul_left a h) in
    omega (
      arith,
      div_mono (c * cut + a * total) ((c + a) * cut) pos within,
      add-mul-div_right (c * cut) a pos,
    )

-- No share exceeds the whole slash, so the cut to a word changes nothing.
cumulative_exact :
    (cut total c : ℕ)
    → 0 < total
    → cut < u64_limit
    → c ≤ total
    → cumulative_share cut total c ≡ c * cut / total
unfolding cumulative_share
cumulative_exact cut total c pos fits h = mod-eq_of_lt (omega (arith, whole, fits, most))
  where
    most : c * cut / total ≤ total * cut / total
    most = div_mono (c * cut) (total * cut) pos (mul-le-mul_right cut h)

    whole : total * cut / total ≡ cut
    whole = mul-div_cancel_left cut pos

-- The shares and what they leave, for delegators in a row after the stake `before`.
abbrev pub sum_shares : ℕ → ℕ → ℕ → List (Bytes × StakeEntry) → ℕ
sum_shares cut total before [] = 0
sum_shares cut total before ((who, e) ∷ rest) =
    share_of cut total before e.amount + sum_shares cut total (before + e.amount) rest

abbrev pub sum_left : ℕ → ℕ → ℕ → List (Bytes × StakeEntry) → ℕ
sum_left cut total before [] = 0
sum_left cut total before ((who, e) ∷ rest) =
    e.amount - share_of cut total before e.amount + sum_left cut total (before + e.amount) rest

-- No delegator's share exceeds the stake.
abbrev pub SharesFit : ℕ → ℕ → ℕ → List (Bytes × StakeEntry) → Type 0
SharesFit cut total before [] = Unit
SharesFit cut total before ((who, e) ∷ rest) =
    (share_of cut total before e.amount ≤ e.amount) × SharesFit cut total (before + e.amount) rest

module _ (cut total : ℕ) (pos : 0 < total) (fits : cut < u64_limit) where
  shares_from :
      (before : ℕ) (xs : List (Bytes × StakeEntry))
      → before + sum entry_amount xs ≤ total
      → cut ≤ total
      → (before * cut / total + sum_shares cut total before xs
          ≡ (before + sum entry_amount xs) * cut / total)
        × SharesFit cut total before xs
  shares_from before [] h le = (rw (add-zero before) (omega arith), tt)
  shares_from before ((who, e) ∷ rest) h le =
      let (total_share, fit) = shares_from (before + e.amount) rest (omega arith) le in
      let here = cumulative_exact cut total before pos fits (omega arith) in
      let there = cumulative_exact cut total (before + e.amount) pos fits (omega arith) in
      let up = div_share_le cut total before e.amount pos le in
      let grows =
        div_mono (before * cut) ((before + e.amount) * cut) pos
          (mul-le-mul_right cut (omega arith)) in
      (
        rw (← add_assoc before e.amount (sum entry_amount rest))
            (omega (arith, total_share, here, there, grows)),
        (omega (arith, here, there, up), fit),
      )

  left_from :
      (before : ℕ) (xs : List (Bytes × StakeEntry))
      → SharesFit cut total before xs
      → sum_left cut total before xs + sum_shares cut total before xs ≡ sum entry_amount xs
  left_from before [] h = refl
  left_from before ((who, e) ∷ rest) h = omega (arith, h.0, left_from (before + e.amount) rest h.1)

  nothing_left :
      (before : ℕ) (xs : List (Bytes × StakeEntry))
      → before + sum entry_amount xs ≤ total
      → total ≤ cut
      → sum_left cut total before xs ≡ 0
  nothing_left before [] h ge = refl
  nothing_left before ((who, e) ∷ rest) h ge =
      let here = cumulative_exact cut total before pos fits (omega arith) in
      let there = cumulative_exact cut total (before + e.amount) pos fits (omega arith) in
      let up = div_share_ge cut total before e.amount pos ge in
      omega (arith, here, there, up, nothing_left (before + e.amount) rest (omega arith) ge)

-- Where the slash is at most the sum of the stakes, the shares of the delegators add up to the
-- slash exactly, and no share exceeds its stake.
pub sum_shares_lem :
    (cut : ℕ) (xs : List (Bytes × StakeEntry))
    → 0 < sum entry_amount xs
    → cut ≤ sum entry_amount xs
    → cut < u64_limit
    → (sum_shares cut (sum entry_amount xs) 0 xs ≡ cut) × SharesFit cut (sum entry_amount xs) 0 xs
sum_shares_lem cut xs pos le fits =
    let (total_share, fit) = shares_from cut (sum entry_amount xs) pos fits 0 xs (omega arith) le in
    (omega (arith, total_share, whole, none_before, same), fit)
  where
    whole : sum entry_amount xs * cut / sum entry_amount xs ≡ cut
    whole = mul-div_cancel_left cut pos

    same :
        (0 + sum entry_amount xs) * cut / sum entry_amount xs
        ≡ sum entry_amount xs * cut / sum entry_amount xs
    same = rw (zero-add (sum entry_amount xs)) refl

    none_before : 0 * cut / sum entry_amount xs ≡ 0
    none_before = rw (zero-mul cut) (zero-div (sum entry_amount xs))

-- What is left of the stakes, whatever the slash.
pub sum_left_lem :
    (cut : ℕ) (xs : List (Bytes × StakeEntry))
    → 0 < sum entry_amount xs
    → cut < u64_limit
    → sum_left cut (sum entry_amount xs) 0 xs ≡ sum entry_amount xs - cut
sum_left_lem cut xs pos fits = elim (Bool-cases (leb cut (sum entry_amount xs))) [
  | inl le ↦
      let (exact, fit) = sum_shares_lem cut xs pos (ground arith) fits in
      omega (arith, exact, left_from cut (sum entry_amount xs) pos fits 0 xs fit)
  | inr gt ↦
      let ge : sum entry_amount xs ≤ cut = ground arith in
      omega (arith, ge, nothing_left cut (sum entry_amount xs) pos fits 0 xs (omega arith) ge)
]
