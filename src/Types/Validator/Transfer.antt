-- ===== src/Types/Validator/Transfer.antt =====
-- A list with the same member under every id as an admissible one is admissible.
use hotmint.Base.{
  ◌==◌, ==_iff, Bool-cases, find, retain, ℕ, ◌≡◌, refl, sym, ap, ◌∙◌, ◌≢◌, inl, inr, not, none,
  some, List, [], ◌∷◌, arith,
}
use hotmint.Base.Distinct.{Distinct}
use hotmint.Types.Validator.{ValidatorInfo}
use hotmint.Types.Validator.Lookup.{has_id}
use hotmint.Types.Validator.Same.{
  find_of_NotIn, All-of_find, All-find, find-retain, Distinct-KeysApart, KeysApart-Distinct,
  sum_power-retain, Distinct-retain,
}
use hotmint.Types.Validator.Valid.{ids, sum_power, KeySized, IsAdmissible}

abbrev pub SameMembers : List ValidatorInfo → List ValidatorInfo → Type 0
SameMembers as' bs = (id : ℕ) → find (has_id id) bs ≡ find (has_id id) as'

-- Without a member to find, the list is empty.
empty_of_find : (vs : List ValidatorInfo) → ((id : ℕ) → find (has_id id) vs ≡ none) → vs ≡ []
empty_of_find [] h = refl
empty_of_find (v ∷ vs) h = absurd (ground (arith, h v.id))

-- The members under every id determine the sum of the powers.
pub sum_power-SameMembers :
    (as' bs : List ValidatorInfo)
    → Distinct (ids as')
    → Distinct (ids bs)
    → SameMembers as' bs
    → sum_power bs ≡ sum_power as'
sum_power-SameMembers [] bs da db same = ap sum_power (empty_of_find bs same)
sum_power-SameMembers (a ∷ as') bs da db same =
    let rest = retain (λ v. not (v.id == a.id)) bs in
    let step = sum_power-SameMembers as' rest da.1 (Distinct-retain _ bs db) others in
    let here : find (has_id a.id) bs ≡ some a = same a.id ∙ (ground arith) in
    ground (arith, step, sum_power-retain a.id bs db, here)
  where
    others : SameMembers as' (retain (λ v. not (v.id == a.id)) bs)
    others id = elim (Bool-cases (a.id == id)) [
      | inl hit ↦
          let gone : find (has_id id) as' ≡ none =
            rw⁻¹ ((==_iff a.id id).0 hit) (find_of_NotIn a.id as' da.0) in
          ground (arith, find-retain id a.id bs, hit, gone)
      | inr miss ↦ ground (arith, find-retain id a.id bs, miss, same id)
    ]

pub IsAdmissible-SameMembers :
    (as' bs : List ValidatorInfo)
    → IsAdmissible as'
    → as' ≢ []
    → Distinct (ids bs)
    → SameMembers as' bs
    → IsAdmissible bs
IsAdmissible-SameMembers as' bs a some_member db same = record {
  distinct_ids = db;
  distinct_keys = KeysApart-Distinct bs db (λ i j v w fi fj e.
      Distinct-KeysApart as' a.distinct_keys i j v w (sym (same i) ∙ fi) (sym (same j) ∙ fj) e);
  sized =
      All-of_find KeySized bs db
        (λ id v found. All-find KeySized as' id v a.sized (sym (same id) ∙ found));
  bounded = omega (arith, sums, a.bounded);
  positive = λ _. omega (arith, sums, a.positive some_member);
}
  where
    sums : sum_power bs ≡ sum_power as'
    sums = sum_power-SameMembers as' bs a.distinct_ids db same
