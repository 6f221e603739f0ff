-- ===== src/Consensus/Pacemaker/Timeout.antt =====
-- A timeout certificate is one of a quorum.
use hotmint.Base.Map
use hotmint.Base.{
  leb, ◌==◌, if◌then◌else◌, Bool-cases, Option-cases, length, get_elem?, set, replicate, any, find,
  length-replicate, All, Result-cases, ℕ, zero, suc, ◌+◌, ◌-◌, ◌≤◌, ◌≡◌, refl, sym, ◌∙◌, subst, inl,
  inr, Bool, true, false, ◌||◌, Option, none, some, List, [], ◌∷◌, ◌++◌, arith,
}
use hotmint.Aggregate.{has_quorum}
use hotmint.Aggregate.Intersection.{signed_power, has_quorum_iff, flagged}
use hotmint.Aggregate.Votes.{add-flagged}
use hotmint.Base.Bytes.{Bytes}
use hotmint.Base.Distinct.{NotIn, Distinct}
use hotmint.Base.Map.{All-insert, All-get, nat_eq, text_eq}
use hotmint.Consensus.Pacemaker.{
  Wish, Pacemaker, wished_by, wishes_for, wish_power, try_add, gather, timeout_of, add_wish,
}
use hotmint.Consensus.Pacemaker.Wishes.{gather-flagged}
use hotmint.Consensus.VoteCollector.{vote_key_eq}
use hotmint.Types.Certificate.{QuorumCertificate, TimeoutCertificate}
use hotmint.Types.Crypto.{AggregateSignature, new, add}
use hotmint.Types.Validator.{ValidatorInfo, ValidatorSet, quorum_threshold, index_of, power_of}
use hotmint.Types.Validator.Lookup.{has_id, get-find}
use hotmint.Types.Validator.Valid.{ids, IsValid}

-- Each validator has one wish at most.
abbrev pub Fresh : List Wish → Type 0
Fresh [] = Unit
Fresh (w ∷ ws) = (any (wished_by w.validator) ws ≡ false) × Fresh ws

-- The power of the members among the wishers.
abbrev pub wished_power : List Wish → List ValidatorInfo → ℕ
wished_power ws [] = 0
wished_power ws (v ∷ vs) = (if any (wished_by v.id) ws then v.power else 0) + wished_power ws vs

abbrev power_in : ℕ → List ValidatorInfo → ℕ
power_in id vs = elim (find (has_id id) vs) [ none ↦ 0 | some v ↦ v.power ]

signed_power-wished :
    (ws : List Wish) (bs : List Bool) (vs : List ValidatorInfo)
    → length bs ≡ length vs
    → ((i : ℕ) (v : ValidatorInfo)
        → get_elem? vs i ≡ some v
        → flagged bs i ≡ any (wished_by v.id) ws)
    → signed_power bs vs ≡ wished_power ws vs
signed_power-wished ws [] [] size h = refl
signed_power-wished ws [] (v ∷ vs) size h = absurd (ground arith)
signed_power-wished ws (b ∷ bs) [] size h = absurd (ground arith)
signed_power-wished ws (b ∷ bs) (v ∷ vs) size h =
    let ih : signed_power bs vs ≡ wished_power ws vs =
      signed_power-wished ws bs vs (omega (arith, size)) (λ i u e. h (suc i) u e) in
    let here : b ≡ any (wished_by v.id) ws = h 0 v refl in
    elim (Bool-cases b) [
      | inl on ↦
          let yes_ : any (wished_by v.id) ws ≡ true = sym here ∙ on in
          rw (on, yes_) (omega (arith, ih))
      | inr off ↦
          let no_ : any (wished_by v.id) ws ≡ false = sym here ∙ off in
          rw (off, no_) (omega (arith, ih))
    ]

-- A wish of no member adds nothing.
wished_power-absent :
    (w : Wish) (ws : List Wish) (vs : List ValidatorInfo)
    → NotIn w.validator (ids vs)
    → wished_power (w ∷ ws) vs ≡ wished_power ws vs
wished_power-absent w ws [] h = refl
wished_power-absent w ws (v ∷ vs) (other, h) =
    let no_ : (w.validator == v.id) ≡ false = ground arith in
    rw (no_, wished_power-absent w ws vs h) refl

power_in-here :
    (id : ℕ) (v : ValidatorInfo) (vs : List ValidatorInfo)
    → (v.id == id) ≡ true
    → power_in id (v ∷ vs) ≡ v.power
power_in-here id v vs e = ground arith

power_in-there :
    (id : ℕ) (v : ValidatorInfo) (vs : List ValidatorInfo)
    → (v.id == id) ≡ false
    → power_in id (v ∷ vs) ≡ power_in id vs
power_in-there id v vs e = ground arith

wished_power-nil : (vs : List ValidatorInfo) → wished_power [] vs ≡ 0
wished_power-nil [] = refl
wished_power-nil (v ∷ vs) = omega (arith, wished_power-nil vs)

wished_power-cons :
    (w : Wish) (ws : List Wish) (vs : List ValidatorInfo)
    → any (wished_by w.validator) ws ≡ false
    → Distinct (ids vs)
    → wished_power (w ∷ ws) vs ≡ wished_power ws vs + power_in w.validator vs
wished_power-cons w ws [] new_ d = refl
wished_power-cons w ws (v ∷ vs) new_ (apart, d) = elim (Bool-cases (v.id == w.validator)) [
  | inl here ↦
      let same : v.id ≡ w.validator = ground arith in
      let turned : (w.validator == v.id) ≡ true = ground arith in
      let none_before : any (wished_by v.id) ws ≡ false =
        subst (λ x. any (wished_by x) ws ≡ false) (sym same) new_ in
      let apart' : NotIn w.validator (ids vs) = subst (λ x. NotIn x (ids vs)) same apart in
      let step : power_in w.validator (v ∷ vs) ≡ v.power = power_in-here w.validator v vs here in
      rw (turned, none_before, wished_power-absent w ws vs apart', step) (omega arith)
  | inr elsewhere ↦
      let turned : (w.validator == v.id) ≡ false = ground arith in
      let step : power_in w.validator (v ∷ vs) ≡ power_in w.validator vs =
        power_in-there w.validator v vs elsewhere in
      rw (turned, wished_power-cons w ws vs new_ d, step) (omega arith)
]

power_of_lem : (s : ValidatorSet) (id : ℕ) → IsValid s → power_of s id ≡ power_in id s.validators
unfolding power_of
power_of_lem s id valid_set = rw (power_of, get-find s id valid_set) refl

wish_power_lem :
    (s : ValidatorSet) (acc p : ℕ) (ws : List Wish)
    → IsValid s
    → Fresh ws
    → wish_power s acc ws ≡ some p
    → p ≡ acc + wished_power ws s.validators
unfolding wish_power
wish_power_lem s acc p [] valid_set fresh e =
    let none_wished = wished_power-nil s.validators in ground (arith, none_wished)
wish_power_lem s acc p (w ∷ ws) valid_set (new_, fresh) e =
    let known = power_of_lem s w.validator valid_set in
    let more = wished_power-cons w ws s.validators new_ valid_set.admissible.distinct_ids in
    elim (Bool-cases (power_of s w.validator == 0)) [
      | inl powerless ↦
          let rest : wish_power s acc ws ≡ some p = ground arith in
          let none_here : power_of s w.validator ≡ 0 = ground arith in
          omega (arith, wish_power_lem s acc p ws valid_set fresh rest, more, known, none_here)
      | inr powered ↦
          let rest : wish_power s (acc + power_of s w.validator) ws ≡ some p = ground arith in
          omega (
            arith,
            wish_power_lem s (acc + power_of s w.validator) p ws valid_set fresh rest,
            more,
            known,
          )
    ]

Fresh-append :
    (ws : List Wish) (w : Wish)
    → Fresh ws
    → any (wished_by w.validator) ws ≡ false
    → Fresh (ws ++ w ∷ [])
Fresh-append [] w fresh new_ = (refl, tt)
Fresh-append (x ∷ ws) w (apart, fresh) new_ =
    let tail_new : any (wished_by w.validator) ws ≡ false = ground arith in
    let other : (w.validator == x.validator) ≡ false = ground arith in
    (any-append x.validator w ws apart other, Fresh-append ws w fresh tail_new)
  where
    any-append :
        (id : ℕ) (w : Wish) (ws : List Wish)
        → any (wished_by id) ws ≡ false
        → (w.validator == id) ≡ false
        → any (wished_by id) (ws ++ w ∷ []) ≡ false
    any-append id w [] h o = rw o refl
    any-append id w (y ∷ ws) h o =
        let rest : any (wished_by id) ws ≡ false = ground arith in
        let head : (y.validator == id) ≡ false = ground arith in
        rw (head, any-append id w ws rest o) refl

abbrev pub FreshEntry : ℕ × List Wish → Type 0
FreshEntry (view, ws) = Fresh ws

-- No bucket has two wishes of one validator.
abbrev pub IsWished : Pacemaker → Type 0
IsWished p = All FreshEntry p.wishes

wishes_for-Fresh : (view : ℕ) (p : Pacemaker) → IsWished p → Fresh (wishes_for view p.wishes)
wishes_for-Fresh view p wished = elim (Option-cases (Map.get view p.wishes)) [
  | inl missing ↦ subst (λ o. Fresh (elim o [ none ↦ [] | some ws ↦ ws ])) (sym missing) tt
  | inr (ws, found) ↦
      subst (λ o. Fresh (elim o [ none ↦ [] | some us ↦ us ])) (sym found)
        (Map.All-get FreshEntry view ws p.wishes wished found)
]

-- The certificate that a wish completes.
abbrev Completed : Pacemaker → ValidatorSet → ℕ → Wish → TimeoutCertificate → Type 0
Completed p vs target_view w tc =
    let ws = wishes_for target_view p.wishes ++ w ∷ [] in
    (tc ≡ timeout_of vs target_view ws)
    × (any (wished_by w.validator) (wishes_for target_view p.wishes) ≡ false)
    × ((power : ℕ) × (wish_power vs 0 ws ≡ some power) × (quorum_threshold vs ≤ power))

add_wish-Completed :
    (p : Pacemaker) (vs : ValidatorSet) (target_view : ℕ) (w : Wish) (tc : TimeoutCertificate)
    → (add_wish p vs target_view w).1 ≡ some tc
    → Completed p vs target_view w tc
unfolding add_wish
add_wish-Completed p vs target_view w tc e =
    elim (Option-cases (wish_power vs 0 (wishes_for target_view p.wishes ++ w ∷ []))) [
      | inl overflows ↦ absurd (ground arith)
      | inr (power, counted) ↦ (ground arith, ground arith, (power, counted, ground arith))
    ]

flagged_none : (n i : ℕ) → flagged (replicate n false) i ≡ false
flagged_none zero i = refl
flagged_none (suc n) zero = refl
flagged_none (suc n) (suc i) = flagged_none n i

length-try_add :
    (agg : AggregateSignature) (i : ℕ) (s : Bytes)
    → length (try_add agg i s).signers ≡ length agg.signers
length-try_add agg i s = elim (Result-cases (add agg i s)) [
  | inl (agg', added) ↦ rw (try_add, added) (add-flagged agg agg' i 0 s added).1
  | inr (e, refused) ↦ rw (try_add, refused) refl
]

gather-length :
    (vs : ValidatorSet) (ws : List Wish) (agg : AggregateSignature)
    (qcs : List (Option QuorumCertificate))
    → length (gather vs ws agg qcs).0.signers ≡ length agg.signers
unfolding gather
gather-length vs [] agg qcs = refl
gather-length vs (w ∷ ws) agg qcs = elim (Option-cases (index_of vs w.validator)) [
  | inl unknown ↦ rw (gather, unknown) (gather-length vs ws agg qcs)
  | inr (i, known) ↦
      rw (gather, known)
        (gather-length vs ws (try_add agg i w.signature) (set qcs i w.highest_qc)
          ∙ length-try_add agg i w.signature)
]

or_false : (x y : Bool) → y ≡ false → (x || y) ≡ x
or_false x y e = ground arith

-- With a valid set and at most one wish of each validator, a timeout certificate is for the view
-- before the target, marks exactly the members among the wishers, and has a quorum.
pub add_wish_lem :
    (p : Pacemaker) (vs : ValidatorSet) (target_view : ℕ) (w : Wish) (tc : TimeoutCertificate)
    → IsValid vs
    → IsWished p
    → (add_wish p vs target_view w).1 ≡ some tc
    → (tc.view ≡ target_view - 1)
      × ((i : ℕ) (v : ValidatorInfo)
          → get_elem? vs.validators i ≡ some v
          → flagged tc.aggregate_signature.signers i
            ≡ any (wished_by v.id) (wishes_for target_view p.wishes ++ w ∷ []))
      × (has_quorum vs tc.aggregate_signature ≡ true)
unfolding timeout_of new
add_wish_lem p vs target_view w tc valid_set wished e =
    let ws = wishes_for target_view p.wishes ++ w ∷ [] in
    let n = length vs.validators in
    let (is_timeout, unseen, enough) = add_wish-Completed p vs target_view w tc e in
    let (power, counted, met) = enough in
    let fresh =
      Fresh-append (wishes_for target_view p.wishes) w (wishes_for-Fresh target_view p wished)
        unseen in
    let total = wish_power_lem vs 0 power ws valid_set fresh counted in
    let agg = (gather vs ws (new n) (replicate n none)).0 in
    let sized : length (new n).signers ≡ n = length-replicate n false in
    let marks : (i : ℕ) (v : ValidatorInfo)
        → get_elem? vs.validators i ≡ some v
        → flagged agg.signers i ≡ any (wished_by v.id) ws =
      λ i v at.
        gather-flagged vs valid_set ws (new n) (replicate n none) i v at sized
        ∙ or_false (any (wished_by v.id) ws) (flagged (new n).signers i) (flagged_none n i) in
    let signed_total =
      signed_power-wished ws agg.signers vs.validators
        (gather-length vs ws (new n) (replicate n none) ∙ sized) marks in
    rw is_timeout
      (refl, marks, (has_quorum_iff vs agg valid_set).1 (omega (arith, total, signed_total, met)))

-- Adding a wish, whatever comes of it, keeps the buckets free of a second wish of a validator.
pub add_wish-IsWished :
    (p : Pacemaker) (vs : ValidatorSet) (target_view : ℕ) (w : Wish)
    → IsWished p
    → IsWished (add_wish p vs target_view w).0
unfolding add_wish
add_wish-IsWished p vs target_view w wished =
    let old = wishes_for target_view p.wishes in
    let fresh = wishes_for-Fresh target_view p wished in
    elim (Bool-cases (any (wished_by w.validator) old)) [
      | inl again ↦
          rw (add_wish, again) (Map.All-insert FreshEntry target_view old p.wishes fresh wished)
      | inr unseen ↦
          let kept =
            Map.All-insert FreshEntry target_view (old ++ w ∷ []) p.wishes
              (Fresh-append old w fresh unseen) wished in
          elim (Option-cases (wish_power vs 0 (old ++ w ∷ []))) [
            | inl overflows ↦ rw (add_wish, unseen, overflows) kept
            | inr (power, counted) ↦ elim (Bool-cases (leb (quorum_threshold vs) power)) [
              | inl enough ↦ rw (add_wish, unseen, counted, enough) kept
              | inr short ↦ rw (add_wish, unseen, counted, short) kept
            ]
          ]
    ]
