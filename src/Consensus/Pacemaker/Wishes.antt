-- ===== src/Consensus/Pacemaker/Wishes.antt =====
-- What a timeout certificate holds.
use hotmint.Base.{
  ◌==◌, Bool-cases, Option-cases, length, get_elem?, set, any, err, Result-cases, ℕ, zero, suc, ◌<◌,
  ◌≡◌, refl, ◌∙◌, subst, inl, inr, Bool, true, false, ◌||◌, Option, some, List, [], ◌∷◌, arith,
}
use hotmint.Aggregate.Intersection.{flagged}
use hotmint.Aggregate.Votes.{add-flagged, same_member}
use hotmint.Base.Bytes.{Bytes}
use hotmint.Consensus.Pacemaker.{Wish, wished_by, try_add, gather}
use hotmint.Types.Certificate.{QuorumCertificate}
use hotmint.Types.Crypto.{AggregateSignature, AddError, add, add_ok_iff}
use hotmint.Types.Validator.{ValidatorInfo, ValidatorSet, index_of}
use hotmint.Types.Validator.Lookup.{index_of_iff}
use hotmint.Types.Validator.Valid.{IsValid}
use hotmint.Witnesses.Validators.{member}

in_range :
    (vs : List ValidatorInfo) (i : ℕ) (v : ValidatorInfo) → get_elem? vs i ≡ some v → i < length vs
in_range [] i v e = absurd (ground arith)
in_range (x ∷ vs) zero v e = omega arith
in_range (x ∷ vs) (suc i) v e = omega (arith, in_range vs i v e)

get_elem?-flagged : (bs : List Bool) (i : ℕ) → i < length bs → get_elem? bs i ≡ some (flagged bs i)
get_elem?-flagged [] i h = absurd (omega arith)
get_elem?-flagged (b ∷ bs) zero h = refl
get_elem?-flagged (b ∷ bs) (suc i) h = get_elem?-flagged bs i (omega (arith, h))

refused_was_set :
    (agg : AggregateSignature) (j : ℕ) (s : Bytes) (e : AddError)
    → j < length agg.signers
    → add agg j s ≡ err e
    → flagged agg.signers j ≡ true
refused_was_set agg j s e inside refused = elim (Bool-cases (flagged agg.signers j)) [
  | inl on ↦ on
  | inr off ↦
      let unset : get_elem? agg.signers j ≡ some false =
        get_elem?-flagged agg.signers j inside ∙ rw off refl in
      let (agg', added) = (add_ok_iff agg j s).1 unset in absurd (ground arith)
]

-- A signature that is added sets its member's flag; one that is refused was there before.
try_add-flagged :
    (agg : AggregateSignature) (j i : ℕ) (s : Bytes)
    → j < length agg.signers
    → (flagged (try_add agg j s).signers i ≡ (j == i || flagged agg.signers i))
      × (length (try_add agg j s).signers ≡ length agg.signers)
try_add-flagged agg j i s inside = elim (Result-cases (add agg j s)) [
  | inl (agg', added) ↦ rw (try_add, added) (add-flagged agg agg' j i s added)
  | inr (e, refused) ↦
      let on = refused_was_set agg j s e inside refused in
      let same : flagged agg.signers i ≡ (j == i || flagged agg.signers i) =
        elim (Bool-cases (j == i)) [
          | inl here ↦
              let k : j ≡ i = ground arith in
              rw here (subst (λ x. flagged agg.signers x ≡ true) k on)
          | inr elsewhere ↦ rw elsewhere refl
        ] in
      rw (try_add, refused) (same, refl)
]

any_swap : (x y z : Bool) → (y || (x || z)) ≡ ((x || y) || z)
any_swap x y z = ground arith

-- The flags are set for the members among the wishers.
pub gather-flagged :
    (vs : ValidatorSet) (valid : IsValid vs) (ws : List Wish) (agg : AggregateSignature)
    (qcs : List (Option QuorumCertificate)) (i : ℕ) (v : ValidatorInfo)
    → get_elem? vs.validators i ≡ some v
    → length agg.signers ≡ length vs.validators
    → flagged (gather vs ws agg qcs).0.signers i
      ≡ (any (wished_by v.id) ws || flagged agg.signers i)
unfolding gather
gather-flagged vs valid [] agg qcs i v member sized = refl
gather-flagged vs valid (w ∷ ws) agg qcs i v member sized =
    elim (Option-cases (index_of vs w.validator)) [
      | inl unknown ↦
          let known = (index_of_iff vs v.id i valid).1 (v, member, refl) in
          let other : (w.validator == v.id) ≡ false = ground arith in
          let ih = gather-flagged vs valid ws agg qcs i v member sized in
          rw (gather, unknown, other) ih
      | inr (j, known) ↦
          let (u, at, _) = (index_of_iff vs w.validator j valid).0 known in
          let inside : j < length agg.signers =
            omega (arith, in_range vs.validators j u at, sized) in
          let (flag, size) = try_add-flagged agg j i w.signature inside in
          let same = same_member vs valid w.validator j i v known member in
          let ih =
            gather-flagged vs valid ws (try_add agg j w.signature) (set qcs j w.highest_qc) i v
              member (size ∙ sized) in
          rw (gather, known)
            (ih
              ∙ (rw (flag, same)
                  (any_swap (w.validator == v.id) (any (wished_by v.id) ws)
                    (flagged agg.signers i))))
    ]
