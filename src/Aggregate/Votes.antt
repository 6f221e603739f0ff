-- ===== src/Aggregate/Votes.antt =====
-- What an aggregate of votes holds, and when votes can be aggregated.
use hotmint.Base.{
  ◌==◌, Option-cases, length, get_elem?, set, replicate, any, length-set, length-replicate, All, ok,
  Result-cases, ℕ, zero, suc, ◌<◌, ◌≡◌, refl, sym, ap, ◌∙◌, ◌≢◌, inl, inr, Bool, true, false, ◌||◌,
  some, List, [], ◌∷◌, map, arith,
}
use hotmint.Aggregate.{aggregate_from, aggregate_votes}
use hotmint.Aggregate.Intersection.{flagged}
use hotmint.Base.Bytes.{Bytes}
use hotmint.Base.Distinct.{NotIn, Distinct}
use hotmint.Base.Map.{nat_eq, text_eq}
use hotmint.Consensus.VoteCollector.{vote_key_eq}
use hotmint.Types.Crypto.{
  AggregateSignature, new, add, IsAligned, new-IsAligned, add_lem, add_ok_iff,
}
use hotmint.Types.Validator.{ValidatorInfo, ValidatorSet, index_of}
use hotmint.Types.Validator.Lookup.{index_of_iff}
use hotmint.Types.Validator.Valid.{IsValid}
use hotmint.Types.Vote.{Vote}

abbrev pub voted : ℕ → List Vote → Bool
voted id = any (λ v. v.validator == id)

flagged-set :
    (bs : List Bool) (j i : ℕ)
    → get_elem? bs j ≡ some false
    → flagged (set bs j true) i ≡ (j == i || flagged bs i)
flagged-set [] j i h = cc
flagged-set (b ∷ bs) zero zero h = ground arith
flagged-set (b ∷ bs) zero (suc i) h = ground arith
flagged-set (b ∷ bs) (suc j) zero h = ground arith
flagged-set (b ∷ bs) (suc j) (suc i) h = ground (arith, flagged-set bs j i h)

pub add-flagged :
    (agg agg' : AggregateSignature) (j i : ℕ) (s : Bytes)
    → add agg j s ≡ ok agg'
    → (flagged agg'.signers i ≡ (j == i || flagged agg.signers i))
      × (length agg'.signers ≡ length agg.signers)
unfolding add
add-flagged agg agg' j i s h =
    ground (arith, unset, flagged-set agg.signers j i unset, length-set agg.signers j true)
  where
    unset : get_elem? agg.signers j ≡ some false
    unset = ground arith

module _ (vs : ValidatorSet) (valid : IsValid vs) where
  pub same_member :
      (id j i : ℕ) (w : ValidatorInfo)
      → index_of vs id ≡ some j
      → get_elem? vs.validators i ≡ some w
      → (j == i) ≡ (id == w.id)
  same_member id j i w hj hi =
      let (v, at, e) = (index_of_iff vs id j valid).0 hj in
      ground (arith, (index_of_iff vs id i valid).1, at, e, hi, same)
    where
      same : id ≡ w.id → index_of vs id ≡ some i
      same e = (index_of_iff vs id i valid).1 (w, hi, sym e)

  record Collected (agg agg' : AggregateSignature) (votes : List Vote) : Type 0 where
    aligned : IsAligned agg'
    sized : length agg'.signers ≡ length agg.signers
    flags :
        (i : ℕ) (w : ValidatorInfo)
        → get_elem? vs.validators i ≡ some w
        → flagged agg'.signers i ≡ (flagged agg.signers i || voted w.id votes)

  Collected-cons :
      (agg mid agg' : AggregateSignature) (v : Vote) (votes : List Vote) (j : ℕ)
      → index_of vs v.validator ≡ some j
      → add agg j v.signature ≡ ok mid
      → Collected mid agg' votes
      → Collected agg agg' (v ∷ votes)
  Collected-cons agg mid agg' v votes j hj hadd c = record {
    aligned = c.aligned;
    sized = c.sized ∙ (add-flagged agg mid j 0 v.signature hadd).1;
    flags = λ i w at. ground (
      arith,
      c.flags i w at,
      add-flagged agg mid j i v.signature hadd,
      same_member v.validator j i w hj at,
    );
  }

  aggregate_from_lem :
      (agg agg' : AggregateSignature) (votes : List Vote)
      → IsAligned agg
      → aggregate_from vs agg votes ≡ ok agg'
      → Collected agg agg' votes
  unfolding aggregate_from
  aggregate_from_lem agg agg' [] l h = record {
    aligned = ground arith;
    sized = ground arith;
    flags = λ i w at. ground arith;
  }
  aggregate_from_lem agg agg' (v ∷ votes) l h = elim (Option-cases (index_of vs v.validator)) [
    | inl e ↦ ground arith
    | inr (j, e) ↦ elim (Result-cases (add agg j v.signature)) [
      | inl (mid, e') ↦
          Collected-cons agg mid agg' v votes j e e' (
            aggregate_from_lem mid agg' votes (add_lem agg mid j v.signature l e').1 (ground arith))
      | inr (x, e') ↦ ground arith
    ]
  ]

flagged-replicate : (n i : ℕ) → flagged (replicate n false) i ≡ false
flagged-replicate zero i = refl
flagged-replicate (suc n) zero = refl
flagged-replicate (suc n) (suc i) = flagged-replicate n i

-- An aggregate of votes has a flag for each member, set exactly for the members that voted, and as
-- many signatures as set flags.
pub aggregate_votes_lem :
    (vs : ValidatorSet) (votes : List Vote) (agg : AggregateSignature)
    → IsValid vs
    → aggregate_votes vs votes ≡ ok agg
    → IsAligned agg
      × (length agg.signers ≡ length vs.validators)
      × ((i : ℕ) (w : ValidatorInfo)
          → get_elem? vs.validators i ≡ some w
          → flagged agg.signers i ≡ voted w.id votes)
unfolding aggregate_votes new
aggregate_votes_lem vs votes agg valid h = (
  c.aligned,
  c.sized ∙ length-replicate (length vs.validators) false,
  λ i w at. ground (arith, c.flags i w at, flagged-replicate (length vs.validators) i),
)
  where
    c : Collected vs valid (new (length vs.validators)) agg votes
    c =
        aggregate_from_lem vs valid (new (length vs.validators)) agg votes
          (new-IsAligned (length vs.validators)) h

-- No vote is by a member whose flag is set already.
abbrev Unsigned : ValidatorSet → AggregateSignature → Vote → Type 0
Unsigned vs agg v =
    (j : ℕ) × (index_of vs v.validator ≡ some j) × (get_elem? agg.signers j ≡ some false)

get_elem?-set_other :
    (bs : List Bool) (j k : ℕ)
    → j ≢ k
    → get_elem? bs k ≡ some false
    → get_elem? (set bs j true) k ≡ some false
get_elem?-set_other [] j k n h = cc
get_elem?-set_other (b ∷ bs) zero zero n h = absurd (n refl)
get_elem?-set_other (b ∷ bs) zero (suc k) n h = h
get_elem?-set_other (b ∷ bs) (suc j) zero n h = h
get_elem?-set_other (b ∷ bs) (suc j) (suc k) n h = get_elem?-set_other bs j k (λ e. n (ap suc e)) h

module _ (vs : ValidatorSet) (valid : IsValid vs) where
  Unsigned-add :
      (agg agg' : AggregateSignature) (j id : ℕ) (s : Bytes) (votes : List Vote)
      → index_of vs id ≡ some j
      → add agg j s ≡ ok agg'
      → NotIn id (map (λ (v : Vote). v.validator) votes)
      → All (Unsigned vs agg) votes
      → All (Unsigned vs agg') votes
  unfolding add
  Unsigned-add agg agg' j id s [] hj hadd n u = tt
  Unsigned-add agg agg' j id s (v ∷ votes) hj hadd n ((k, hk, unset), u) = (
    (k, hk, ground (arith, get_elem?-set_other agg.signers j k apart unset)),
    Unsigned-add agg agg' j id s votes hj hadd n.1 u,
  )
    where
      apart : j ≢ k
      apart e =
          let (a, at_a, ea) = (index_of_iff vs id j valid).0 hj in
          let (b, at_b, eb) = (index_of_iff vs v.validator k valid).0 hk in n.0 (ground arith)

  aggregate_from-ok :
      (agg : AggregateSignature) (votes : List Vote)
      → Distinct (map (λ (v : Vote). v.validator) votes)
      → All (Unsigned vs agg) votes
      → (agg' : AggregateSignature) × (aggregate_from vs agg votes ≡ ok agg')
  unfolding aggregate_from
  aggregate_from-ok agg [] d u = (agg, refl)
  aggregate_from-ok agg (v ∷ votes) d ((j, hj, unset), u) =
      let (mid, hadd) = (add_ok_iff agg j v.signature).1 unset in
      let (agg', rest) =
        aggregate_from-ok mid votes d.1
          (Unsigned-add agg mid j v.validator v.signature votes hj hadd d.0 u) in
      (agg', ground (arith, hj, hadd, rest))

  get_elem?-replicate : (n i : ℕ) → i < n → get_elem? (replicate n false) i ≡ some false
  get_elem?-replicate zero i h = absurd (omega arith)
  get_elem?-replicate (suc n) zero h = refl
  get_elem?-replicate (suc n) (suc i) h = get_elem?-replicate n i (omega arith)

  get_elem?-lt :
      (ws : List ValidatorInfo) (i : ℕ) (w : ValidatorInfo)
      → get_elem? ws i ≡ some w
      → i < length ws
  get_elem?-lt [] i w h = cc
  get_elem?-lt (x ∷ ws) zero w h = omega arith
  get_elem?-lt (x ∷ ws) (suc i) w h = omega (arith, get_elem?-lt ws i w h)

  abbrev pub IsMember : Vote → Type 0
  IsMember v = (j : ℕ) × (index_of vs v.validator ≡ some j)

  All-Unsigned :
      (votes : List Vote)
      → All IsMember votes
      → All (Unsigned vs (new (length vs.validators))) votes
  unfolding new
  All-Unsigned [] h = tt
  All-Unsigned (v ∷ votes) ((j, hj), h) =
      let (w, at, _) = (index_of_iff vs v.validator j valid).0 hj in
      (
        (j, hj, get_elem?-replicate (length vs.validators) j (get_elem?-lt vs.validators j w at)),
        All-Unsigned votes h,
      )

  -- Votes by distinct members of a valid set can always be aggregated.
  pub aggregate_votes-ok :
      (votes : List Vote)
      → Distinct (map (λ (v : Vote). v.validator) votes)
      → All IsMember votes
      → (agg : AggregateSignature) × (aggregate_votes vs votes ≡ ok agg)
  unfolding aggregate_votes
  aggregate_votes-ok votes d h =
      aggregate_from-ok (new (length vs.validators)) votes d (All-Unsigned votes h)
