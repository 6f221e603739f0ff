-- ===== src/Consensus/VoteCollector/Equivocation.antt =====
-- What the search for an earlier vote for another block finds.
use mathlib.Core.Logic.{◌≢◌}
use hotmint.Base.{
  Bool-cases, Option-cases, get_elem?, find, All, ℕ, zero, suc, ◌≡◌, subst, ◌⊎◌, inl, inr, true,
  some, List, [], ◌∷◌, arith,
}
use hotmint.Consensus.VoteCollector.{
  VoteKey, VoteCollector, by_validator, proof_of, rivals, find_equivocation,
}
use hotmint.Consensus.VoteCollector.Buckets.{IsFiled, IsBucket}
use hotmint.Types.Evidence.{EquivocationProof}
use hotmint.Types.Vote.{vote_type_eq_iff, Vote}

-- The collector holds this vote.
abbrev pub Held : List (VoteKey × List Vote) → Vote → Type 0
Held [] ev = ⊥
Held ((k, votes) ∷ m) ev = ((j : ℕ) × (get_elem? votes j ≡ some ev)) ⊎ Held m ev

-- The same validator, epoch, view and type, and another block.
pub record Conflicts (epoch : ℕ) (v ev : Vote) : Type 0 where
  pub same_voter : ev.validator ≡ v.validator
  pub same_epoch : ev.epoch ≡ epoch
  pub same_view : ev.view ≡ v.view
  pub same_type : ev.vote_type ≡ v.vote_type
  pub other_block : ev.block_hash ≢ v.block_hash

find_sound :
    (id : ℕ) (votes : List Vote) (ev : Vote)
    → find (by_validator id) votes ≡ some ev
    → ((j : ℕ) × (get_elem? votes j ≡ some ev)) × (ev.validator ≡ id)
find_sound id [] ev h = cc
find_sound id (v ∷ votes) ev h = elim (Bool-cases (by_validator id v)) [
  | inl hit ↦ ((0, ground arith), ground arith)
  | inr miss ↦ let ((j, at), e) = find_sound id votes ev (ground arith) in ((suc j, at), e)
]

find_complete :
    (id : ℕ) (votes : List Vote) (j : ℕ) (ev : Vote)
    → get_elem? votes j ≡ some ev
    → ev.validator ≡ id
    → (w : Vote) × (find (by_validator id) votes ≡ some w)
find_complete id [] j ev at e = cc
find_complete id (v ∷ votes) zero ev at e = (v, ground arith)
find_complete id (v ∷ votes) (suc j) ev at e = elim (Bool-cases (by_validator id v)) [
  | inl hit ↦ (v, rw hit)
  | inr miss ↦ let (w, found) = find_complete id votes j ev at e in (w, rw miss found)
]

IsFiled-at :
    (k : VoteKey) (votes : List Vote) (j : ℕ) (ev : Vote)
    → All (IsFiled k) votes
    → get_elem? votes j ≡ some ev
    → IsFiled k ev
IsFiled-at k [] j ev h at = cc
IsFiled-at k (v ∷ votes) zero ev h at = let same : v ≡ ev = cc in subst (IsFiled k) same h.0
IsFiled-at k (v ∷ votes) (suc j) ev h at = IsFiled-at k votes j ev h.1 at

-- What the search returns is the proof against a held vote that conflicts.
abbrev pub Proves : ℕ → Vote → List (VoteKey × List Vote) → EquivocationProof → Type 0
Proves epoch v m p = (ev : Vote) × Held m ev × Conflicts epoch v ev × (p ≡ proof_of epoch ev v)

Proves-cons :
    (epoch : ℕ) (v : Vote) (k : VoteKey) (votes : List Vote) (m : List (VoteKey × List Vote))
    (p : EquivocationProof)
    → Proves epoch v m p
    → Proves epoch v ((k, votes) ∷ m) p
Proves-cons epoch v k votes m p (ev, held, c, e) = (ev, inr held, c, e)

rivals-Conflicts :
    (epoch : ℕ) (v ev : Vote) (k : VoteKey)
    → rivals epoch v k ≡ true
    → IsFiled k ev
    → ev.validator ≡ v.validator
    → Conflicts epoch v ev
rivals-Conflicts epoch v ev k r f e = record {
  same_voter = e;
  same_epoch = ground arith;
  same_view = ground arith;
  same_type = ground (arith, vote_type_eq_iff k.vote_type v.vote_type);
  other_block = λ same. ground arith;
}

Conflicts-rivals :
    (epoch : ℕ) (v ev : Vote) (k : VoteKey)
    → Conflicts epoch v ev
    → IsFiled k ev
    → rivals epoch v k ≡ true
Conflicts-rivals epoch v ev k c f = ground (
  arith,
  c.same_epoch,
  c.same_view,
  c.same_type,
  c.other_block,
  vote_type_eq_iff k.vote_type v.vote_type,
)

pub find_equivocation_sound :
    (epoch : ℕ) (v : Vote) (m : List (VoteKey × List Vote)) (p : EquivocationProof)
    → All IsBucket m
    → find_equivocation epoch v m ≡ some p
    → Proves epoch v m p
unfolding find_equivocation
find_equivocation_sound epoch v [] p h e = cc
find_equivocation_sound epoch v ((k, votes) ∷ m) p h e = elim (Bool-cases (rivals epoch v k)) [
  | inr other ↦
      Proves-cons epoch v k votes m p
        (find_equivocation_sound epoch v m p h.1 (rw (other, find_equivocation) at e))
  | inl rival ↦ elim (Option-cases (find (by_validator v.validator) votes)) [
    | inl absent ↦
        Proves-cons epoch v k votes m p
          (find_equivocation_sound epoch v m p h.1 (ground (arith, rival, absent)))
    | inr (ev, found) ↦
        let ((j, at), same) = find_sound v.validator votes ev found in
        (
          ev,
          inl (j, at),
          rivals-Conflicts epoch v ev k rival (IsFiled-at k votes j ev h.0.0 at) same,
          ground (arith, rival, found),
        )
  ]
]

pub find_equivocation_complete :
    (epoch : ℕ) (v ev : Vote) (m : List (VoteKey × List Vote))
    → All IsBucket m
    → Held m ev
    → Conflicts epoch v ev
    → (p : EquivocationProof) × (find_equivocation epoch v m ≡ some p)
unfolding find_equivocation
find_equivocation_complete epoch v ev [] h held c = absurd held
find_equivocation_complete epoch v ev ((k, votes) ∷ m) h (inl (j, at)) c =
    let rival = Conflicts-rivals epoch v ev k c (IsFiled-at k votes j ev h.0.0 at) in
    let (w, found) = find_complete v.validator votes j ev at c.same_voter in
    (proof_of epoch w v, ground (arith, rival, found))
find_equivocation_complete epoch v ev ((k, votes) ∷ m) h (inr held) c =
    let (p, rest) = find_equivocation_complete epoch v ev m h.1 held c in
    elim (Option-cases (find (by_validator v.validator) votes)) [
      | inl absent ↦ (p, ground (arith, absent, rest))
      | inr (w, found) ↦ elim (Bool-cases (rivals epoch v k)) [
        | inl rival ↦ (proof_of epoch w v, ground (arith, rival, found))
        | inr other ↦ (p, ground (arith, other, rest))
      ]
    ]
