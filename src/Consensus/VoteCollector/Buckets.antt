-- ===== src/Consensus/VoteCollector/Buckets.antt =====
-- The buckets of votes stay sorted by key and free of repetition.
use mathlib.Core.Logic.{◌≢◌}
use hotmint.Base.Map
use hotmint.Base.{
  leb, ◌==◌, if◌then◌else◌, Bool-cases, Option-cases, is_some, any, All, All-append, ℕ, ◌≡◌, sym,
  inl, inr, false, not, ◌&&◌, Option, List, [], ◌∷◌, ◌++◌, map, arith,
}
use hotmint.Base.Distinct.{NotIn, Distinct}
use hotmint.Base.Map.{All-insert, All-get, get-retain_keys, All-retain_keys, nat_eq, text_eq}
use hotmint.Consensus.VoteCollector.{
  VoteKey, VoteCollector, key_of, by_validator, find_equivocation, bucket, file_vote, add_vote,
  clear_view, prune_before, vote_key_eq,
}
use hotmint.Types.Evidence.{EquivocationProof}
use hotmint.Types.Validator.{get, ValidatorSet}
use hotmint.Types.Vote.{vote, vote_type_eq, Vote}

abbrev pub voters : List Vote → List ℕ
voters = map λ (v : Vote). v.validator

-- The vote is of the bucket's epoch, view, block and type.
abbrev pub IsFiled : VoteKey → Vote → Type 0
IsFiled k v = key_of v.epoch v ≡ k

abbrev pub IsBucket : VoteKey × List Vote → Type 0
IsBucket (k, votes) = All (IsFiled k) votes × Distinct (voters votes)

abbrev pub IsWellFormed : VoteCollector → Type 0
IsWellFormed c = All IsBucket c.votes

pub bucket-IsBucket :
    (k : VoteKey) (m : List (VoteKey × List Vote)) → All IsBucket m → IsBucket (k, bucket k m)
bucket-IsBucket k m h = elim (Option-cases (Map.get k m)) [
  | inl e ↦ rw (e, bucket) (tt, tt)
  | inr (vs, e) ↦ rw (e, bucket) (Map.All-get IsBucket k vs m h e)
]

NotIn-voters :
    (id : ℕ) (votes : List Vote) → any (by_validator id) votes ≡ false → NotIn id (voters votes)
NotIn-voters id [] h = tt
NotIn-voters id (v ∷ votes) h = ((λ e. ground arith), NotIn-voters id votes (ground arith))

NotIn-append :
    (id x : ℕ) (votes : List Vote) (v : Vote)
    → NotIn id (voters votes)
    → v.validator ≢ id
    → NotIn id (voters (votes ++ v ∷ []))
NotIn-append id x [] v h n = (n, tt)
NotIn-append id x (w ∷ votes) v h n = (h.0, NotIn-append id x votes v h.1 n)

Distinct-append :
    (votes : List Vote) (v : Vote)
    → Distinct (voters votes)
    → NotIn v.validator (voters votes)
    → Distinct (voters (votes ++ v ∷ []))
Distinct-append [] v d n = (tt, tt)
Distinct-append (w ∷ votes) v d n =
    (NotIn-append w.validator 0 votes v d.0 (λ e. n.0 (sym e)), Distinct-append votes v d.1 n.1)

pub IsBucket-append :
    (k : VoteKey) (votes : List Vote) (v : Vote)
    → IsBucket (k, votes)
    → IsFiled k v
    → any (by_validator v.validator) votes ≡ false
    → IsBucket (k, votes ++ v ∷ [])
IsBucket-append k votes v b f fresh = (
  All-append (IsFiled k) votes (v ∷ []) b.0 (f, tt),
  Distinct-append votes v b.1 (NotIn-voters v.validator votes fresh),
)

file_vote-IsWellFormed :
    (c : VoteCollector) (vs : ValidatorSet) (v : Vote) (k : VoteKey) (p : Option EquivocationProof)
    → IsFiled k v
    → IsWellFormed c
    → IsWellFormed (file_vote c vs v k p).0
unfolding file_vote
file_vote-IsWellFormed c vs v k p f h =
    let old = bucket-IsBucket k c.votes h in
    let touched = Map.All-insert IsBucket k (bucket k c.votes) c.votes old h in
    elim (Bool-cases (any (by_validator v.validator) (bucket k c.votes))) [
      | inl again ↦ rw again touched
      | inr fresh ↦ rw fresh (elim (Bool-cases (is_some (get vs v.validator))) [
        | inl known ↦ rw known (
            Map.All-insert IsBucket k (bucket k c.votes ++ v ∷ []) c.votes
              (IsBucket-append k (bucket k c.votes) v old f fresh) h)
        | inr unknown ↦ rw unknown touched
      ])
    ]

-- Whatever a vote is and whether it is accepted or not, the collector's buckets hold only votes of
-- their key, at most one of each validator.
pub add_vote-IsWellFormed :
    (c : VoteCollector) (vs : ValidatorSet) (v : Vote) (epoch : ℕ)
    → IsWellFormed c
    → IsWellFormed (add_vote c vs v epoch).0
unfolding add_vote
add_vote-IsWellFormed c vs v epoch h = elim (Bool-cases (v.epoch == epoch)) [
  | inl same ↦ elim (Bool-cases (vote_type_eq v.vote_type vote && is_some v.extension)) [
    | inl bad ↦ rw (same, bad) h
    | inr good ↦
        rw (same, good)
          (file_vote-IsWellFormed c vs v (key_of epoch v) (find_equivocation epoch v c.votes)
            (ground arith) h)
  ]
  | inr other ↦ rw other h
]

-- Clearing a view keeps the collector's buckets free of repetition and of votes of another key.
pub clear_view-IsWellFormed :
    (c : VoteCollector) (view : ℕ) → IsWellFormed c → IsWellFormed (clear_view c view)
unfolding clear_view
clear_view-IsWellFormed c view h =
    Map.All-retain_keys IsBucket (λ k. not (k.view == view)) c.votes h

-- So does dropping the buckets of earlier views.
pub prune_before-IsWellFormed :
    (c : VoteCollector) (min_view : ℕ) → IsWellFormed c → IsWellFormed (prune_before c min_view)
unfolding prune_before
prune_before-IsWellFormed c min_view h =
    Map.All-retain_keys IsBucket (λ k. leb min_view k.view) c.votes h

-- Pruning drops the buckets of earlier views and leaves every other bucket as it was.
pub bucket-prune_before :
    (c : VoteCollector) (min_view : ℕ) (k : VoteKey)
    → bucket k (prune_before c min_view).votes
      ≡ (if leb min_view k.view then bucket k c.votes else [])
unfolding prune_before
bucket-prune_before c min_view k =
    ground (arith, Map.get-retain_keys (λ k. leb min_view k.view) k c.votes)
