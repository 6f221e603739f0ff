-- ===== src/Consensus/VoteCollector/Accept.antt =====
-- A bucket of members' votes never becomes stuck.
use hotmint.Base.{
  ◌==◌, Bool-cases, Option-cases, is_some, any, All, All-append, ok, ℕ, ◌≡◌, refl, inl, inr, true,
  false, ◌&&◌, Option, none, some, List, [], ◌∷◌, ◌++◌, arith,
}
use hotmint.Aggregate.Votes.{IsMember, aggregate_votes-ok}
use hotmint.Base.Distinct.{Distinct}
use hotmint.Base.Map.{nat_eq, text_eq}
use hotmint.Consensus.VoteCollector.{
  VoteKey, VoteCollector, VoteResult, key_of, by_validator, find_equivocation, bucket, certify,
  collect_result, file_vote, add_vote, vote_key_eq,
}
use hotmint.Consensus.VoteCollector.Buckets.{
  voters, IsFiled, IsBucket, IsWellFormed, bucket-IsBucket, IsBucket-append,
}
use hotmint.Consensus.VoteCollector.Certify.{bucket-insert}
use hotmint.Types.Crypto.{new}
use hotmint.Types.Evidence.{EquivocationProof}
use hotmint.Types.Validator.{get, ValidatorSet, index_of}
use hotmint.Types.Validator.Valid.{IsValid}
use hotmint.Types.Vote.{vote, vote_type_eq, Vote}

abbrev pub IsKnown : ValidatorSet → Vote → Type 0
IsKnown vs v = is_some (get vs v.validator) ≡ true

known_index :
    (vs : ValidatorSet) (v : Vote) → IsKnown vs v → (j : ℕ) × (index_of vs v.validator ≡ some j)
unfolding get
known_index vs v h = elim (Option-cases (index_of vs v.validator)) [
  | inl e ↦ absurd (ground arith)
  | inr found ↦ found
]

known_indices :
    (vs : ValidatorSet) (valid : IsValid vs) (votes : List Vote)
    → All (IsKnown vs) votes
    → All (IsMember vs valid) votes
known_indices vs valid [] h = tt
known_indices vs valid (v ∷ votes) h = (known_index vs v h.0, known_indices vs valid votes h.1)

collects :
    (vs : ValidatorSet) (k : VoteKey) (votes : List Vote) (p : Option EquivocationProof)
    → IsValid vs
    → Distinct (voters votes)
    → All (IsKnown vs) votes
    → (r : VoteResult) × (collect_result vs k votes p ≡ ok r)
unfolding collect_result
collects vs k votes p valid d known =
    let (agg, e) = aggregate_votes-ok vs valid votes d (known_indices vs valid votes known) in
    (certify vs k votes agg p, rw (e, collect_result))

file_vote-accepts :
    (c : VoteCollector) (vs : ValidatorSet) (v : Vote) (k : VoteKey) (p : Option EquivocationProof)
    → IsValid vs
    → IsBucket (k, bucket k c.votes)
    → IsFiled k v
    → All (IsKnown vs) (bucket k c.votes)
    → IsKnown vs v
    → ((r : VoteResult) × ((file_vote c vs v k p).1 ≡ ok r))
      × All (IsKnown vs) (bucket k (file_vote c vs v k p).0.votes)
unfolding file_vote
file_vote-accepts c vs v k p valid b f known new =
    elim (Bool-cases (any (by_validator v.validator) (bucket k c.votes))) [
      | inl again ↦ rw again (
        (record { qc = none; equivocation = p; extensions = [] }, refl),
        rw (bucket-insert k (bucket k c.votes) c.votes) known,
      )
      | inr fresh ↦
          let all = All-append (IsKnown vs) (bucket k c.votes) (v ∷ []) known (new, tt) in
          let d = IsBucket-append k (bucket k c.votes) v b f fresh in
          rw (fresh, new)
            (
              collects vs k (bucket k c.votes ++ v ∷ []) p valid d.1 all,
              rw (bucket-insert k (bucket k c.votes ++ v ∷ []) c.votes) all,
            )
    ]

-- With a valid set, a member's vote of the collector's epoch, with no extension in the first phase, is
-- never refused where its bucket holds only members' votes; and then the bucket still does.
pub add_vote_accepts :
    (c : VoteCollector) (vs : ValidatorSet) (v : Vote) (epoch : ℕ)
    → IsValid vs
    → IsWellFormed c
    → All (IsKnown vs) (bucket (key_of epoch v) c.votes)
    → IsKnown vs v
    → v.epoch ≡ epoch
    → (v.vote_type ≡ vote → v.extension ≡ none)
    → ((r : VoteResult) × ((add_vote c vs v epoch).1 ≡ ok r))
      × All (IsKnown vs) (bucket (key_of epoch v) (add_vote c vs v epoch).0.votes)
unfolding add_vote
add_vote_accepts c vs v epoch valid wf known new same plain =
    let allowed : (vote_type_eq v.vote_type vote && is_some v.extension) ≡ false =
      ground (arith, plain) in
    let checked : (v.epoch == epoch) ≡ true = ground arith in
    rw (checked, allowed)
      (file_vote-accepts c vs v (key_of epoch v) (find_equivocation epoch v c.votes) valid
        (bucket-IsBucket (key_of epoch v) c.votes wf) (ground arith) known new)
