-- ===== src/Consensus/VoteCollector/Certify.antt =====
-- When a vote completes a certificate, and that valid votes are never refused.
use hotmint.Base.Map
use hotmint.Base.{
  ◌==◌, if◌then◌else◌, Bool-cases, is_some, length, get_elem?, any, Result, ok, Result-cases, ℕ,
  suc, ◌+◌, ◌≤◌, ◌≡◌, refl, ap, ◌∙◌, subst, ◌↔◌, ◌⊎◌, inl, inr, Bool, true, false, ◌&&◌, Option,
  none, some, List, [], ◌∷◌, ◌++◌, arith,
}
use hotmint.Aggregate.{aggregate_votes, has_quorum}
use hotmint.Aggregate.Intersection.{signed_power, has_quorum_iff, flagged}
use hotmint.Aggregate.Votes.{voted, aggregate_votes_lem}
use hotmint.Base.Map.{get-insert, nat_eq, text_eq}
use hotmint.Consensus.VoteCollector.{
  VoteKey, key_eq_iff, VoteCollector, VoteResult, CollectError, key_of, by_validator,
  find_equivocation, bucket, certify, collect_result, file_vote, add_vote, vote_key_eq,
}
use hotmint.Types.Certificate.{QuorumCertificate}
use hotmint.Types.Crypto.{AggregateSignature, IsAligned}
use hotmint.Types.Evidence.{EquivocationProof}
use hotmint.Types.Validator.{ValidatorInfo, ValidatorSet, quorum_threshold}
use hotmint.Types.Validator.Valid.{IsValid}
use hotmint.Types.Vote.{vote, vote_type_eq, Vote}

-- The power of the members among the voters.
abbrev pub voted_power : List Vote → List ValidatorInfo → ℕ
voted_power votes [] = 0
voted_power votes (w ∷ ws) =
    if voted w.id votes then w.power + voted_power votes ws else voted_power votes ws

signed_power-voted :
    (votes : List Vote) (bs : List Bool) (ws : List ValidatorInfo)
    → length bs ≡ length ws
    → ((i : ℕ) (w : ValidatorInfo) → get_elem? ws i ≡ some w → flagged bs i ≡ voted w.id votes)
    → signed_power bs ws ≡ voted_power votes ws
signed_power-voted votes [] [] l h = refl
signed_power-voted votes [] (w ∷ ws) l h = absurd (omega arith)
signed_power-voted votes (b ∷ bs) [] l h = absurd (omega arith)
signed_power-voted votes (b ∷ bs) (w ∷ ws) l h =
    ground
      (arith, h 0 w refl, signed_power-voted votes bs ws (omega arith) (λ i x at. h (suc i) x at))

has_quorum-voted :
    (vs : ValidatorSet) (votes : List Vote) (agg : AggregateSignature)
    → IsValid vs
    → aggregate_votes vs votes ≡ ok agg
    → (has_quorum vs agg ≡ true) ↔ (quorum_threshold vs ≤ voted_power votes vs.validators)
has_quorum-voted vs votes agg valid e =
    let (_, sized, flags) = aggregate_votes_lem vs votes agg valid e in
    let same = signed_power-voted votes agg.signers vs.validators sized flags in
    (
      (λ q. rw (← same) ((has_quorum_iff vs agg valid).0 q)),
      (λ q. (has_quorum_iff vs agg valid).1 (rw same q)),
    )

-- An accepted vote is a repetition, or joins its bucket, which is then aggregated.
abbrev Filed :
    VoteCollector → ValidatorSet → Vote → VoteKey → Option EquivocationProof → VoteResult → Type 0
Filed c vs v k p r =
    (agg : AggregateSignature) × (any (by_validator v.validator) (bucket k c.votes) ≡ false)
    × (aggregate_votes vs (bucket k c.votes ++ v ∷ []) ≡ ok agg)
    × (r ≡ certify vs k (bucket k c.votes ++ v ∷ []) agg p)
    × ((file_vote c vs v k p).0.votes ≡ Map.insert k (bucket k c.votes ++ v ∷ []) c.votes)

file_vote_cases :
    (c : VoteCollector) (vs : ValidatorSet) (v : Vote) (k : VoteKey) (p : Option EquivocationProof)
    (r : VoteResult)
    → (file_vote c vs v k p).1 ≡ ok r
    → ((any (by_validator v.validator) (bucket k c.votes) ≡ true) × (r.qc ≡ none))
      ⊎ Filed c vs v k p r
unfolding file_vote collect_result
file_vote_cases c vs v k p r h =
    elim (Bool-cases (any (by_validator v.validator) (bucket k c.votes))) [
      | inl again ↦ inl (again, ground arith)
      | inr fresh ↦ elim (Result-cases (aggregate_votes vs (bucket k c.votes ++ v ∷ []))) [
        | inl (agg, e) ↦ inr (agg, fresh, e, ground arith, ground arith)
        | inr (x, e) ↦ ground arith
      ]
    ]

add_vote-file_vote :
    (c : VoteCollector) (vs : ValidatorSet) (v : Vote) (epoch : ℕ) (r : VoteResult)
    → (add_vote c vs v epoch).1 ≡ ok r
    → add_vote c vs v epoch ≡ file_vote c vs v (key_of epoch v) (find_equivocation epoch v c.votes)
unfolding add_vote
add_vote-file_vote c vs v epoch r h = elim (Bool-cases (v.epoch == epoch)) [
  | inl same ↦ elim (Bool-cases (vote_type_eq v.vote_type vote && is_some v.extension)) [
    | inl bad ↦ absurd (ground arith)
    | inr good ↦ rw (same, good)
  ]
  | inr other ↦ absurd (ground arith)
]

pub bucket-insert :
    (k : VoteKey) (votes : List Vote) (m : List (VoteKey × List Vote))
    → bucket k (Map.insert k votes m) ≡ votes
bucket-insert k votes m = ground (arith, Map.get-insert k k votes m, (key_eq_iff k k).1 refl)

-- The certificate is of the vote's block, view and epoch, has a quorum, and flags exactly the members
-- with a vote in the bucket.
pub record Certifies (vs : ValidatorSet) (v : Vote) (epoch : ℕ) (votes : List Vote)
    (qc : QuorumCertificate) : Type 0 where
  pub of_block : qc.block_hash ≡ v.block_hash
  pub of_view : qc.view ≡ v.view
  pub of_epoch : qc.epoch ≡ epoch
  pub quorum : has_quorum vs qc.aggregate_signature ≡ true
  pub aligned : IsAligned qc.aggregate_signature
  pub flags :
      (i : ℕ) (w : ValidatorInfo)
      → get_elem? vs.validators i ≡ some w
      → flagged qc.aggregate_signature.signers i ≡ voted w.id votes

certify-Certifies :
    (vs : ValidatorSet) (v : Vote) (epoch : ℕ) (votes : List Vote) (agg : AggregateSignature)
    (p : Option EquivocationProof) (qc : QuorumCertificate)
    → IsValid vs
    → aggregate_votes vs votes ≡ ok agg
    → (certify vs (key_of epoch v) votes agg p).qc ≡ some qc
    → Certifies vs v epoch votes qc
unfolding certify
certify-Certifies vs v epoch votes agg p qc valid e h =
    let (aligned, _, flags) = aggregate_votes_lem vs votes agg valid e in
    let same : agg ≡ qc.aggregate_signature = ground arith in
    record {
      of_block = ground arith;
      of_view = ground arith;
      of_epoch = ground arith;
      quorum = ground arith;
      aligned = subst IsAligned same aligned;
      flags = λ i w at. subst (λ a. flagged a.signers i ≡ voted w.id votes) same (flags i w at);
    }

certify-some :
    (vs : ValidatorSet) (k : VoteKey) (votes : List Vote) (agg : AggregateSignature)
    (p : Option EquivocationProof)
    → is_some (certify vs k votes agg p).qc ≡ has_quorum vs agg
unfolding certify
certify-some vs k votes agg p = ground arith

-- With a valid set, an accepted vote yields a certificate exactly if it is not a repetition and the
-- members in its bucket, with its own, reach the threshold; the certificate is theirs.
pub add_vote-Certifies :
    (c : VoteCollector) (vs : ValidatorSet) (v : Vote) (epoch : ℕ) (r : VoteResult)
    → IsValid vs
    → (add_vote c vs v epoch).1 ≡ ok r
    → let votes = bucket (key_of epoch v) (add_vote c vs v epoch).0.votes in
      ((is_some r.qc ≡ true) ↔ (
        (any (by_validator v.validator) (bucket (key_of epoch v) c.votes) ≡ false)
        × (quorum_threshold vs ≤ voted_power votes vs.validators)))
      × ((qc : QuorumCertificate) → r.qc ≡ some qc → Certifies vs v epoch votes qc)
add_vote-Certifies c vs v epoch r valid h =
    let e = add_vote-file_vote c vs v epoch r h in
    let k = key_of epoch v in
    let p = find_equivocation epoch v c.votes in
    elim (file_vote_cases c vs v k p r (rw e at h)) [
      | inl (again, no_qc) ↦ (((λ q. ground arith), (λ q. ground arith)), (λ qc q. ground arith))
      | inr (agg, fresh, made, certified, filed) ↦
          let now : bucket k (add_vote c vs v epoch).0.votes ≡ bucket k c.votes ++ v ∷ [] =
            ap (λ (x : VoteCollector × Result CollectError VoteResult). bucket k x.0.votes) e
            ∙ ap (bucket k) filed
            ∙ bucket-insert k (bucket k c.votes ++ v ∷ []) c.votes in
          let quorum = has_quorum-voted vs (bucket k c.votes ++ v ∷ []) agg valid made in
          let found = certify-some vs k (bucket k c.votes ++ v ∷ []) agg p in
          rw now (
            (
              (λ q. (fresh, quorum.0 (ground (arith, q, certified, found)))),
              (λ (_, q). ground (arith, quorum.1 q, certified, found)),
            ),
            (λ qc q.
                certify-Certifies vs v epoch (bucket k c.votes ++ v ∷ []) agg p qc valid made
                  (rw (← certified) q)),
          )
    ]
