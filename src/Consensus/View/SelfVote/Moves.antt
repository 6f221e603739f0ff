-- ===== src/Consensus/View/SelfVote/Moves.antt =====
-- What the votes of a leader for its own block do to the vote slots and the certificates.
use hotmint.Base.{
  ◌==◌, Bool-cases, Option-cases, ℕ, ◌≡◌, refl, ap, ◌∙◌, ◌⊎◌, inl, inr, Bool, Option, List, [], ◌∷◌,
  ◌++◌,
}
use hotmint.Base.Bytes.{Bytes}
use hotmint.Consensus.State.{ConsensusState, higher_qc, update_highest_qc, update_locked_qc}
use hotmint.Consensus.State.Guard.{Request, ask}
use hotmint.Consensus.View.{
  Effect, send_status, broadcast_proposal, send_vote, broadcast_prepare, save_last_vote,
  next_leader, saved, own_vote,
}
use hotmint.Consensus.View.Moves.{Moves}
use hotmint.Consensus.View.Prepare.{on_votes_collected}
use hotmint.Consensus.View.SelfVote.{leader_self_vote, route_vote2, self_vote2, on_qc_formed}
use hotmint.Consensus.View.Steps.{
  SameSlots, request_of, requests, Guarded, Rises-same, locked-Rises, certified-Rises, Guarded-from,
  ask-certificates,
}
use hotmint.Consensus.View.Votes.{given}
use hotmint.Types.Certificate.{QuorumCertificate}
use hotmint.Types.Vote.{VoteType, vote, vote2, Vote}

requests-append : (es fs : List Effect) → requests (es ++ fs) ≡ requests es ++ requests fs
requests-append [] fs = refl
requests-append (send_vote to v ∷ es) fs = ap (λ rs. request_of v ∷ rs) (requests-append es fs)
requests-append (send_status to qc id sig ∷ es) fs = requests-append es fs
requests-append (broadcast_proposal b qc dc sig bs ∷ es) fs = requests-append es fs
requests-append (broadcast_prepare qc sig ∷ es) fs = requests-append es fs
requests-append (save_last_vote k view hash ∷ es) fs = requests-append es fs

module _ (blake3 sign : Bytes → Bytes) where
  abbrev vote_of : VoteType → ConsensusState → ℕ → Request
  vote_of k s block_hash = record { kind = k; view = s.current_view; block_hash = block_hash }

  pub leader_self_vote-Moves :
      (s : ConsensusState) (block_hash : ℕ) (persistent : Bool)
      → let r = leader_self_vote blake3 sign s block_hash persistent in
        Moves s r.after (given blake3 sign r)
  unfolding leader_self_vote own_vote
  leader_self_vote-Moves s block_hash persistent =
      let q = vote_of vote s block_hash in
      let (locked, highest, view) = ask-certificates s vote s.current_view block_hash in
      elim (Bool-cases (ask s q).1) [
        | inr refused ↦
            rw (leader_self_vote, refused)
              (record {
                guarded = inr (q, (refl, refl), inl refl);
                rises = Rises-same locked highest;
              })
        | inl allowed ↦
            rw (leader_self_vote, allowed)
              (record {
                guarded = inr (
                  q,
                  (refl, refl),
                  inr (
                    elim (Bool-cases persistent) [
                      | inl on ↦ rw (on, view) refl
                      | inr off ↦ rw (off, view) refl
                    ],
                    allowed,
                  ),
                );
                rises = Rises-same locked highest;
              })
      ]

  route_vote2_lem :
      (s : ConsensusState) (qc : QuorumCertificate) (v : Vote) (disk : List Effect)
      → requests disk ≡ []
      → let r = route_vote2 blake3 sign s qc v disk in
        SameSlots s r.after
        × (r.after.locked_qc ≡ higher_qc s.locked_qc qc)
        × (r.after.highest_qc ≡ s.highest_qc)
        × ((given blake3 sign r ≡ []) ⊎ (given blake3 sign r ≡ request_of v ∷ []))
  unfolding route_vote2 update_locked_qc
  route_vote2_lem s qc v disk silent =
      elim (Option-cases (next_leader s.validator_set s.current_view)) [
        | inl nobody ↦ rw (route_vote2, nobody) ((refl, refl), refl, refl, inl (rw silent refl))
        | inr (l, leads) ↦ elim (Bool-cases (l == s.validator_id)) [
          | inl self ↦
              rw (route_vote2, leads, self) ((refl, refl), refl, refl, inr (rw silent refl))
          | inr other ↦
              rw (route_vote2, leads, other)
                (
                  (refl, refl),
                  refl,
                  refl,
                  inr (rw (requests-append disk (send_vote l v ∷ []), silent) refl),
                )
        ]
      ]

  self_vote2_lem :
      (s : ConsensusState) (qc : QuorumCertificate) (ext : Option Bytes) (persistent : Bool)
      → let r = self_vote2 blake3 sign s qc ext persistent in
        Guarded s r.after (given blake3 sign r)
        × (r.after.highest_qc ≡ s.highest_qc)
        × ((r.after.locked_qc ≡ s.locked_qc) ⊎ (r.after.locked_qc ≡ higher_qc s.locked_qc qc))
  unfolding self_vote2 own_vote
  self_vote2_lem s qc ext persistent =
      let q = vote_of vote2 s qc.block_hash in
      let (locked, highest, view) = ask-certificates s vote2 s.current_view qc.block_hash in
      elim (Bool-cases (ask s q).1) [
        | inr refused ↦
            rw (self_vote2, refused) (inr (q, (refl, refl), inl refl), highest, inl locked)
        | inl allowed ↦
            let (slots, lock, same, cast) =
              route_vote2_lem (ask s q).0 qc
                (own_vote blake3 sign (ask s q).0 qc.block_hash vote2 ext)
                (saved persistent vote2 s.current_view qc.block_hash)
                (elim (Bool-cases persistent) [ inl on ↦ rw on refl | inr off ↦ rw off refl ]) in
            rw (self_vote2, allowed)
              (
                inr (
                  q,
                  slots,
                  elim cast [
                    | inl silent ↦ inl silent
                    | inr sent ↦ inr (sent ∙ rw view refl, allowed)
                  ],
                ),
                same ∙ highest,
                inr (lock ∙ rw locked refl),
              )
      ]

  pub on_qc_formed-Moves :
      (s : ConsensusState) (qc : QuorumCertificate) (ext : Option Bytes) (persistent : Bool)
      → let r = on_qc_formed blake3 sign s qc ext persistent in
        Moves s r.after (given blake3 sign r)
  unfolding on_qc_formed on_votes_collected update_highest_qc
  on_qc_formed-Moves s qc ext persistent =
      let u = (on_votes_collected blake3 sign s qc).after in
      let r = self_vote2 blake3 sign u qc ext persistent in
      let (guarded, highest, lock) = self_vote2_lem u qc ext persistent in
      record {
        guarded = Guarded-from s u r.after (given blake3 sign r) (refl, refl) guarded;
        rises = elim lock [
          | inl kept ↦ certified-Rises s r.after qc kept highest
          | inr moved ↦ locked-Rises s r.after qc moved highest
        ];
      }
