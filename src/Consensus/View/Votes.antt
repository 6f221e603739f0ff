-- ===== src/Consensus/View/Votes.antt =====
-- Every vote of a step, and what the prepare message does to the vote slots and the certificates.
use hotmint.Base.{
  ltb, Bool-cases, Option-cases, ok, err, ℕ, ◌≡◌, refl, ◌∙◌, ◌⊎◌, inl, inr, Bool, Option, none,
  some, List, [], ◌∷◌, ◌++◌,
}
use hotmint.Base.Bytes.{Bytes}
use hotmint.Consensus.State.{ConsensusState, update_highest_qc, update_locked_qc}
use hotmint.Consensus.State.Guard.{Request, ask}
use hotmint.Consensus.View.{Reply, next_leader, own_vote}
use hotmint.Consensus.View.Prepare.{has_voted, hand_out, second_vote, on_prepare}
use hotmint.Consensus.View.Steps.{
  request_of, requests, Guarded, Rises, Rises-same, Rises-trans, lock_both-Rises, lock_both-slots,
  Same, Guarded-from, ask-certificates,
}
use hotmint.Types.Certificate.{QuorumCertificate}
use hotmint.Types.Validator.{power_of}
use hotmint.Types.Vote.{vote2, Vote}

module _ (blake3 sign : Bytes → Bytes) where
  -- The vote that a handler hands back.
  abbrev pub handed : Reply ConsensusState (Option (ℕ × Vote)) → List Request
  handed r = elim r.result [
    | err x ↦ []
    | ok o ↦ elim o [ none ↦ [] | some (l, v) ↦ request_of v ∷ [] ]
  ]

  -- Every vote of a step, sent or handed back.
  abbrev pub given : Reply ConsensusState (Option (ℕ × Vote)) → List Request
  given r = requests r.effects ++ handed r

  abbrev second_of : ConsensusState → QuorumCertificate → Request
  second_of s qc = record { kind = vote2; view = s.current_view; block_hash = qc.block_hash }

  hand_out_lem :
      (s : ConsensusState) (qc : QuorumCertificate) (ext : Option Bytes) (persistent : Bool)
      → Same s (hand_out blake3 sign s qc ext persistent).after
        × ((given (hand_out blake3 sign s qc ext persistent) ≡ [])
            ⊎ (given (hand_out blake3 sign s qc ext persistent) ≡ second_of s qc ∷ []))
  unfolding hand_out own_vote
  hand_out_lem s qc ext persistent =
      elim (Option-cases (next_leader s.validator_set s.current_view)) [
        | inl nobody ↦
            rw (hand_out, nobody)
              (
                record { locked = refl; highest = refl; slots = (refl, refl) },
                inl (elim (Bool-cases persistent) [ inl on ↦ rw on refl | inr off ↦ rw off refl ]),
              )
        | inr (l, leads) ↦
            rw (hand_out, leads)
              (
                record { locked = refl; highest = refl; slots = (refl, refl) },
                inr (elim (Bool-cases persistent) [ inl on ↦ rw on refl | inr off ↦ rw off refl ]),
              )
      ]

  second_vote-Guarded :
      (s : ConsensusState) (qc : QuorumCertificate) (ext : Option Bytes) (persistent : Bool)
      → Guarded s
          (second_vote blake3 sign s qc ext persistent).after
          (given (second_vote blake3 sign s qc ext persistent))
        × ((second_vote blake3 sign s qc ext persistent).after.locked_qc ≡ s.locked_qc)
        × ((second_vote blake3 sign s qc ext persistent).after.highest_qc ≡ s.highest_qc)
  unfolding second_vote
  second_vote-Guarded s qc ext persistent =
      let r = second_of s qc in
      let (locked, highest, view) = ask-certificates s vote2 s.current_view qc.block_hash in
      elim (Bool-cases (ltb 0 (power_of s.validator_set s.validator_id))) [
        | inr powerless ↦ rw (second_vote, powerless) (inl ((refl, refl), refl), refl, refl)
        | inl powered ↦ elim (Bool-cases (ask s r).1) [
          | inr refused ↦
              rw (second_vote, powered, refused) (inr (r, (refl, refl), inl refl), locked, highest)
          | inl allowed ↦
              let (same, cast) = hand_out_lem (ask s r).0 qc ext persistent in
              rw (second_vote, powered, allowed)
                (
                  inr (
                    r,
                    same.slots,
                    elim cast [
                      | inl silent ↦ inl silent
                      | inr sent ↦ inr (sent ∙ rw view refl, allowed)
                    ],
                  ),
                  same.locked ∙ locked,
                  same.highest ∙ highest,
                )
        ]
      ]

  pub on_prepare-Guarded :
      (s : ConsensusState) (qc : QuorumCertificate) (ext : Option Bytes) (persistent : Bool)
      → Guarded s
          (on_prepare blake3 sign s qc ext persistent).after
          (given (on_prepare blake3 sign s qc ext persistent))
        × Rises s (on_prepare blake3 sign s qc ext persistent).after
  unfolding on_prepare
  on_prepare-Guarded s qc ext persistent = elim (Bool-cases (has_voted s.step)) [
    | inr early ↦ rw (on_prepare, early) (inl ((refl, refl), refl), Rises-same refl refl)
    | inl voted_before ↦
        let u = update_highest_qc (update_locked_qc s qc) qc in
        let (guarded, locked, highest) = second_vote-Guarded u qc ext persistent in
        rw (on_prepare, voted_before)
          (
            Guarded-from s u (second_vote blake3 sign u qc ext persistent).after
                (given (second_vote blake3 sign u qc ext persistent)) (lock_both-slots s qc)
                guarded,
            Rises-trans (lock_both-Rises s qc) (Rises-same locked highest),
          )
  ]
