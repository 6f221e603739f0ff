-- ===== src/Consensus/View/Moves.antt =====
-- What a proposal does to the vote slots and the certificates.
use hotmint.Base.{
  ltb, ◌==◌, Bool-cases, Option-cases, Result-cases, ℕ, ◌≡◌, refl, ◌∙◌, ◌⊎◌, inl, inr, Bool, not,
  ◌&&◌, List, [], ◌∷◌,
}
use hotmint.Base.Bytes.{Bytes}
use hotmint.Consensus.Application.{Application}
use hotmint.Consensus.Commit.{CommitResult, try_commit}
use hotmint.Consensus.State.{ConsensusState, update_highest_qc}
use hotmint.Consensus.State.Guard.{Request, ask}
use hotmint.Consensus.Store.{BlockStore}
use hotmint.Consensus.View.{own_vote}
use hotmint.Consensus.View.Checks.{check_proposal}
use hotmint.Consensus.View.Proposal.{
  ProposalData, ProposalResult, EpochContext, nothing, waits_for_proposal, Node, no_blocks,
  after_commit, result_with, cast_vote, first_vote, accept, on_proposal,
}
use hotmint.Consensus.View.Steps.{
  SameSlots, requests, Guarded, Rises, Rises-same, Rises-trans, update_highest_qc-Rises,
  update_highest_qc-slots, Same, Guarded-from, ask-certificates,
}
use hotmint.Types.Block.{Block}
use hotmint.Types.Validator.{leader_for_view, power_of}
use hotmint.Types.Vote.{vote}

-- What a step does to the state, with the votes it gives.
pub record Moves (s t : ConsensusState) (o : List Request) : Type 0 where
  pub guarded : Guarded s t o
  pub rises : Rises s t

module _ (bs : BlockStore) (app : Application) (blake3 sign : Bytes → Bytes)
    (verify : Bytes → Bytes → Bytes → Bool) (persistent : Bool) where
  open bs use {Store}
  open app use {AppState}

  abbrev first_of : ConsensusState → Block → Request
  first_of s b = record { kind = vote; view = s.current_view; block_hash = b.hash }

  cast_vote_lem :
      (n : Node Store AppState) (b : Block) (r : ProposalResult)
      → let t = cast_vote bs app blake3 sign verify persistent n b r in
        Same n.state t.after.state
        × ((requests t.effects ≡ []) ⊎ (requests t.effects ≡ first_of n.state b ∷ []))
  unfolding cast_vote own_vote
  cast_vote_lem n b r =
      elim (Option-cases (leader_for_view n.state.validator_set n.state.current_view)) [
        | inl nobody ↦
            rw (cast_vote, nobody)
              (
                record { locked = refl; highest = refl; slots = (refl, refl) },
                inl (elim (Bool-cases persistent) [ inl on ↦ rw on refl | inr off ↦ rw off refl ]),
              )
        | inr (l, leads) ↦
            rw (cast_vote, leads)
              (
                record { locked = refl; highest = refl; slots = (refl, refl) },
                inr (elim (Bool-cases persistent) [ inl on ↦ rw on refl | inr off ↦ rw off refl ]),
              )
      ]

  first_vote-Moves :
      (n : Node Store AppState) (b : Block) (r : ProposalResult)
      → let t = first_vote bs app blake3 sign verify persistent n b r in
        Moves n.state t.after.state (requests t.effects)
  unfolding first_vote
  first_vote-Moves n b r =
      let s = n.state in
      let q = first_of s b in
      let (locked, highest, view) = ask-certificates s vote s.current_view b.hash in
      elim (Bool-cases (app.tracks_app_hash && not (b.app_hash == s.last_app_hash))) [
        | inl strange ↦
            rw (first_vote, strange)
              (record { guarded = inl ((refl, refl), refl); rises = Rises-same refl refl })
        | inr known ↦ elim (Bool-cases (ltb 0 (power_of s.validator_set s.validator_id))) [
          | inr powerless ↦
              rw (first_vote, known, powerless)
                (record { guarded = inl ((refl, refl), refl); rises = Rises-same refl refl })
          | inl powered ↦
              let n' : Node Store AppState = record n { state = (ask s q).0 } in
              elim (Bool-cases (ask s q).1) [
                | inr refused ↦
                    rw (first_vote, known, powered, refused)
                      (record {
                        guarded = inr (q, (refl, refl), inl refl);
                        rises = Rises-same locked highest;
                      })
                | inl allowed ↦
                    let (same, cast) = cast_vote_lem n' b r in
                    rw (first_vote, known, powered, allowed)
                      (record {
                        guarded = inr (
                          q,
                          same.slots,
                          elim cast [
                            | inl silent ↦ inl silent
                            | inr sent ↦ inr (sent ∙ rw view refl, allowed)
                          ],
                        );
                        rises = Rises-same (same.locked ∙ locked) (same.highest ∙ highest);
                      })
              ]
        ]
      ]

  Moves-from :
      (s u t : ConsensusState) (o : List Request)
      → SameSlots s u
      → Rises s u
      → Moves u t o
      → Moves s t o
  Moves-from s u t o same rises m = record {
    guarded = Guarded-from s u t o same m.guarded;
    rises = Rises-trans rises m.rises;
  }

  after_commit-Same : (s : ConsensusState) (h : ℕ) (r : CommitResult) → Same s (after_commit s h r)
  after_commit-Same s h r = elim (Bool-cases (no_blocks r.committed_blocks)) [
    | inl e ↦ rw e (record { locked = refl; highest = refl; slots = (refl, refl) })
    | inr e ↦ rw e (record { locked = refl; highest = refl; slots = (refl, refl) })
  ]

  accept-Moves :
      (n : Node Store AppState) (p : ProposalData) (e : EpochContext)
      → let t = accept bs app blake3 sign verify persistent n p e in
        Moves n.state t.after.state (requests t.effects)
  unfolding accept
  accept-Moves n p e = elim (Option-cases p.double_cert) [
    | inl no_cert ↦ rw (accept, no_cert) (first_vote-Moves n p.block nothing)
    | inr (dc, present) ↦
        let s = n.state in
        let run =
          try_commit app (bs.get_block n.store) (bs.get_block_by_height n.store) dc n.app_state
            s.last_committed_height s.current_epoch e.previous_epoch e.in_flight_pending in
        elim (Result-cases run.1) [
          | inr (x, failed) ↦
              rw (accept, present, failed)
                (record { guarded = inl ((refl, refl), refl); rises = Rises-same refl refl })
          | inl (result, committed) ↦
              let n' : Node Store AppState = record n {
                state = after_commit s run.0.1 result;
                app_state = run.0.0;
              } in
              let same = after_commit-Same s run.0.1 result in
              let t =
                first_vote bs app blake3 sign verify persistent n' p.block (result_with result) in
              rw (accept, present, committed)
                (Moves-from s n'.state t.after.state (requests t.effects) same.slots
                  (Rises-same same.locked same.highest)
                  (first_vote-Moves n' p.block (result_with result)))
        ]
  ]

  pub on_proposal-Moves :
      (n : Node Store AppState) (p : ProposalData) (now : ℕ) (e : EpochContext)
      → let t = on_proposal bs app blake3 sign verify persistent n p now e in
        Moves n.state t.after.state (requests t.effects)
  unfolding on_proposal
  on_proposal-Moves n p now e = elim (Bool-cases (waits_for_proposal n.state.step)) [
    | inr busy ↦
        rw (on_proposal, busy)
          (record { guarded = inl ((refl, refl), refl); rises = Rises-same refl refl })
    | inl waits ↦
        elim (Result-cases (
          check_proposal blake3 verify app (bs.get_block n.store) n.state n.app_state p.block
            p.justify now e.previous_epoch)) [
              | inr (x, refused) ↦
                  rw (on_proposal, waits, refused)
                    (record { guarded = inl ((refl, refl), refl); rises = Rises-same refl refl })
              | inl (_, passed) ↦
                  let n' : Node Store AppState = record n {
                    store = bs.put_block n.store p.block;
                    state = update_highest_qc n.state p.justify;
                  } in
                  let t = accept bs app blake3 sign verify persistent n' p e in
                  rw (on_proposal, waits, passed)
                    (Moves-from n.state n'.state t.after.state (requests t.effects)
                      (update_highest_qc-slots n.state p.justify)
                      (update_highest_qc-Rises n.state p.justify) (accept-Moves n' p e))
            ]
  ]
