-- ===== src/Consensus/Commit/Runs.antt =====
-- What the application is asked to do when blocks are committed: every block is executed, in order.
use mathlib.Core.List.{append-nil, append_assoc}
use hotmint.Base.{
  Option-cases, ok, Result-cases, ◌≡◌, refl, sym, ◌∙◌, inl, inr, some, List, [], ◌∷◌, ◌++◌, arith,
}
use hotmint.Consensus.Application.{EndBlockResponse, Application}
use hotmint.Consensus.Commit.{
  Epochs, activate, context_epoch, context_of, apply_response, Progress, apply_evidence,
  execute_committed_block, commit_block, commit_blocks,
}
use hotmint.Consensus.Commit.Loop.{commit_blocks-err, commit_blocks-ok, commit_blocks-nil}
use hotmint.Consensus.Payload.{decode_payload}
use hotmint.Types.Block.{Block}
use hotmint.Types.Epoch.{Epoch}
use hotmint.Types.Evidence.{EquivocationProof}

module _ (app : Application) where
  open app use {AppState, on_evidence, execute_block, on_commit}

  -- The application is told of every piece of evidence in turn.
  abbrev pub Reports : AppState → List EquivocationProof → AppState → Type 0
  Reports a [] a' = a' ≡ a
  Reports a (p ∷ ps) a' = (x : AppState) × (on_evidence a p ≡ some x) × Reports x ps a'

  -- The evidence, then the decoded transactions, then the notice of the commit, under one epoch.
  pub record Executes (a : AppState) (b : Block) (e : Epoch) (r : EndBlockResponse) (a' : AppState)
      : Type 0 where
    pub reported : AppState
    pub ran : AppState
    pub evidence : Reports a b.evidence reported
    pub transactions :
        execute_block reported (decode_payload b.payload) (context_of b e) ≡ some (r, ran)
    pub notified : on_commit ran b (context_of b e) ≡ some a'

  -- The blocks run one after the other, with a response for each, and the epochs go along.
  abbrev pub Runs :
      AppState → Epochs → List Block → List EndBlockResponse → AppState → Epochs → Type 0
  Runs a e [] [] a' e' = (a' ≡ a) × (e' ≡ e)
  Runs a e [] (r ∷ rs) a' e' = ⊥
  Runs a e (b ∷ bs) [] a' e' = ⊥
  Runs a e (b ∷ bs) (r ∷ rs) a' e' =
      (x : AppState) × (y : Epochs) × Executes a b (context_epoch (activate e b.view) b.view) r x
      × (apply_response (activate e b.view) b.view r.validator_updates ≡ ok y)
      × Runs x y bs rs a' e'

  apply_evidence-Reports :
      (a a' : AppState) (ps : List EquivocationProof)
      → apply_evidence app a ps ≡ some a'
      → Reports a ps a'
  unfolding apply_evidence
  apply_evidence-Reports a a' [] h = ground arith
  apply_evidence-Reports a a' (p ∷ ps) h = elim (Option-cases (on_evidence a p)) [
    | inl panics ↦ absurd (ground (arith, panics))
    | inr (x, told) ↦ (x, told, apply_evidence-Reports x a' ps (ground (arith, told)))
  ]

  execute_committed_block-Executes :
      (a a' : AppState) (b : Block) (e : Epoch) (r : EndBlockResponse)
      → execute_committed_block app a b (context_of b e) ≡ some (r, a')
      → Executes a b e r a'
  unfolding execute_committed_block
  execute_committed_block-Executes a a' b e r h =
      elim (Option-cases (apply_evidence app a b.evidence)) [
        | inl panics ↦ absurd (ground (arith, panics))
        | inr (x, told) ↦
            elim (Option-cases (execute_block x (decode_payload b.payload) (context_of b e))) [
              | inl panics ↦ absurd (ground (arith, told, panics))
              | inr ((s, y), ran) ↦ elim (Option-cases (on_commit y b (context_of b e))) [
                | inl panics ↦ absurd (ground (arith, told, ran, panics))
                | inr (z, noted) ↦
                    let same : s ≡ r = ground (arith, told, ran, noted) in
                    let left : z ≡ a' = ground (arith, told, ran, noted) in
                    record {
                      reported = x;
                      ran = y;
                      evidence = apply_evidence-Reports a x b.evidence told;
                      transactions = rw (← same) ran;
                      notified = rw (← left) noted;
                    }
              ]
            ]
      ]

  -- What a round of the loop that succeeds has finished.
  record Ran (p q : Progress AppState) (b : Block) : Type 0 where
    response : EndBlockResponse
    executes : Executes p.state b (context_epoch (activate p.epochs b.view) b.view) response q.state
    updates :
        apply_response (activate p.epochs b.view) b.view response.validator_updates ≡ ok q.epochs
    answers : q.responses ≡ p.responses ++ response ∷ []

  commit_block-Ran :
      (p : Progress AppState) (b : Block)
      → (commit_block app p b).1 ≡ ok tt
      → Ran p (commit_block app p b).0 b
  unfolding commit_block
  commit_block-Ran p b h =
      let e = activate p.epochs b.view in
      let epoch = context_epoch e b.view in
      elim (Option-cases (execute_committed_block app p.state b (context_of b epoch))) [
        | inl panics ↦ absurd (ground (arith, panics))
        | inr ((r, a), runs) ↦ elim (Result-cases (apply_response e b.view r.validator_updates)) [
          | inr (x, refused) ↦ absurd (ground (arith, runs, refused))
          | inl (e', applied) ↦
              rw (commit_block, runs, applied)
                (record {
                  response = r;
                  executes = execute_committed_block-Executes p.state a b epoch r runs;
                  updates = applied;
                  answers = refl;
                })
        ]
      ]

  -- A loop that succeeds has run every block.
  pub commit_blocks-Runs :
      (p : Progress AppState) (chain : List Block)
      → (commit_blocks app p chain).1 ≡ ok tt
      → let q = (commit_blocks app p chain).0 in
        (rs : List EndBlockResponse) × (q.responses ≡ p.responses ++ rs)
        × Runs p.state p.epochs chain rs q.state q.epochs
  commit_blocks-Runs p [] h =
      rw (commit_blocks-nil app p) ([], sym (append-nil p.responses), (refl, refl))
  commit_blocks-Runs p (b ∷ bs) h = elim (Result-cases (commit_block app p b).1) [
    | inr (x, failed) ↦ absurd (ground (arith, commit_blocks-err app p b bs x failed, h))
    | inl (_, finished) ↦
        let m = (commit_block app p b).0 in
        let ran = commit_block-Ran p b finished in
        let step = commit_blocks-ok app p b bs finished in
        let (rs, answers, runs) = commit_blocks-Runs m bs (rw step at h) in
        rw step (
          ran.response ∷ rs,
          answers ∙ rw ran.answers (append_assoc p.responses (ran.response ∷ []) rs),
          (m.state, m.epochs, ran.executes, ran.updates, runs),
        )
  ]
