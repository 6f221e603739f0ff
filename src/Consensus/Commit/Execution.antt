-- ===== src/Consensus/Commit/Execution.antt =====
-- What a commit does to the state: the blocks are executed in order, and the height only rises.
use hotmint.Base.{
  leb, Bool-cases, Option-cases, length, length-append, Result, ok, err, Result-cases, ℕ, suc, ◌+◌,
  ◌≤◌, ◌<◌, ◌≡◌, refl, sym, ap, ◌∙◌, subst, ◌≢◌, inl, inr, false, Option, none, some, List, [], ◌∷◌,
  ◌++◌, arith,
}
use hotmint.Consensus.Application.{EndBlockResponse, Application}
use hotmint.Consensus.Commit.{
  CommitError, CommitResult, walk, Epochs, activate, context_epoch, context_of, apply_response,
  Progress, start, result_of, execute_committed_block, commit_block, commit_blocks, try_commit,
}
use hotmint.Consensus.Commit.Chain.{Linked, tip, Extends, walk-Extends}
use hotmint.Consensus.Commit.Loop.{commit_blocks-err, commit_blocks-ok, commit_blocks-nil}
use hotmint.Consensus.Commit.Runs.{Runs, commit_blocks-Runs}
use hotmint.Types.Block.{Block}
use hotmint.Types.Certificate.{DoubleCertificate}
use hotmint.Types.Epoch.{Epoch}

abbrev pub epochs_before : Epoch → Option Epoch → Option Epoch → Epochs
epochs_before current previous in_flight = record {
  pending = in_flight;
  activated = none;
  active = current;
  previous = previous;
}

module _ (app : Application) where
  open app use {AppState}

  -- What a commit that runs leaves, from the application's state `a` and the epochs `e`: the state
  -- `a'`, the height `h` and the result `r`.
  pub record Committed (by_hash by_height : ℕ → Option Block) (last : ℕ) (top : Block)
      (a a' : AppState) (e : Epochs) (h : ℕ) (r : CommitResult) : Type 0 where
    pub extends : Extends by_hash by_height last top r.committed_blocks
    pub reached : h ≡ top.height
    pub whole : last + length r.committed_blocks ≡ top.height
    pub ran :
        (e' : Epochs) × Runs app a e r.committed_blocks r.block_responses a' e'
        × (r.pending_epoch ≡ e'.pending)
        × (r.activated_epoch ≡ e'.activated)

  -- What a round of the loop leaves, whether it succeeds or not.
  record Left (p : Progress AppState) (b : Block) (q : Progress AppState)
      (r : Result CommitError (Unit {0})) : Type 0 where
    done :
        r ≡ ok tt
        → (q.last_committed_height ≡ b.height) × (length q.responses ≡ suc (length p.responses))
    failed :
        r ≢ ok tt
        → (q.last_committed_height ≡ p.last_committed_height)
          × (length q.responses ≡ length p.responses)

  commit_block-Left :
      (p : Progress AppState) (b : Block)
      → Left p b (commit_block app p b).0 (commit_block app p b).1
  unfolding commit_block
  commit_block-Left p b =
      let e = activate p.epochs b.view in
      let run = execute_committed_block app p.state b (context_of b (context_epoch e b.view)) in
      elim (Option-cases run) [
        | inl panics ↦ rw (commit_block, panics) (stuck refl refl)
        | inr (x, runs) ↦ elim (Result-cases (apply_response e b.view x.0.validator_updates)) [
          | inr (_, refused) ↦ rw (commit_block, runs, refused) (stuck refl refl)
          | inl (_, applied) ↦
              rw (commit_block, runs, applied)
                (record { done = λ _. (refl, one_more x.0); failed = λ f. absurd (f refl) })
        ]
      ]
    where
      stuck :
          {q : Progress AppState} {x : CommitError}
          → q.last_committed_height ≡ p.last_committed_height
          → q.responses ≡ p.responses
          → Left p b q (err x)
      stuck h l = record { done = λ d. absurd (ground arith); failed = λ _. (h, rw l refl) }

      one_more :
          (response : EndBlockResponse)
          → length (p.responses ++ response ∷ []) ≡ suc (length p.responses)
      one_more response = omega (arith, length-append p.responses (response ∷ []))

  -- What the loop leaves over a linked chain that starts at the height committed last.
  record Reached (p q : Progress AppState) (r : Result CommitError (Unit {0})) (base : Block)
      (chain : List Block) : Type 0 where
    above : p.last_committed_height ≤ q.last_committed_height
    below : q.last_committed_height ≤ (tip base chain).height
    responses :
        q.last_committed_height + length p.responses ≡ p.last_committed_height + length q.responses
    finished : r ≡ ok tt → q.last_committed_height ≡ (tip base chain).height

  tip-Linked :
      (by_hash : ℕ → Option Block) (base : Block) (chain : List Block)
      → Linked by_hash base chain
      → (tip base chain).height ≡ base.height + length chain
  tip-Linked by_hash base [] l = omega arith
  tip-Linked by_hash base (b ∷ bs) (_, height, l) = omega (arith, height, tip-Linked by_hash b bs l)

  commit_blocks-Reached :
      (by_hash : ℕ → Option Block) (p : Progress AppState) (base : Block) (chain : List Block)
      → Linked by_hash base chain
      → p.last_committed_height ≡ base.height
      → Reached p (commit_blocks app p chain).0 (commit_blocks app p chain).1 base chain
  commit_blocks-Reached by_hash p base [] l h = rw (commit_blocks-nil app p) (record {
    above = omega arith;
    below = omega (arith, h);
    responses = refl;
    finished = λ _. h;
  })
  commit_blocks-Reached by_hash p base (b ∷ bs) (_, height, l) h =
      let left = commit_block-Left p b in
      elim (Result-cases (commit_block app p b).1) [
        | inr (x, failed) ↦
            let (same, as_many) = left.failed (λ d. ground arith) in
            rw (commit_blocks-err app p b bs x failed) (record {
              above = omega (arith, same);
              below = omega (arith, same, h, height, tip-Linked by_hash b bs l);
              responses = omega (arith, same, as_many);
              finished = λ f. ground arith;
            })
        | inl (_, done) ↦
            let (risen, one_more) = left.done done in
            let ih = commit_blocks-Reached by_hash (commit_block app p b).0 b bs l risen in
            rw (commit_blocks-ok app p b bs done) (record {
              above = omega (arith, ih.above, risen, h, height);
              below = ih.below;
              responses = omega (arith, ih.responses, risen, one_more, h, height);
              finished = ih.finished;
            })
      ]

  abbrev Outcome : Type 0
  Outcome = (AppState × ℕ) × Result CommitError CommitResult

  -- The loop's end, with its state and result.
  abbrev finish :
      DoubleCertificate → List Block → Progress AppState × Result CommitError (Unit {0}) → Outcome
  finish dc chain run = (
    (run.0.state, run.0.last_committed_height),
    elim run.1 [ err x ↦ err x | ok _ ↦ ok (result_of dc chain run.0) ],
  )

  try_commit-runs :
      (by_hash by_height : ℕ → Option Block) (dc : DoubleCertificate) (a : AppState)
      → (last : ℕ) (current : Epoch) (previous in_flight : Option Epoch)
      → (top : Block) (chain : List Block) → by_hash dc.inner_qc.block_hash ≡ some top
      → last < top.height
      → walk by_hash by_height (suc top.height) last top [] ≡ ok chain
      → try_commit app by_hash by_height dc a last current previous in_flight
        ≡ finish dc chain (commit_blocks app (start a last current previous in_flight) chain)
  unfolding try_commit
  try_commit-runs by_hash by_height dc a last current previous in_flight top chain f above w =
      let high : leb top.height last ≡ false = ground arith in rw (try_commit, f, high, w) refl

  try_commit-refuses :
      (by_hash by_height : ℕ → Option Block) (dc : DoubleCertificate) (a : AppState)
      → (last : ℕ) (current : Epoch) (previous in_flight : Option Epoch)
      → (top : Block) (x : CommitError) → by_hash dc.inner_qc.block_hash ≡ some top
      → last < top.height
      → walk by_hash by_height (suc top.height) last top [] ≡ err x
      → try_commit app by_hash by_height dc a last current previous in_flight ≡ ((a, last), err x)
  unfolding try_commit
  try_commit-refuses by_hash by_height dc a last current previous in_flight top x f above w =
      let high : leb top.height last ≡ false = ground arith in rw (try_commit, f, high, w) refl

  -- A commit of a block above the last committed height that returns a result has run every block of
  -- the chain in between on the application, each once and in order: its evidence, its decoded
  -- transactions and the notice of its commit, under the epoch that `activate` and `context_epoch` give
  -- for its view. The state left is the one after the last block, the responses are the blocks' own,
  -- and the height is the block's.
  pub try_commit-Committed :
      (by_hash by_height : ℕ → Option Block) (dc : DoubleCertificate) (a a' : AppState)
      → (last h : ℕ) (current : Epoch) (previous in_flight : Option Epoch)
      → (top : Block) (r : CommitResult) → by_hash dc.inner_qc.block_hash ≡ some top
      → last < top.height
      → try_commit app by_hash by_height dc a last current previous in_flight ≡ ((a', h), ok r)
      → Committed by_hash by_height last top a a' (epochs_before current previous in_flight) h r
  try_commit-Committed by_hash by_height dc a a' last h current previous in_flight top r f above e =
      let p = start a last current previous in_flight in
      elim (Result-cases (walk by_hash by_height (suc top.height) last top [])) [
        | inr (x, failed) ↦
            let refused =
              try_commit-refuses by_hash by_height dc a last current previous in_flight top x f
                above failed in
            absurd (ground arith)
        | inl (chain, walked) ↦
            let runs =
              try_commit-runs by_hash by_height dc a last current previous in_flight top chain f
                above walked in
            let extends = walk-Extends by_hash by_height last top chain walked in
            let reached =
              commit_blocks-Reached by_hash p extends.base chain extends.linked
                (sym extends.base_height) in
            elim (Result-cases (commit_blocks app p chain).1) [
              | inr (x, failed) ↦ absurd (ground arith)
              | inl (_, done) ↦
                  let q : Progress AppState = (commit_blocks app p chain).0 in
                  let result : r ≡ result_of dc chain q = ground arith in
                  let at : h ≡ q.last_committed_height = ground arith in
                  let tip_height : (tip extends.base chain).height ≡ top.height =
                    rw extends.ends refl in
                  let height : h ≡ top.height = rw (at, reached.finished done, extends.ends) refl in
                  let as_tall : last + length chain ≡ top.height = omega (
                    arith,
                    tip-Linked by_hash extends.base chain extends.linked,
                    extends.base_height,
                    tip_height,
                  ) in
                  let (rs, answers, all_ran) = commit_blocks-Runs app p chain done in
                  let state : a' ≡ q.state =
                    sym (ap (λ (o : Outcome). o.0.0) e) ∙ ap (λ (o : Outcome). o.0.0) runs in
                  let before = epochs_before current previous in_flight in
                  subst (λ x. Committed by_hash by_height last top a a' before h x) (sym result)
                    (record {
                      extends = extends;
                      reached = height;
                      whole = as_tall;
                      ran = (q.epochs, rw (state, answers) all_ran, refl, refl);
                    })
            ]
      ]

  -- Whatever the outcome, the last committed height does not fall.
  pub try_commit-height :
      (by_hash by_height : ℕ → Option Block) (dc : DoubleCertificate) (a : AppState)
      → (last : ℕ) (current : Epoch) (previous in_flight : Option Epoch)
      → last ≤ (try_commit app by_hash by_height dc a last current previous in_flight).0.1
  unfolding try_commit
  try_commit-height by_hash by_height dc a last current previous in_flight =
      elim (Option-cases (by_hash dc.inner_qc.block_hash)) [
        | inl missing ↦ rw (try_commit, missing) (omega arith)
        | inr (top, f) ↦ elim (Bool-cases (leb top.height last)) [
          | inl low ↦ rw (try_commit, f, low) (omega arith)
          | inr high ↦
              let above : last < top.height = ground arith in
              elim (Result-cases (walk by_hash by_height (suc top.height) last top [])) [
                | inr (x, failed) ↦
                    rw
                      (try_commit-refuses by_hash by_height dc a last current previous in_flight top
                        x f above failed)
                      (omega arith)
                | inl (chain, walked) ↦
                    let extends = walk-Extends by_hash by_height last top chain walked in
                    rw
                      (try_commit-runs by_hash by_height dc a last current previous in_flight top
                        chain f above walked)
                      (commit_blocks-Reached by_hash (start a last current previous in_flight)
                        extends.base chain extends.linked (sym extends.base_height)).above
              ]
        ]
      ]
