-- ===== src/Consensus/Commit.antt =====
-- crates/hotmint-consensus/src/commit.rs: the two-chain commit.
pub mod Chain
pub mod Loop
pub mod Runs
pub mod Execution
use hotmint.Base.{
  ltb, leb, ◌==◌, if◌then◌else◌, u64_limit, checked_sub, Result, ok, err, ensure, ok_or, ℕ, zero,
  suc, ◌+◌, ◌%◌, Option, none, some, List, [], ◌∷◌, ◌++◌, ◌>>=◌, ◌>>◌,
}
use hotmint.Consensus.Application.{BlockContext, EndBlockResponse, Application}
use hotmint.Consensus.Payload.{decode_payload}
use hotmint.Types.Block.{Block, genesis_hash}
use hotmint.Types.Certificate.{QuorumCertificate, DoubleCertificate}
use hotmint.Types.Epoch.{Epoch, next}
use hotmint.Types.Evidence.{EquivocationProof}
use hotmint.Types.Updates.{ValidatorUpdate, try_apply_updates}
use hotmint.Types.Validator.{SetError}

pub data CommitError : Type 0 where
  block_not_found : CommitError
  height_zero : CommitError
  missing_ancestor : CommitError
  height_discontinuity : CommitError
  missing_committed : CommitError
  conflicting_chain : CommitError
  skipped_height : CommitError
  bad_updates : SetError → CommitError
  -- A panic: a callback of the application failed, or an epoch number overflowed.
  fatal : CommitError
  -- The walk's own fuel ran out, which it never does.
  out_of_fuel : CommitError

pub record CommitResult : Type 0 where
  pub committed_blocks : List Block
  pub commit_qc : QuorumCertificate
  pub pending_epoch : Option Epoch
  pub activated_epoch : Option Epoch
  pub last_app_hash : ℕ
  pub block_responses : List EndBlockResponse

-- The lookups of the store that the commit reads.
module _ (by_hash by_height : ℕ → Option Block) where
  -- The end of the walk: the parent stands at the last committed height.
  unfoldable pub join : ℕ → Block → List Block → Result CommitError (List Block)
  join last parent chain = do
    committed ← ok_or (by_height last) missing_committed
    ensure (parent.hash == committed.hash) conflicting_chain
    ok chain

  -- The walk from a block to the last committed height. Pushing at the front does the final reversal.
  unfoldable pub walk : ℕ → ℕ → Block → List Block → Result CommitError (List Block)
  unfolding join
  walk zero last current acc = err out_of_fuel
  walk (suc fuel) last current acc = do
    expected ← ok_or (checked_sub current.height 1) height_zero
    parent ← ok_or (by_hash current.parent_hash) missing_ancestor
    ensure (parent.height == expected) height_discontinuity
    let chain = current ∷ acc
    let further = walk fuel last parent chain
    if parent.height == last
        then join last parent chain
        else if ltb parent.height last
        then err skipped_height
        else further

-- `block_view + 2` wraps in a release build.
unfoldable pub chained_pending_epoch :
    Epoch → Option Epoch → ℕ → List ValidatorUpdate → Result CommitError Epoch
chained_pending_epoch current pending block_view updates =
    let base : Epoch = elim pending [ none ↦ current | some p ↦ p ] in
    elim (try_apply_updates base.validator_set updates) [
      | err e ↦ err (bad_updates e)
      | ok vs ↦ do
        number ← ok_or (next base.number) fatal
        ok (record {
          number = number;
          start_view = (block_view + 2) % u64_limit;
          validator_set = vs;
        })
    ]

-- The epochs that the loop over the blocks to commit carries along.
pub record Epochs : Type 0 where
  pub pending : Option Epoch
  pub activated : Option Epoch
  pub active : Epoch
  pub previous : Option Epoch

-- A block at or past the pending epoch's start activates it.
unfoldable pub activate : Epochs → ℕ → Epochs
activate e view = elim e.pending [
  | none ↦ e
  | some p ↦
      if leb p.start_view view
      then record { pending = none; activated = some p; active = p; previous = some e.active }
      else e
]

-- The epoch that a block is executed under.
unfoldable pub context_epoch : Epochs → ℕ → Epoch
context_epoch e view =
    if ltb view e.active.start_view
    then elim e.previous [ none ↦ e.active | some p ↦ p ]
    else e.active

unfoldable pub context_of : Block → Epoch → BlockContext
context_of b e = record {
  height = b.height;
  view = b.view;
  proposer = b.proposer;
  epoch = e.number;
  epoch_start_view = e.start_view;
  validator_set = e.validator_set;
  timestamp = b.timestamp;
  vote_extensions = [];
}

-- Updates of the validator set chain onto the pending epoch, or onto the active one.
unfoldable pub apply_response : Epochs → ℕ → List ValidatorUpdate → Result CommitError Epochs
unfolding chained_pending_epoch
apply_response e view [] = ok e
apply_response e view (u ∷ us) = do
  p ← chained_pending_epoch e.active e.pending view (u ∷ us)
  ok (record e { pending = some p })

-- What the loop over the blocks changes, with the application's state.
pub record Progress (A : Type 0) : Type 0 where
  pub state : A
  pub epochs : Epochs
  pub last_app_hash : ℕ
  pub responses : List EndBlockResponse
  pub last_committed_height : ℕ

abbrev pub empty_result : DoubleCertificate → CommitResult
empty_result dc = record {
  committed_blocks = [];
  commit_qc = dc.inner_qc;
  pending_epoch = none;
  activated_epoch = none;
  last_app_hash = genesis_hash;
  block_responses = [];
}

abbrev pub start : {A : Type 0} → A → ℕ → Epoch → Option Epoch → Option Epoch → Progress A
start a last current previous in_flight = record {
  state = a;
  epochs = record { pending = in_flight; activated = none; active = current; previous = previous };
  last_app_hash = genesis_hash;
  responses = [];
  last_committed_height = last;
}

abbrev pub result_of : {A : Type 0} → DoubleCertificate → List Block → Progress A → CommitResult
result_of dc chain p = record {
  committed_blocks = chain;
  commit_qc = dc.inner_qc;
  pending_epoch = p.epochs.pending;
  activated_epoch = p.epochs.activated;
  last_app_hash = p.last_app_hash;
  block_responses = p.responses;
}

module _ (app : Application) where
  open app use {AppState, tracks_app_hash, on_evidence, execute_block, on_commit}

  unfoldable pub apply_evidence : AppState → List EquivocationProof → Option AppState
  apply_evidence a [] = some a
  apply_evidence a (p ∷ ps) = elim (on_evidence a p) [
    | none ↦ none
    | some a' ↦ apply_evidence a' ps
  ]

  -- The evidence, then the transactions, then the notification; `none` is the panic.
  unfoldable pub execute_committed_block :
      AppState → Block → BlockContext → Option (EndBlockResponse × AppState)
  unfolding apply_evidence
  execute_committed_block a b ctx = elim (apply_evidence a b.evidence) [
    | none ↦ none
    | some a₁ ↦ elim (execute_block a₁ (decode_payload b.payload) ctx) [
      | none ↦ none
      | some (response, a₂) ↦ elim (on_commit a₂ b ctx) [
        | none ↦ none
        | some a₃ ↦ some (response, a₃)
      ]
    ]
  ]

  -- One round of the loop. An error leaves the height where it was, after the block has run.
  unfoldable pub commit_block :
      Progress AppState → Block → Progress AppState × Result CommitError (Unit {0})
  unfolding activate context_epoch context_of apply_response
  commit_block p b =
      let e = activate p.epochs b.view in
      elim (execute_committed_block p.state b (context_of b (context_epoch e b.view))) [
        | none ↦ (p, err fatal)
        | some (response, a) ↦ elim (apply_response e b.view response.validator_updates) [
          | err x ↦ (record p { state = a; epochs = e }, err x)
          | ok e' ↦ (
            record {
              state = a;
              epochs = e';
              last_app_hash = if tracks_app_hash then response.app_hash else b.app_hash;
              responses = p.responses ++ response ∷ [];
              last_committed_height = b.height;
            },
            ok tt,
          )
        ]
      ]

  unfoldable pub commit_blocks :
      Progress AppState → List Block → Progress AppState × Result CommitError (Unit {0})
  commit_blocks p [] = (p, ok tt)
  commit_blocks p (b ∷ bs) =
      let (p', r) = commit_block p b in elim r [ err x ↦ (p', err x) | ok _ ↦ commit_blocks p' bs ]

  -- The state and the height that are left, and the result.
  unfoldable pub try_commit :
      (by_hash by_height : ℕ → Option Block)
      → DoubleCertificate
      → AppState
      → (last_committed_height : ℕ) → (current_epoch : Epoch)
      → (previous_epoch in_flight_pending : Option Epoch)
      → (AppState × ℕ) × Result CommitError CommitResult
  unfolding commit_blocks walk
  try_commit by_hash by_height dc a last current previous in_flight =
      elim (by_hash dc.inner_qc.block_hash) [
        | none ↦ ((a, last), err block_not_found)
        | some b ↦
            if leb b.height last
            then ((a, last), ok (empty_result dc))
            else elim (walk by_hash by_height (suc b.height) last b []) [
              | err x ↦ ((a, last), err x)
              | ok chain ↦
                  let (p, r) = commit_blocks (start a last current previous in_flight) chain in
                  (
                    (p.state, p.last_committed_height),
                    elim r [ err x ↦ err x | ok _ ↦ ok (result_of dc chain p) ],
                  )
            ]
      ]
