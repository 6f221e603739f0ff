-- ===== src/Witnesses/Commit.antt =====
-- The theorems on the store and the commit, at a chain of two blocks above genesis.
use hotmint.Base.Map
use hotmint.Base.{err, ℕ, suc, ◌≡◌, refl, ◌≢◌, true, none, some, [], ◌∷◌, arith}
use hotmint.Base.Map.{nat_eq, text_eq}
use hotmint.Consensus.Application.{Application}
use hotmint.Consensus.Commit.{
  out_of_fuel, CommitResult, join, walk, activate, context_epoch, context_of, apply_response,
  apply_evidence, execute_committed_block, commit_block, commit_blocks, try_commit,
}
use hotmint.Consensus.Commit.Chain.{Extends, walk-Extends, walk-terminates}
use hotmint.Consensus.Commit.Execution.{epochs_before, Committed, try_commit-Committed}
use hotmint.Consensus.Payload.{decode_from, decode_payload}
use hotmint.Consensus.Store.{
  MemoryBlockStore, put_block, new_store, get_block, get_block_by_height, put_commit_qc,
  blocks_in_range_default, get_blocks_in_range,
}
use hotmint.Consensus.Store.Laws.{
  IsIndexed, NoCollision, put_block-IsIndexed, put_commit_qc-IsIndexed, committed_block_stays,
}
use hotmint.Consensus.Store.Range.{get_blocks_in_range-default}
use hotmint.Consensus.View.Ancestors.{Descends, ancestors_agree}
use hotmint.Consensus.View.Propose.{ancestors}
use hotmint.Consensus.VoteCollector.{vote_key_eq}
use hotmint.Staking.Store.{stake_key_eq}
use hotmint.Types.Block.{Block, genesis_hash, genesis_block}
use hotmint.Types.Certificate.{QuorumCertificate, DoubleCertificate}
use hotmint.Types.Epoch.{Epoch, genesis}
use hotmint.Witnesses.Validators.{four}

abbrev block_above : ℕ → ℕ → ℕ → ℕ → Block
block_above height parent_hash view hash = record genesis_block {
  height = height;
  parent_hash = parent_hash;
  view = view;
  payload = 1 ∷ 0 ∷ 0 ∷ 0 ∷ 42 ∷ [];
  hash = hash;
}

abbrev first : Block
first = block_above 1 genesis_hash 1 101

abbrev second : Block
second = block_above 2 101 2 102

abbrev pub qc_of : ℕ → ℕ → QuorumCertificate
qc_of block_hash view = record {
  block_hash = block_hash;
  view = view;
  aggregate_signature = record { signers = []; signatures = [] };
  epoch = 0;
}

abbrev one_stored : MemoryBlockStore
one_stored = record {
  by_hash = (genesis_hash, genesis_block) ∷ (101, first) ∷ [];
  by_height = (0, genesis_hash) ∷ (1, 101) ∷ [];
  commit_qcs = [];
}

abbrev both_stored : MemoryBlockStore
both_stored = record {
  by_hash = (genesis_hash, genesis_block) ∷ (101, first) ∷ (102, second) ∷ [];
  by_height = (0, genesis_hash) ∷ (1, 101) ∷ (2, 102) ∷ [];
  commit_qcs = [];
}

new_store-IsIndexed : IsIndexed new_store
unfolding new_store put_block Map.get Map.insert
new_store-IsIndexed = record {
  heights = λ h hash e. (genesis_block, ground arith, ground arith);
  committed = λ h qc b e f g. absurd (ground arith);
}

new_store-NoCollision : (b : Block) → b.hash ≢ genesis_hash → NoCollision new_store b
unfolding new_store put_block Map.get Map.insert get_block
new_store-NoCollision b n = λ old e. absurd (ground arith)

put_block-IsIndexed_example : IsIndexed (put_block new_store first)
put_block-IsIndexed_example =
    put_block-IsIndexed new_store first (new_store-NoCollision first (λ e. absurd (ground arith)))
      new_store-IsIndexed

abbrev committed_genesis : MemoryBlockStore
committed_genesis = put_commit_qc new_store 0 (qc_of genesis_hash 0)

committed_genesis-NoCollision : NoCollision committed_genesis (block_above 0 7 4 200)
unfolding new_store put_commit_qc put_block Map.get Map.insert get_block
committed_genesis-NoCollision = λ old e. absurd (ground arith)

committed_block_stays_example :
    get_block_by_height (put_block committed_genesis (block_above 0 7 4 200)) 0 ≡ some genesis_block
unfolding new_store put_commit_qc put_block Map.get Map.insert get_block
committed_block_stays_example =
    committed_block_stays committed_genesis (block_above 0 7 4 200) genesis_block 0
      (qc_of genesis_hash 0)
      (put_commit_qc-IsIndexed new_store 0 (qc_of genesis_hash 0) new_store-IsIndexed)
      committed_genesis-NoCollision (λ e. absurd (ground arith)) refl refl refl

get_blocks_in_range-default_example :
    blocks_in_range_default 9 (get_block_by_height both_stored) 1 5
    ≡ some (get_blocks_in_range both_stored 1 5)
get_blocks_in_range-default_example =
    get_blocks_in_range-default both_stored 1 5 9
      (
        ((λ e. omega (arith, e)), ((λ e. omega (arith, e)), tt)),
        (((λ e. omega (arith, e)), tt), (tt, tt)),
      )
      (omega arith) (omega arith)

-- An application that counts the blocks it has run.
abbrev pub counting : Application
counting = record {
  AppState = ℕ;
  tracks_app_hash = true;
  create_payload = λ a _. ([], a);
  validate_block = λ _ _ _. true;
  on_evidence = λ a _. some a;
  execute_block = λ a txs _. some (record { validator_updates = []; app_hash = a }, suc a);
  on_commit = λ a _ _. some a;
}

abbrev pub first_epoch : Epoch
first_epoch = genesis four

abbrev certified_pair : DoubleCertificate
certified_pair = record { inner_qc = qc_of 102 2; outer_qc = qc_of 102 2; vote_extensions = [] }

abbrev committed_two : CommitResult
committed_two = record {
  committed_blocks = first ∷ second ∷ [];
  commit_qc = qc_of 102 2;
  pending_epoch = none;
  activated_epoch = none;
  last_app_hash = 1;
  block_responses =
      record { validator_updates = []; app_hash = 0 }
      ∷ record { validator_updates = []; app_hash = 1 }
      ∷ [];
}

walk-Extends_example :
    Extends (get_block both_stored) (get_block_by_height both_stored) 0 second (first ∷ second ∷ [])
unfolding walk join get_block get_block_by_height Map.get
walk-Extends_example =
    walk-Extends (get_block both_stored) (get_block_by_height both_stored) 0 second
      (first ∷ second ∷ []) refl

walk-terminates_example :
    walk (get_block both_stored) (get_block_by_height both_stored) 3 0 second [] ≢ err out_of_fuel
walk-terminates_example =
    walk-terminates (get_block both_stored) (get_block_by_height both_stored) 0 second

try_commit-Committed_example :
    Committed counting
      (get_block both_stored)
      (get_block_by_height both_stored)
      0
      second
      0
      2
      (epochs_before first_epoch none none)
      2
      committed_two
unfolding try_commit walk join get_block get_block_by_height Map.get commit_blocks commit_block
    activate context_epoch context_of apply_response execute_committed_block apply_evidence
    decode_payload decode_from genesis
try_commit-Committed_example =
    try_commit-Committed counting (get_block both_stored) (get_block_by_height both_stored)
      certified_pair 0 2 0 2 first_epoch none none second committed_two refl (omega arith) refl

both_stored-Descends : Descends (get_block both_stored)
unfolding get_block Map.get
both_stored-Descends = λ hash b p above found parent. ground arith

ancestors_agree_example :
    ancestors 3 (get_block both_stored) 0 102 ≡ ancestors 9 (get_block both_stored) 0 102
unfolding get_block Map.get
ancestors_agree_example =
    ancestors_agree (get_block both_stored) 0 3 9 102 second both_stored-Descends refl (omega arith)
      (omega arith)
