-- ===== src/Consensus/Commit/Loop.antt =====
-- The rounds of the loop over the blocks to commit.
use hotmint.Base.{ok, err, ◌≡◌, refl, List, [], ◌∷◌, arith}
use hotmint.Consensus.Application.{Application}
use hotmint.Consensus.Commit.{CommitError, Progress, commit_block, commit_blocks}
use hotmint.Types.Block.{Block}

module _ (app : Application) where
  open app use {AppState}

  pub commit_blocks-err :
      (p : Progress AppState) (b : Block) (bs : List Block) (x : CommitError)
      → (commit_block app p b).1 ≡ err x
      → commit_blocks app p (b ∷ bs) ≡ ((commit_block app p b).0, err x)
  unfolding commit_blocks
  commit_blocks-err p b bs x e = ground arith

  pub commit_blocks-ok :
      (p : Progress AppState) (b : Block) (bs : List Block)
      → (commit_block app p b).1 ≡ ok tt
      → commit_blocks app p (b ∷ bs) ≡ commit_blocks app (commit_block app p b).0 bs
  unfolding commit_blocks
  commit_blocks-ok p b bs e = ground arith

  pub commit_blocks-nil : (p : Progress AppState) → commit_blocks app p [] ≡ (p, ok tt)
  unfolding commit_blocks
  commit_blocks-nil p = refl
