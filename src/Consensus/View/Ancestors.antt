-- ===== src/Consensus/View/Ancestors.antt =====
-- The walk over the ancestors of a proposal ends.
use mathlib.Core.Logic.{◌≢◌}
use hotmint.Base.{
  ltb, ◌==◌, if◌then◌else◌, ==_iff, Bool-cases, Option-cases, ℕ, zero, suc, ◌<◌, ◌≡◌, refl, sym,
  ◌∙◌, inl, inr, Option, none, some, [], ◌∷◌, arith,
}
use hotmint.Consensus.View.Propose.{ancestors}
use hotmint.Types.Block.{Block, genesis_hash}

-- The stored parent of a block that is stored under another hash than the genesis hash is lower.
abbrev pub Descends : (ℕ → Option Block) → Type 0
Descends by_hash =
    (hash : ℕ) (b p : Block)
    → hash ≢ genesis_hash
    → by_hash hash ≡ some b
    → by_hash b.parent_hash ≡ some p
    → p.height < b.height

ancestors_of_missing :
    (fuel : ℕ) (by_hash : ℕ → Option Block) (depth_limit hash : ℕ)
    → by_hash hash ≡ none
    → ancestors fuel by_hash depth_limit hash ≡ []
unfolding ancestors
ancestors_of_missing zero by_hash depth_limit hash missing = refl
ancestors_of_missing (suc fuel) by_hash depth_limit hash missing = ground arith

ancestors_step :
    (fuel : ℕ) (by_hash : ℕ → Option Block) (depth_limit hash : ℕ) (b : Block)
    → by_hash hash ≡ some b
    → ancestors (suc fuel) by_hash depth_limit hash ≡ (
        if hash == genesis_hash
        then []
        else if ltb b.height depth_limit
        then []
        else b ∷ ancestors fuel by_hash depth_limit b.parent_hash)
unfolding ancestors
ancestors_step fuel by_hash depth_limit hash b found = rw (ancestors, found) refl

ancestors_of_genesis :
    (fuel : ℕ) (by_hash : ℕ → Option Block) (depth_limit hash : ℕ)
    → hash ≡ genesis_hash
    → ancestors fuel by_hash depth_limit hash ≡ []
unfolding ancestors
ancestors_of_genesis zero by_hash depth_limit hash e = refl
ancestors_of_genesis (suc fuel) by_hash depth_limit hash e = ground arith

-- In a store where the parent of every block but genesis is lower than the block, fuel of more than the height of the
-- first ancestor is enough: any two such amounts give the same ancestors.
pub ancestors_agree :
    (by_hash : ℕ → Option Block) (depth_limit f g hash : ℕ) (b : Block)
    → Descends by_hash
    → by_hash hash ≡ some b
    → b.height < f
    → b.height < g
    → ancestors f by_hash depth_limit hash ≡ ancestors g by_hash depth_limit hash
ancestors_agree by_hash depth_limit zero g hash b falls found enough enough' = absurd (omega arith)
ancestors_agree by_hash depth_limit (suc f) zero hash b falls found enough enough' =
    absurd (omega arith)
ancestors_agree by_hash depth_limit (suc f) (suc g) hash b falls found enough enough' =
    elim (Bool-cases (hash == genesis_hash)) [
      | inl root ↦
          let at_root : hash ≡ genesis_hash = (==_iff hash genesis_hash).0 root in
          ancestors_of_genesis (suc f) by_hash depth_limit hash at_root
          ∙ sym (ancestors_of_genesis (suc g) by_hash depth_limit hash at_root)
      | inr above ↦
          let rest : ancestors f by_hash depth_limit b.parent_hash
              ≡ ancestors g by_hash depth_limit b.parent_hash =
            elim (Option-cases (by_hash b.parent_hash)) [
              | inl missing ↦
                  ancestors_of_missing f by_hash depth_limit b.parent_hash missing
                  ∙ sym (ancestors_of_missing g by_hash depth_limit b.parent_hash missing)
              | inr (p, stored) ↦
                  let lower : p.height < b.height =
                    falls hash b p (λ e. ground (arith, above, e)) found stored in
                  ancestors_agree by_hash depth_limit f g b.parent_hash p falls stored
                    (omega (arith, lower, enough)) (omega (arith, lower, enough'))
            ] in
          rw
            (
              ancestors_step f by_hash depth_limit hash b found,
              ancestors_step g by_hash depth_limit hash b found,
              rest,
            )
            refl
    ]
