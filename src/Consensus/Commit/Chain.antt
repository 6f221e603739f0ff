-- ===== src/Consensus/Commit/Chain.antt =====
-- The walk from the certified block back to the last committed one.
use hotmint.Base.{
  Option-cases, get_elem?, ok, err, ℕ, zero, suc, ◌+◌, ◌<◌, ◌≡◌, refl, sym, subst, ◌≢◌, ◌⊎◌, inl,
  inr, Option, some, List, [], ◌∷◌, arith,
}
use hotmint.Consensus.Commit.{out_of_fuel, join, walk}
use hotmint.Types.Block.{Block}

-- Each block's parent is the one before, one height lower.
abbrev pub Linked : (ℕ → Option Block) → Block → List Block → Type 0
Linked by_hash p [] = Unit
Linked by_hash p (b ∷ bs) =
    (by_hash b.parent_hash ≡ some p) × (b.height ≡ suc p.height) × Linked by_hash b bs

-- The last block of a chain above a parent.
abbrev pub tip : Block → List Block → Block
tip p [] = p
tip p (b ∷ bs) = tip b bs

module _ (by_hash by_height : ℕ → Option Block) where
  -- The chain starts right above the block committed last, and ends at a given block.
  pub record Extends (last : ℕ) (top : Block) (chain : List Block) : Type 0 where
    pub base : Block
    pub committed : Block
    pub base_height : base.height ≡ last
    pub at_last : by_height last ≡ some committed
    pub same_block : base.hash ≡ committed.hash
    pub linked : Linked by_hash base chain
    pub ends : tip base chain ≡ top

  join_sound :
      (last : ℕ) (p : Block) (chain blocks : List Block)
      → join by_hash by_height last p chain ≡ ok blocks
      → (committed : Block) × (by_height last ≡ some committed)
        × (p.hash ≡ committed.hash)
        × (blocks ≡ chain)
  unfolding join
  join_sound last p chain blocks h = ground arith

  -- What a round of the walk that succeeds did.
  abbrev Round : ℕ → ℕ → Block → List Block → List Block → Block → Type 0
  Round fuel last current acc blocks p =
      (by_hash current.parent_hash ≡ some p)
      × (current.height ≡ suc p.height)
      × ((p.height ≡ last) × (join by_hash by_height last p (current ∷ acc) ≡ ok blocks)
          ⊎ (walk by_hash by_height fuel last p (current ∷ acc) ≡ ok blocks))

  walk-Round :
      (fuel last : ℕ) (current : Block) (acc blocks : List Block)
      → walk by_hash by_height (suc fuel) last current acc ≡ ok blocks
      → (p : Block) × Round fuel last current acc blocks p
  unfolding walk
  walk-Round fuel last current acc blocks e = elim (Option-cases (by_hash current.parent_hash)) [
    | inl none_here ↦ absurd (ground arith)
    | inr (p, found) ↦ let r : Round fuel last current acc blocks p = ground arith in (p, r)
  ]

  -- The chain gathered so far hangs under the block at hand.
  record Hanging (current top : Block) (acc : List Block) : Type 0 where
    linked : Linked by_hash current acc
    ends : tip current acc ≡ top

  walk-zero :
      (last : ℕ) (current : Block) (acc blocks : List Block)
      → walk by_hash by_height 0 last current acc ≢ ok blocks
  unfolding walk
  walk-zero last current acc blocks = λ e. absurd (ground arith)

  walk_sound :
      (fuel last : ℕ) (current top : Block) (acc blocks : List Block)
      → Hanging current top acc
      → walk by_hash by_height fuel last current acc ≡ ok blocks
      → Extends last top blocks
  walk_sound zero last current top acc blocks h e = absurd (walk-zero last current acc blocks e)
  walk_sound (suc fuel) last current top acc blocks h e =
      let (p, round) = walk-Round fuel last current acc blocks e in
      let (found, height, rest) = round in
      elim rest [
        | inl (at_last, joined) ↦
            let (c, committed, same, out) = join_sound last p (current ∷ acc) blocks joined in
            subst (λ bs. Extends last top bs) (sym out)
              (record {
                base = p;
                committed = c;
                base_height = at_last;
                at_last = committed;
                same_block = same;
                linked = (found, height, h.linked);
                ends = h.ends;
              })
        | inr further ↦
            let hanging : Hanging p top (current ∷ acc) = record {
              linked = (found, height, h.linked);
              ends = h.ends;
            } in
            walk_sound fuel last p top (current ∷ acc) blocks hanging further
      ]

  walk_fuel :
      (fuel last : ℕ) (current : Block) (acc : List Block)
      → current.height < fuel
      → walk by_hash by_height fuel last current acc ≢ err out_of_fuel
  unfolding walk join
  walk_fuel zero last current acc h = λ e. absurd (ground arith)
  walk_fuel (suc fuel) last current acc h = elim (Option-cases (by_hash current.parent_hash)) [
    | inl none_here ↦ ground arith
    | inr (p, found) ↦
        let ih : p.height < fuel
            → walk by_hash by_height fuel last p (current ∷ acc) ≢ err out_of_fuel =
          λ b. walk_fuel fuel last p (current ∷ acc) b in
        ground arith
  ]

-- A walk that succeeds returns the blocks above the one committed last, in order and without a gap.
pub walk-Extends :
    (by_hash by_height : ℕ → Option Block) (last : ℕ) (top : Block) (blocks : List Block)
    → walk by_hash by_height (suc top.height) last top [] ≡ ok blocks
    → Extends by_hash by_height last top blocks
walk-Extends by_hash by_height last top blocks e =
    walk_sound by_hash by_height (suc top.height) last top top [] blocks
      (record { linked = tt; ends = refl }) e

-- The heights fall on the walk, so fuel of one more than the first height always suffices.
pub walk-terminates :
    (by_hash by_height : ℕ → Option Block) (last : ℕ) (top : Block)
    → walk by_hash by_height (suc top.height) last top [] ≢ err out_of_fuel
walk-terminates by_hash by_height last top =
    walk_fuel by_hash by_height (suc top.height) last top [] (omega arith)

-- The heights of a linked chain rise by one from its base.
pub Linked-heights :
    (by_hash : ℕ → Option Block) (p : Block) (chain : List Block) (i : ℕ) (b : Block)
    → Linked by_hash p chain
    → get_elem? chain i ≡ some b
    → b.height ≡ suc (p.height + i)
Linked-heights by_hash p [] i b l e = absurd (ground arith)
Linked-heights by_hash p (c ∷ chain) zero b (found, height, l) e = ground arith
Linked-heights by_hash p (c ∷ chain) (suc i) b (found, height, l) e =
    let ih : b.height ≡ suc (c.height + i) = Linked-heights by_hash c chain i b l e in omega arith
