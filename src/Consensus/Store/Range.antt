-- ===== src/Consensus/Store/Range.antt =====
-- crates/hotmint-consensus/src/store.rs: the range query of the in-memory store does what the trait's
-- default does one height at a time.
use hotmint.Base.Map
use hotmint.Base.{
  leb, ◌==◌, if◌then◌else◌, Option-cases, if_cases, u64_limit, ℕ, zero, suc, ◌+◌, ◌-◌, ◌%◌, ◌<◌,
  ◌≡◌, refl, sym, ap, ◌∙◌, inl, inr, Bool, true, false, Option, none, some, List, [], arith,
}
use hotmint.Base.Keys.{DistinctKeys, DistinctKeys-insert}
use hotmint.Base.Map.{nat_eq, text_eq}
use hotmint.Consensus.Store.{
  MemoryBlockStore, put_block, new_store, get_block_by_height, put_commit_qc, then_push,
  blocks_from, blocks_in_range_default, get_blocks_in_range,
}
use hotmint.Consensus.Store.Walk.{blocks_at, range_walked}
use hotmint.Consensus.VoteCollector.{vote_key_eq}
use hotmint.Staking.Store.{stake_key_eq}
use hotmint.Types.Block.{Block, genesis_block}
use hotmint.Types.Certificate.{QuorumCertificate}

-- Below the greatest height the loop walks the heights and stops.
blocks_from-blocks_at :
    (get_at : ℕ → Option Block) (last left h fuel : ℕ)
    → suc last < u64_limit
    → left ≡ suc last - h
    → left < fuel
    → blocks_from fuel get_at last h ≡ some (blocks_at get_at left h)
unfolding blocks_from blocks_at
blocks_from-blocks_at get_at last left h zero fits e enough = absurd (omega (arith, enough))
blocks_from-blocks_at get_at last zero h (suc fuel) fits e enough =
    let above : leb h last ≡ false = ground (arith, e) in rw (above, blocks_from) refl
blocks_from-blocks_at get_at last (suc left) h (suc fuel) fits e enough =
    let inside : leb h last ≡ true = ground (arith, e) in
    let next_height : (h + 1) % u64_limit ≡ suc h = omega (arith, e, fits) in
    let rest : blocks_from fuel get_at last ((h + 1) % u64_limit)
        ≡ some (blocks_at get_at left (suc h)) =
      rw next_height (
        blocks_from-blocks_at get_at last left (suc h) fuel fits (omega (arith, e))
          (omega (arith, enough))) in
    elim (Option-cases (get_at h)) [
      | inl none_here ↦ rw (inside, none_here, blocks_from, blocks_at) rest
      | inr (b, found) ↦ rw (inside, found, blocks_from, blocks_at) (ap (then_push b) rest)
    ]

-- In a store whose height index holds each height once, and for a last height below the greatest of
-- 64 bits, the trait's loop over the heights ends within fuel of more than the number of heights, and
-- the range query returns the same blocks in the same order.
pub get_blocks_in_range-default :
    (s : MemoryBlockStore) (first last fuel : ℕ)
    → DistinctKeys s.by_height
    → suc last < u64_limit
    → suc last - first < fuel
    → blocks_in_range_default fuel (get_block_by_height s) first last
      ≡ some (get_blocks_in_range s first last)
unfolding blocks_in_range_default
get_blocks_in_range-default s first last fuel d fits enough =
    blocks_from-blocks_at (get_block_by_height s) last (suc last - first) first fuel fits refl
      enough
    ∙ ap (λ bs. some bs) (sym (range_walked s first last d))

-- At the greatest height the loop never ends, whatever the fuel.
blocks_from_last :
    (get_at : ℕ → Option Block) (fuel h : ℕ)
    → h < u64_limit
    → blocks_from fuel get_at (u64_limit - 1) h ≡ none
unfolding blocks_from
blocks_from_last get_at zero h fits = refl
blocks_from_last get_at (suc fuel) h fits =
    let rest = blocks_from_last get_at fuel ((h + 1) % u64_limit) (omega arith) in
    ground (arith, rest, fits)

-- For the greatest height as the last one the trait's loop never ends, where the range query returns.
blocks_in_range_default_last :
    (get_at : ℕ → Option Block) (first fuel : ℕ)
    → first < u64_limit
    → blocks_in_range_default fuel get_at first (u64_limit - 1) ≡ none
unfolding blocks_in_range_default
blocks_in_range_default_last get_at first fuel fits = blocks_from_last get_at fuel first fits

-- An index that a test of an optional value may write to.
DistinctKeys-written :
    {A : Type 0} (o : Option A) (p : A → Bool) (on_none indexed kept : List (ℕ × ℕ))
    → DistinctKeys on_none
    → DistinctKeys indexed
    → DistinctKeys kept
    → DistinctKeys
        (elim o as (λ _. List (ℕ × ℕ)) [ some a ↦ if p a then indexed else kept | none ↦ on_none ])
DistinctKeys-written none p on_none indexed kept dn di dk = dn
DistinctKeys-written (some a) p on_none indexed kept dn di dk =
    if_cases DistinctKeys (p a) (λ _. di) (λ _. dk)

-- The height index holds each height once, at the start and after every write.
pub put_block-DistinctKeys :
    (s : MemoryBlockStore) (b : Block)
    → DistinctKeys s.by_height
    → DistinctKeys (put_block s b).by_height
unfolding put_block
put_block-DistinctKeys s b d =
    let written = DistinctKeys-insert b.height b.hash s.by_height d in
    DistinctKeys-written (Map.get b.height s.commit_qcs) (λ qc. qc.block_hash == b.hash)
      (Map.insert b.height b.hash s.by_height) (Map.insert b.height b.hash s.by_height) s.by_height
      written written d

pub put_commit_qc-DistinctKeys :
    (s : MemoryBlockStore) (h : ℕ) (qc : QuorumCertificate)
    → DistinctKeys s.by_height
    → DistinctKeys (put_commit_qc s h qc).by_height
unfolding put_commit_qc
put_commit_qc-DistinctKeys s h qc d =
    DistinctKeys-written (Map.get qc.block_hash s.by_hash) (λ b. b.height == h) s.by_height
      (Map.insert h qc.block_hash s.by_height) s.by_height d
      (DistinctKeys-insert h qc.block_hash s.by_height d) d

pub new_store-DistinctKeys : DistinctKeys new_store.by_height
unfolding new_store
new_store-DistinctKeys =
    put_block-DistinctKeys (record { by_hash = []; by_height = []; commit_qcs = [] }) genesis_block
      tt
