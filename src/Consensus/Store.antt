-- ===== src/Consensus/Store.antt =====
-- crates/hotmint-consensus/src/store.rs: the block store, as an interface and in memory.
pub mod Laws
pub mod Walk
pub mod Range
use hotmint.Base.Map
use hotmint.Base.{
  ltb, leb, ◌==◌, if◌then◌else◌, filter_map, u64_limit, ℕ, zero, suc, ◌+◌, ◌%◌, max, Bool, ◌&&◌,
  Option, none, some, List, [], ◌∷◌,
}
use hotmint.Base.Map.{retain_keys, nat_eq, text_eq}
use hotmint.Base.Sort.{sort}
use hotmint.Consensus.VoteCollector.{vote_key_eq}
use hotmint.Staking.Store.{stake_key_eq}
use hotmint.Types.Block.{Block, genesis_block}
use hotmint.Types.Certificate.{QuorumCertificate}
use hotmint.Types.Validator.{get}

-- What the consensus code asks of a `dyn BlockStore`.
pub record BlockStore : Type 1 where
  pub Store : Type 0
  pub put_block : Store → Block → Store
  pub get_block : Store → ℕ → Option Block
  pub get_block_by_height : Store → ℕ → Option Block

pub record MemoryBlockStore : Type 0 where
  pub by_hash : List (ℕ × Block)
  pub by_height : List (ℕ × ℕ)
  pub commit_qcs : List (ℕ × QuorumCertificate)

-- The height index moves to a new block unless the height is committed to another one.
unfoldable pub put_block : MemoryBlockStore → Block → MemoryBlockStore
put_block s b =
    let indexed = Map.insert b.height b.hash s.by_height in
    let heights : List (ℕ × ℕ) = elim (Map.get b.height s.commit_qcs) [
      | some qc ↦ if qc.block_hash == b.hash then indexed else s.by_height
      | none ↦ indexed
    ] in
    record s { by_height = heights; by_hash = Map.insert b.hash b s.by_hash }

unfoldable pub new_store : MemoryBlockStore
unfolding put_block
new_store = put_block (record { by_hash = []; by_height = []; commit_qcs = [] }) genesis_block

unfoldable pub get_block : MemoryBlockStore → ℕ → Option Block
get_block s hash = Map.get hash s.by_hash

unfoldable pub get_block_by_height : MemoryBlockStore → ℕ → Option Block
get_block_by_height s h = elim (Map.get h s.by_height) [
  | none ↦ none
  | some hash ↦ Map.get hash s.by_hash
]

unfoldable pub put_commit_qc : MemoryBlockStore → ℕ → QuorumCertificate → MemoryBlockStore
put_commit_qc s h qc =
    let indexed = Map.insert h qc.block_hash s.by_height in
    let heights : List (ℕ × ℕ) = elim (Map.get qc.block_hash s.by_hash) [
      | some b ↦ if b.height == h then indexed else s.by_height
      | none ↦ s.by_height
    ] in
    record s { by_height = heights; commit_qcs = Map.insert h qc s.commit_qcs }

unfoldable pub get_commit_qc : MemoryBlockStore → ℕ → Option QuorumCertificate
get_commit_qc s h = Map.get h s.commit_qcs

-- `keys().next_back()`: the greatest indexed height, or the genesis height.
unfoldable pub max_key : List (ℕ × ℕ) → ℕ
max_key [] = 0
max_key ((h, hash) ∷ m) = max h (max_key m)

unfoldable pub tip_height : MemoryBlockStore → ℕ
unfolding max_key
tip_height s = max_key s.by_height

abbrev pub then_push : Block → Option (List Block) → Option (List Block)
then_push b rest = elim rest [ none ↦ none | some bs ↦ some (b ∷ bs) ]

-- The loop of the trait's default `get_blocks_in_range`, from a height on. Its counter is a word, and
-- at the greatest height `h += 1` wraps in a release build; `none` is a fuel that ran out.
unfoldable pub blocks_from : (fuel : ℕ) → (ℕ → Option Block) → (last h : ℕ) → Option (List Block)
blocks_from zero get_at last h = none
blocks_from (suc fuel) get_at last h =
    let rest = blocks_from fuel get_at last ((h + 1) % u64_limit) in
    if leb h last then elim (get_at h) [ none ↦ rest | some b ↦ then_push b rest ] else some []

unfoldable pub blocks_in_range_default :
    (fuel : ℕ) → (ℕ → Option Block) → (first last : ℕ) → Option (List Block)
unfolding blocks_from
blocks_in_range_default fuel get_at first last = blocks_from fuel get_at last first

-- `range` of the height index, which a B-tree walks by ascending height.
abbrev pub by_key : ℕ × ℕ → ℕ × ℕ → Bool
by_key a b = leb a.0 b.0

abbrev pub in_range : ℕ → ℕ → ℕ → Bool
in_range first last h = leb first h && leb h last

unfoldable pub get_blocks_in_range : MemoryBlockStore → ℕ → ℕ → List Block
get_blocks_in_range s first last =
    if ltb last first
    then []
    else filter_map (λ kv. Map.get kv.1 s.by_hash)
        (sort by_key (Map.retain_keys (in_range first last) s.by_height))

abbrev pub memory_store : BlockStore
memory_store = record {
  Store = MemoryBlockStore;
  put_block = put_block;
  get_block = get_block;
  get_block_by_height = get_block_by_height;
}
