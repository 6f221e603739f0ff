-- ===== src/Consensus/Store/Laws.antt =====
-- The laws of the block store in memory.
use hotmint.Base.Map
use hotmint.Base.{
  ◌==◌, if◌then◌else◌, ==_iff, Bool-cases, Option-cases, ℕ, ◌≡◌, refl, sym, ap, ◌∙◌, subst, ◌≢◌,
  ◌⊎◌, inl, inr, ◌&&◌, none, some, arith,
}
use hotmint.Base.Map.{get-insert, nat_eq, text_eq}
use hotmint.Consensus.Store.{
  MemoryBlockStore, put_block, get_block, get_block_by_height, put_commit_qc,
}
use hotmint.Consensus.VoteCollector.{vote_key_eq}
use hotmint.Types.Block.{Block}
use hotmint.Types.Certificate.{QuorumCertificate}

-- A block put is found under its hash, and every other hash as before.
pub get_block-put_block :
    (s : MemoryBlockStore) (b : Block) (hash : ℕ)
    → get_block (put_block s b) hash ≡ (if b.hash == hash then some b else get_block s hash)
unfolding get_block put_block
get_block-put_block s b hash = Map.get-insert b.hash hash b s.by_hash

-- The height index leads to stored blocks of their height, and to the committed one where that is
-- stored.
pub record IsIndexed (s : MemoryBlockStore) : Type 0 where
  pub heights :
      (h hash : ℕ)
      → Map.get h s.by_height ≡ some hash
      → (b : Block) × (Map.get hash s.by_hash ≡ some b) × (b.height ≡ h)
  pub committed :
      (h : ℕ) (qc : QuorumCertificate) (b : Block)
      → Map.get h s.commit_qcs ≡ some qc
      → Map.get qc.block_hash s.by_hash ≡ some b
      → b.height ≡ h
      → Map.get h s.by_height ≡ some qc.block_hash

-- No stored block of another height has the block's hash.
abbrev pub NoCollision : MemoryBlockStore → Block → Type 0
NoCollision s b = (old : Block) → get_block s b.hash ≡ some old → old.height ≡ b.height

put_block-by_height :
    (s : MemoryBlockStore) (b : Block) (h : ℕ)
    → (Map.get h (put_block s b).by_height ≡ Map.get h s.by_height)
      ⊎ ((h ≡ b.height) × (Map.get h (put_block s b).by_height ≡ some b.hash))
unfolding put_block
put_block-by_height s b h = ground (arith, Map.get-insert b.height h b.hash s.by_height)

put_block-by_height_committed :
    (s : MemoryBlockStore) (b : Block) (h : ℕ) (qc : QuorumCertificate)
    → Map.get h s.commit_qcs ≡ some qc
    → Map.get h (put_block s b).by_height
      ≡ (if h == b.height && qc.block_hash == b.hash then some b.hash else Map.get h s.by_height)
unfolding put_block
put_block-by_height_committed s b h qc e = elim (Bool-cases (h == b.height)) [
  | inl same ↦
      let at : Map.get b.height s.commit_qcs ≡ some qc =
        subst (λ x. Map.get x s.commit_qcs ≡ some qc) ((==_iff h b.height).0 same) e in
      ground (arith, at, same, Map.get-insert b.height h b.hash s.by_height)
  | inr other ↦ ground (arith, other, Map.get-insert b.height h b.hash s.by_height)
]

put_block-by_hash :
    (s : MemoryBlockStore) (b : Block) (hash : ℕ)
    → Map.get hash (put_block s b).by_hash
      ≡ (if b.hash == hash then some b else Map.get hash s.by_hash)
unfolding put_block
put_block-by_hash s b hash = Map.get-insert b.hash hash b s.by_hash

put_block-commit_qcs :
    (s : MemoryBlockStore) (b : Block) → (put_block s b).commit_qcs ≡ s.commit_qcs
unfolding put_block
put_block-commit_qcs s b = refl

module _ (s : MemoryBlockStore) (b : Block) (apart : NoCollision s b) (v : IsIndexed s) where
  put_block-heights :
      (h hash : ℕ)
      → Map.get h (put_block s b).by_height ≡ some hash
      → (c : Block) × (Map.get hash (put_block s b).by_hash ≡ some c) × (c.height ≡ h)
  unfolding get_block
  put_block-heights h hash e =
      let stored = put_block-by_hash s b hash in
      elim (put_block-by_height s b h) [
        | inr (at, now) ↦ (b, ground arith, ground arith)
        | inl same ↦
            let (old, found, height) = v.heights h hash (sym same ∙ e) in
            elim (Bool-cases (b.hash == hash)) [
              | inl hit ↦ (b, ground arith, ground (arith, apart old))
              | inr miss ↦ (old, ground arith, height)
            ]
      ]

  put_block-committed :
      (h : ℕ) (qc : QuorumCertificate) (c : Block)
      → Map.get h s.commit_qcs ≡ some qc
      → Map.get qc.block_hash (put_block s b).by_hash ≡ some c
      → c.height ≡ h
      → Map.get h (put_block s b).by_height ≡ some qc.block_hash
  put_block-committed h qc c e found height = ground (
    arith,
    put_block-by_hash s b qc.block_hash,
    put_block-by_height_committed s b h qc e,
    v.committed h qc c e,
  )

  -- Where no two blocks of different heights share a hash, putting a block keeps the index right: a
  -- height leads to a block of that height, and a committed height to its committed block.
  pub put_block-IsIndexed : IsIndexed (put_block s b)
  put_block-IsIndexed = record {
    heights = put_block-heights;
    committed = λ h qc c e found height.
        put_block-committed h qc c (ap (Map.get h) (sym (put_block-commit_qcs s b)) ∙ e) found
          height;
  }

put_commit_qc-by_height :
    (s : MemoryBlockStore) (h h' : ℕ) (qc : QuorumCertificate)
    → Map.get h' (put_commit_qc s h qc).by_height ≡ elim (Map.get qc.block_hash s.by_hash) [
      | some b ↦ if h == h' && b.height == h then some qc.block_hash else Map.get h' s.by_height
      | none ↦ Map.get h' s.by_height
    ]
unfolding put_commit_qc
put_commit_qc-by_height s h h' qc = ground (arith, Map.get-insert h h' qc.block_hash s.by_height)

put_commit_qc-commit_qcs :
    (s : MemoryBlockStore) (h h' : ℕ) (qc : QuorumCertificate)
    → Map.get h' (put_commit_qc s h qc).commit_qcs
      ≡ (if h == h' then some qc else Map.get h' s.commit_qcs)
unfolding put_commit_qc
put_commit_qc-commit_qcs s h h' qc = Map.get-insert h h' qc s.commit_qcs

module _ (s : MemoryBlockStore) (h : ℕ) (qc : QuorumCertificate) (v : IsIndexed s) where
  put_commit_qc-heights :
      (h' hash : ℕ)
      → Map.get h' (put_commit_qc s h qc).by_height ≡ some hash
      → (c : Block) × (Map.get hash s.by_hash ≡ some c) × (c.height ≡ h')
  put_commit_qc-heights h' hash e = elim (Option-cases (Map.get qc.block_hash s.by_hash)) [
    | inl absent ↦ v.heights h' hash (ground (arith, put_commit_qc-by_height s h h' qc, absent))
    | inr (b, at) ↦ elim (Bool-cases (h == h' && b.height == h)) [
      | inl hit ↦
          let same : qc.block_hash ≡ hash =
            ground (arith, put_commit_qc-by_height s h h' qc, at, hit) in
          (b, subst (λ x. Map.get x s.by_hash ≡ some b) same at, ground arith)
      | inr miss ↦ v.heights h' hash (ground (arith, put_commit_qc-by_height s h h' qc, at, miss))
    ]
  ]

  put_commit_qc-committed :
      (h' : ℕ) (q : QuorumCertificate) (c : Block)
      → Map.get h' (put_commit_qc s h qc).commit_qcs ≡ some q
      → Map.get q.block_hash s.by_hash ≡ some c
      → c.height ≡ h'
      → Map.get h' (put_commit_qc s h qc).by_height ≡ some q.block_hash
  put_commit_qc-committed h' q c e found height = elim (Bool-cases (h == h')) [
    | inl hit ↦
        let same : qc ≡ q = ground (arith, put_commit_qc-commit_qcs s h h' qc, hit, e) in
        let known : Map.get qc.block_hash s.by_hash ≡ some c =
          subst (λ (x : QuorumCertificate). Map.get x.block_hash s.by_hash ≡ some c) (sym same)
            found in
        let at : qc.block_hash ≡ q.block_hash = ap (λ (x : QuorumCertificate). x.block_hash) same in
        ground (arith, put_commit_qc-by_height s h h' qc, known, hit, at, height)
    | inr miss ↦
        let old : Map.get h' s.commit_qcs ≡ some q =
          ground (arith, put_commit_qc-commit_qcs s h h' qc, miss, e) in
        elim (Option-cases (Map.get qc.block_hash s.by_hash)) [
          | inl absent ↦
              ground
                (arith, put_commit_qc-by_height s h h' qc, absent, v.committed h' q c old found)
          | inr (b, at) ↦
              ground
                (arith, put_commit_qc-by_height s h h' qc, at, miss, v.committed h' q c old found)
        ]
  ]

  -- Recording a commit certificate keeps the index right, and points the height at the certified
  -- block if that is stored.
  pub put_commit_qc-IsIndexed : IsIndexed (put_commit_qc s h qc)
  unfolding put_commit_qc
  put_commit_qc-IsIndexed = record {
    heights = λ h' hash e. put_commit_qc-heights h' hash e;
    committed = λ h' q c e found height. put_commit_qc-committed h' q c e found height;
  }

-- A block of a height that is committed to another stored block never displaces it.
pub committed_block_stays :
    (s : MemoryBlockStore) (b c : Block) (h : ℕ) (qc : QuorumCertificate)
    → IsIndexed s
    → NoCollision s b
    → b.hash ≢ qc.block_hash
    → Map.get h s.commit_qcs ≡ some qc
    → get_block s qc.block_hash ≡ some c
    → c.height ≡ h
    → get_block_by_height (put_block s b) h ≡ some c
unfolding get_block get_block_by_height
committed_block_stays s b c h qc v apart other e found height =
    let stored = put_block-by_hash s b qc.block_hash in
    let known : Map.get qc.block_hash (put_block s b).by_hash ≡ some c = ground arith in
    let at = put_block-committed s b apart v h qc c e known height in
    rw (at, get_block_by_height) known
