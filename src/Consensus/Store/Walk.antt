-- ===== src/Consensus/Store/Walk.antt =====
-- crates/hotmint-consensus/src/store.rs: the range query of the in-memory store, one height at a time.
use hotmint.Base.Map
use hotmint.Base.{
  ltb, ◌==◌, ==_iff, Bool-cases, if_cases, All, filter_map, ℕ, zero, suc, ◌+◌, ◌-◌, ◌≤◌, ◌<◌, ◌≡◌,
  refl, sym, ap, ◌∙◌, ◌≢◌, inl, inr, true, Option, none, some, List, [], ◌∷◌, arith,
}
use hotmint.Base.Keys.{
  DistinctKeys, get_of_Lacks, get-cons_self, DistinctKeys-sort, get-sort, DistinctKeys-retain_keys,
}
use hotmint.Base.Map.{retain_keys, get-retain_keys, nat_eq, text_eq}
use hotmint.Base.Sort.{sort, IsSorted, All-sort, sort-IsSorted}
use hotmint.Consensus.Store.{
  MemoryBlockStore, get_block_by_height, by_key, in_range, get_blocks_in_range,
}
use hotmint.Consensus.VoteCollector.{vote_key_eq}
use hotmint.Staking.Store.{stake_key_eq}
use hotmint.Types.Block.{Block}

abbrev looked_up : List (ℕ × Block) → Option ℕ → Option Block
looked_up by_hash o = elim o [ none ↦ none | some hash ↦ Map.get hash by_hash ]

-- The blocks at a number of heights, from a height on.
unfoldable pub blocks_at : (ℕ → Option Block) → ℕ → ℕ → List Block
blocks_at get_at zero h = []
blocks_at get_at (suc left) h = elim (get_at h) [
  | none ↦ blocks_at get_at left (suc h)
  | some b ↦ b ∷ blocks_at get_at left (suc h)
]

abbrev Bounded : ℕ → ℕ → List (ℕ × ℕ) → Type 0
Bounded h left = All (λ kv. (h ≤ kv.0) × (kv.0 < h + left))

empty_of_Bounded : (h : ℕ) (l : List (ℕ × ℕ)) → Bounded h 0 l → l ≡ []
empty_of_Bounded h [] b = refl
empty_of_Bounded h (x ∷ l) b = absurd (omega (arith, b.0.0, b.0.1))

-- The bounds of the entries after one at the first height.
Bounded-tail :
    (h left v : ℕ) (l : List (ℕ × ℕ))
    → All (λ kv. kv.0 ≢ h) l
    → Bounded h (suc left) l
    → Bounded (suc h) left l
Bounded-tail h left v [] n b = tt
Bounded-tail h left v (x ∷ l) n b = (ground (arith, n.0, b.0), Bounded-tail h left v l n.1 b.1)

Lacks-above :
    (h k v : ℕ) (l : List (ℕ × ℕ))
    → h < k
    → All (λ y. by_key (k, v) y ≡ true) l
    → All (λ kv. kv.0 ≢ h) l
Lacks-above h k v [] above s = tt
Lacks-above h k v (x ∷ l) above s = ((λ e. ground (arith, s.0)), Lacks-above h k v l above s.1)

-- Below the first entry nothing is found.
get_below :
    (h k v : ℕ) (l : List (ℕ × ℕ))
    → h < k
    → All (λ y. by_key (k, v) y ≡ true) l
    → Map.get h ((k, v) ∷ l) ≡ none
get_below h k v l above s =
    get_of_Lacks h ((k, v) ∷ l) ((λ e. omega (arith, above, e)), Lacks-above h k v l above s)

Bounded-above :
    (h k left v : ℕ) (l : List (ℕ × ℕ))
    → h < k
    → All (λ y. by_key (k, v) y ≡ true) l
    → Bounded h (suc left) l
    → Bounded (suc h) left l
Bounded-above h k left v l above s b = Bounded-tail h left v l (Lacks-above h k v l above s) b

get_above_tail : (k h v : ℕ) (l : List (ℕ × ℕ)) → h < k → Map.get k ((h, v) ∷ l) ≡ Map.get k l
unfolding Map.get
get_above_tail k h v l above = ground arith

-- One step of the walk, at a height with a hash and at one without.
step_some :
    (by_hash : List (ℕ × Block)) (k v left h : ℕ) (l m : List (ℕ × ℕ))
    → Map.get h m ≡ some v
    → filter_map (λ kv. Map.get kv.1 by_hash) l
      ≡ blocks_at (λ k. looked_up by_hash (Map.get k m)) left (suc h)
    → filter_map (λ kv. Map.get kv.1 by_hash) ((k, v) ∷ l)
      ≡ blocks_at (λ k. looked_up by_hash (Map.get k m)) (suc left) h
unfolding blocks_at
step_some by_hash k v left h l m found rest =
    rw (found, blocks_at) (ap (λ bs. elim (Map.get v by_hash) [ none ↦ bs | some b ↦ b ∷ bs ]) rest)

step_none :
    (by_hash : List (ℕ × Block)) (left h : ℕ) (m : List (ℕ × ℕ))
    → Map.get h m ≡ none
    → blocks_at (λ k. looked_up by_hash (Map.get k m)) (suc left) h
      ≡ blocks_at (λ k. looked_up by_hash (Map.get k m)) left (suc h)
unfolding blocks_at
step_none by_hash left h m none_at = rw (none_at, blocks_at) refl

-- A sorted list of the entries of `m` from a height on, against the walk over the heights.
walk_range :
    (by_hash : List (ℕ × Block)) (m : List (ℕ × ℕ)) (left h : ℕ) (l : List (ℕ × ℕ))
    → IsSorted by_key l
    → DistinctKeys l
    → Bounded h left l
    → ((k : ℕ) → h ≤ k → k < h + left → Map.get k l ≡ Map.get k m)
    → filter_map (λ kv. Map.get kv.1 by_hash) l
      ≡ blocks_at (λ k. looked_up by_hash (Map.get k m)) left h
unfolding blocks_at
walk_range by_hash m zero h l s d b same = rw (empty_of_Bounded h l b) refl
walk_range by_hash m (suc left) h [] s d b same =
    walk_range by_hash m left (suc h) [] tt tt tt
      (λ k le lt. same k (omega (arith, le)) (omega (arith, lt)))
    ∙ sym (
        step_none by_hash left h m
          (sym (same h (omega arith) (omega arith)) ∙ get_of_Lacks h [] tt))
walk_range by_hash m (suc left) h ((k, v) ∷ l) s d b same = elim (Bool-cases (k == h)) [
  | inl hit ↦
      let key : k ≡ h = (==_iff k h).0 hit in
      step_some by_hash k v left h l m
        (sym (same h (omega arith) (omega arith)) ∙ rw key (get-cons_self h v l))
        (walk_range by_hash m left (suc h) l s.1 d.1 (Bounded-tail h left v l (rw (← key) d.0) b.1)
          (λ j le lt.
            sym (get_above_tail j k v l (omega (arith, key, le)))
            ∙ same j (omega (arith, le)) (omega (arith, lt))))
  | inr miss ↦
      let above : h < k = ground (arith, b.0.0) in
      walk_range by_hash m left (suc h) ((k, v) ∷ l) s d
        ((above, omega (arith, b.0.1)), Bounded-above h k left v l above s.0 b.1)
        (λ j le lt. same j (omega (arith, le)) (omega (arith, lt)))
      ∙ sym (
          step_none by_hash left h m
            (sym (same h (omega arith) (omega arith)) ∙ get_below h k v l above s.0))
]

-- The entries the range keeps are within its bounds.
Bounded-in_range :
    (first last : ℕ) (m : List (ℕ × ℕ))
    → first ≤ last
    → Bounded first (suc last - first) (Map.retain_keys (in_range first last) m)
unfolding Map.retain_keys
Bounded-in_range first last [] le = tt
Bounded-in_range first last ((k, v) ∷ m) le =
    if_cases (Bounded first (suc last - first)) (in_range first last k)
      (λ inside.
        ((ground (arith, inside), ground (arith, inside, le)), Bounded-in_range first last m le))
      (λ _. Bounded-in_range first last m le)

-- What is found in the sorted range, within its bounds.
get-range :
    (first last k : ℕ) (m : List (ℕ × ℕ))
    → DistinctKeys m
    → first ≤ k
    → k < suc last
    → Map.get k (sort by_key (Map.retain_keys (in_range first last) m)) ≡ Map.get k m
get-range first last k m d low high =
    get-sort by_key k (Map.retain_keys (in_range first last) m)
      (DistinctKeys-retain_keys (in_range first last) m d)
    ∙ get-retain_keys (in_range first last) k m
    ∙ ground (arith, low, high)

-- The range query returns the blocks at the heights of the range, in their order.
pub range_walked :
    (s : MemoryBlockStore) (first last : ℕ)
    → DistinctKeys s.by_height
    → get_blocks_in_range s first last ≡ blocks_at (get_block_by_height s) (suc last - first) first
unfolding get_blocks_in_range get_block_by_height blocks_at
range_walked s first last d =
    let inside = Map.retain_keys (in_range first last) s.by_height in
    elim (Bool-cases (ltb last first)) [
      | inl above ↦
          let empty : suc last - first ≡ 0 = ground (arith, above) in rw (above, empty) refl
      | inr not_above ↦
          let below : first ≤ last = ground (arith, not_above) in
          rw not_above (
            walk_range s.by_hash s.by_height (suc last - first) first (sort by_key inside)
              (sort-IsSorted by_key (λ x y off. ground (arith, off))
                (λ x y z low high. ground (arith, low, high)) inside)
              (DistinctKeys-sort by_key inside
                (DistinctKeys-retain_keys (in_range first last) s.by_height d))
              (All-sort (λ kv. (first ≤ kv.0) × (kv.0 < first + (suc last - first))) by_key inside
                (Bounded-in_range first last s.by_height below))
              (λ k low high. get-range first last k s.by_height d low (omega (arith, high, below))))
    ]
