-- ===== src/Mempool/Invariant.antt =====
-- crates/hotmint-mempool/src/lib.rs: the pool's two indexes agree, and it stays within its bounds.
use hotmint.Base.Map
use hotmint.Base.{
  Bool-cases, length, All, All-imp, ℕ, suc, ◌≤◌, ◌<◌, ◌≡◌, refl, sym, ap, ◌∙◌, inl, inr, true,
  false, Option, none, some, List, [], ◌∷◌, arith,
}
use hotmint.Base.Bytes.{Bytes, bytes_eq, bytes_eq_iff}
use hotmint.Base.Map.{get-insert, nat_eq, text_eq}
use hotmint.Base.Sort.{IsSorted, DistinctBy}
use hotmint.Consensus.VoteCollector.{vote_key_eq}
use hotmint.Mempool.{TxEntry, entry_leb, entry_eq, remove_entry, Mempool, put}
use hotmint.Mempool.Order.{
  HashNot, find_hash, All-insert_entry, length-insert_entry, find_hash-insert_entry,
  insert_entry-IsSorted, insert_entry-DistinctBy,
}
use hotmint.Staking.Store.{stake_key_eq}
use hotmint.Types.Crypto.{count}

abbrev pub priority_of : Bytes → List TxEntry → Option ℕ
priority_of h es = elim (find_hash h es) [ none ↦ none | some e ↦ some e.priority ]

module _ (hash_tx : Bytes → Bytes) where
  abbrev pub EntryFits : Mempool → TxEntry → Type 0
  EntryFits p e = (length e.tx ≤ p.max_tx_bytes) × (e.hash ≡ hash_tx e.tx)

  pub record IsPool (p : Mempool) : Type 0 where
    pub sorted : IsSorted entry_leb p.entries
    pub unique : DistinctBy (λ e. e.hash) p.entries
    pub tracked : (h : Bytes) → Map.get h p.seen ≡ priority_of h p.entries
    pub bounded : length p.entries ≤ p.max_size
    pub each_fits : All (EntryFits p) p.entries

  -- An entry goes in where its hash is free; `seen` may still know the hash.
  pub put-IsPool :
      (e : TxEntry) (p : Mempool)
      → IsSorted entry_leb p.entries
      → DistinctBy (λ e. e.hash) p.entries
      → All (HashNot e.hash) p.entries
      → ((h : Bytes) → bytes_eq e.hash h ≡ false → Map.get h p.seen ≡ priority_of h p.entries)
      → length p.entries < p.max_size
      → All (EntryFits p) p.entries
      → EntryFits p e
      → IsPool (put e p)
  put-IsPool e p s u free t room each fits = record {
    sorted = insert_entry-IsSorted e p.entries free s;
    unique = insert_entry-DistinctBy e p.entries free u;
    tracked = λ h. ground (
      arith,
      Map.get-insert e.hash h e.priority p.seen,
      find_hash-insert_entry e h p.entries free,
      t h,
    );
    bounded = omega (arith, length-insert_entry e p.entries free, room);
    each_fits = All-insert_entry e (EntryFits p) p.entries fits each;
  }

pub HashNot-of_find : (h : Bytes) (es : List TxEntry) → find_hash h es ≡ none → All (HashNot h) es
HashNot-of_find h [] f = tt
HashNot-of_find h (e ∷ es) f =
    ((λ same. ground (arith, bytes_eq_iff e.hash h)), HashNot-of_find h es (ground arith))

pub find_of_HashNot : (h : Bytes) (es : List TxEntry) → All (HashNot h) es → find_hash h es ≡ none
find_of_HashNot h [] n = refl
find_of_HashNot h (e ∷ es) n = ground (arith, bytes_eq_iff e.hash h, n.0, find_of_HashNot h es n.1)

-- A removal by hash and pending priority: what it leaves, and that it removes an entry.
module _ (x : TxEntry) where
  removed-other : (es : List TxEntry) → All (HashNot x.hash) es → remove_entry x es ≡ es
  unfolding remove_entry entry_eq
  removed-other [] n = refl
  removed-other (e ∷ es) n = ground (arith, bytes_eq_iff x.hash e.hash, n.0, removed-other es n.1)

  pub remove_entry-HashNot :
      (es : List TxEntry)
      → DistinctBy (λ e. e.hash) es
      → priority_of x.hash es ≡ some x.priority
      → All (HashNot x.hash) (remove_entry x es) × (suc (length (remove_entry x es)) ≡ length es)
  unfolding remove_entry entry_eq
  remove_entry-HashNot [] d f = absurd (cc)
  remove_entry-HashNot (e ∷ es) d f = elim (Bool-cases (bytes_eq e.hash x.hash)) [
    | inl hit ↦
        let same : e.hash ≡ x.hash = (bytes_eq_iff e.hash x.hash).0 hit in
        let free : All (HashNot x.hash) es =
          All-imp (HashNot e.hash) (HashNot x.hash) es (λ y n m. n (m ∙ sym same)) d.0 in
        let equal : entry_eq x e ≡ true =
          ground (arith, f, hit, bytes_eq_iff x.hash e.hash, same) in
        rw (equal, removed-other es free) (free, refl)
    | inr miss ↦
        let other : entry_eq x e ≡ false =
          ground (arith, bytes_eq_iff x.hash e.hash, bytes_eq_iff e.hash x.hash, miss) in
        let (rest, count) = remove_entry-HashNot es d.1 (ground (arith, f, miss)) in
        rw other
          (((λ same. ground (arith, bytes_eq_iff e.hash x.hash, miss, same)), rest), ap suc count)
  ]

  pub find_hash-remove_entry :
      (h : Bytes) (es : List TxEntry)
      → bytes_eq x.hash h ≡ false
      → find_hash h (remove_entry x es) ≡ find_hash h es
  unfolding remove_entry entry_eq
  find_hash-remove_entry h [] n = refl
  find_hash-remove_entry h (e ∷ es) n = ground (
    arith,
    bytes_eq_iff x.hash e.hash,
    bytes_eq_iff e.hash h,
    bytes_eq_iff x.hash h,
    find_hash-remove_entry h es n,
  )
