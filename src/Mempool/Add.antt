-- ===== src/Mempool/Add.antt =====
-- crates/hotmint-mempool/src/lib.rs: admission, eviction and replace-by-fee.
use hotmint.Base.Map
use hotmint.Base.{
  ltb, leb, ◌==◌, Option-cases, if_cases, length, retain, All, All-retain_of, ℕ, suc, ◌<◌, ◌≡◌,
  refl, sym, ap, ◌∙◌, ◌⊎◌, inl, inr, Bool, true, false, Option, none, some, List, [], ◌∷◌, arith,
}
use hotmint.Base.Bytes.{Bytes, bytes_eq_iff}
use hotmint.Base.Map.{get-insert, get-remove, nat_eq, text_eq}
use hotmint.Base.Sort.{IsSorted, DistinctBy-retain}
use hotmint.Consensus.State.Guard.{accepted}
use hotmint.Consensus.VoteCollector.{vote_key_eq}
use hotmint.Mempool.{
  TxEntry, entry_leb, remove_entry, Mempool, put, replace, admit, entry_of, add_tx_with_gas,
}
use hotmint.Mempool.Invariant.{
  priority_of, EntryFits, IsPool, put-IsPool, HashNot-of_find, find_of_HashNot,
  remove_entry-HashNot, find_hash-remove_entry,
}
use hotmint.Mempool.Order.{HashNot, find_hash}
use hotmint.Staking.Store.{stake_key_eq}

retain-IsSorted :
    (p : TxEntry → Bool) (es : List TxEntry)
    → IsSorted entry_leb es
    → IsSorted entry_leb (retain p es)
retain-IsSorted p [] s = tt
retain-IsSorted p (e ∷ es) s =
    if_cases (IsSorted entry_leb) (p e)
      (λ _. (All-retain_of (λ y. entry_leb e y ≡ true) p es s.0, retain-IsSorted p es s.1))
      (λ _. retain-IsSorted p es s.1)

module _ (hash_tx : Bytes → Bytes) where
  replace-IsPool :
      (e : TxEntry) (old : ℕ) (p : Mempool)
      → IsPool hash_tx p
      → Map.get e.hash p.seen ≡ some old
      → EntryFits hash_tx p e
      → IsPool hash_tx (replace e old p)
  unfolding remove_entry
  replace-IsPool e old p w known fits =
      put-IsPool hash_tx e cleared (retain-IsSorted _ p.entries w.sorted)
        (DistinctBy-retain (λ x. x.hash) _ p.entries w.unique) gone.0
        (λ h n.
          w.tracked h
          ∙ ap (λ (o : Option TxEntry). elim o [ none ↦ none | some x ↦ some x.priority ])
              (sym (find_hash-remove_entry target h p.entries n)))
        (omega (arith, gone.1, w.bounded))
        (All-retain_of (EntryFits hash_tx p) _ p.entries w.each_fits) fits
    where
      target : TxEntry
      target = record e { priority = old; gas_wanted = 0 }

      cleared : Mempool
      cleared = record p { entries = remove_entry target p.entries }

      gone :
          All (HashNot e.hash) (remove_entry target p.entries)
          × (suc (length (remove_entry target p.entries)) ≡ length p.entries)
      gone = remove_entry-HashNot target p.entries w.unique (sym (w.tracked e.hash) ∙ known)

  fresh_HashNot :
      (h : Bytes) (p : Mempool)
      → IsPool hash_tx p
      → Map.get h p.seen ≡ none
      → All (HashNot h) p.entries
  fresh_HashNot h p w fresh = HashNot-of_find h p.entries (ground (arith, w.tracked h, fresh))

  put_fresh-IsPool :
      (e : TxEntry) (p : Mempool)
      → IsPool hash_tx p
      → Map.get e.hash p.seen ≡ none
      → length p.entries < p.max_size
      → EntryFits hash_tx p e
      → IsPool hash_tx (put e p)
  put_fresh-IsPool e p w fresh room fits =
      put-IsPool hash_tx e p w.sorted w.unique (fresh_HashNot e.hash p w fresh) (λ h n. w.tracked h)
        room w.each_fits fits

  abbrev pool : List TxEntry → List (Bytes × ℕ) → ℕ → ℕ → Mempool
  pool es seen n b = record { entries = es; seen = seen; max_size = n; max_tx_bytes = b }

  evicted-IsPool :
      (x : TxEntry) (es : List TxEntry) (seen : List (Bytes × ℕ)) (n b : ℕ)
      → IsPool hash_tx (pool (x ∷ es) seen n b)
      → IsPool hash_tx (pool es (Map.remove x.hash seen) n b)
  evicted-IsPool x es seen n b w = record {
    sorted = w.sorted.1;
    unique = w.unique.1;
    tracked = λ h. ground (
      arith,
      Map.get-remove x.hash h seen,
      w.tracked h,
      ap (λ i. find_hash i es) ((bytes_eq_iff x.hash h).0 _),
      find_of_HashNot x.hash es w.unique.0,
    );
    bounded = omega (arith, w.bounded);
    each_fits = w.each_fits.1;
  }

  admit-IsPool :
      (e : TxEntry) (es : List TxEntry) (seen : List (Bytes × ℕ)) (n b : ℕ)
      → IsPool hash_tx (pool es seen n b)
      → Map.get e.hash seen ≡ none
      → 0 < n
      → EntryFits hash_tx (pool es seen n b) e
      → IsPool hash_tx (admit e (pool es seen n b)).1
  admit-IsPool e [] seen n b w fresh room fits =
      let made = put_fresh-IsPool e (pool [] seen n b) w fresh room fits in
      if_cases Good (leb n 0) (λ _. made) (λ _. made)
    where
      Good : Bool × Mempool → Type 0
      Good o = IsPool hash_tx o.1
  admit-IsPool e (x ∷ es) seen n b w fresh room fits =
      if_cases Good (leb n (length (x ∷ es)))
        (λ _.
          if_cases Good (leb e.priority x.priority) (λ _. w)
            (λ _.
              put_fresh-IsPool e (pool es (Map.remove x.hash seen) n b)
                (evicted-IsPool x es seen n b w)
                (ground (arith, Map.get-remove x.hash e.hash seen, fresh))
                (omega (arith, w.bounded)) fits))
        (λ roomy. put_fresh-IsPool e (pool (x ∷ es) seen n b) w fresh (ground arith) fits)
    where
      Good : Bool × Mempool → Type 0
      Good o = IsPool hash_tx o.1

  -- Adding a transaction, accepted or not, keeps the pool in order: entries ascend by priority and
  -- hash, no transaction is pending twice, `seen` knows the pending ones and their priorities and no
  -- others, and neither the size of the pool nor that of a transaction passes its bound.
  pub add_tx_with_gas-IsPool :
      (p : Mempool) (tx : Bytes) (priority gas : ℕ)
      → IsPool hash_tx p
      → IsPool hash_tx (add_tx_with_gas hash_tx p tx priority gas).1
  unfolding add_tx_with_gas
  add_tx_with_gas-IsPool p tx priority gas w =
      if_cases Good (p.max_size == 0) (λ _. w)
        (λ some_room.
          if_cases Good (ltb p.max_tx_bytes (length tx)) (λ _. w)
            (λ small. (elim (Option-cases (Map.get (hash_tx tx) p.seen)) [
              | inl fresh ↦ rw fresh (
                  admit-IsPool (entry_of hash_tx tx priority gas) p.entries p.seen p.max_size
                    p.max_tx_bytes w fresh (ground arith) (ground arith, refl))
              | inr (old, known) ↦ rw known (
                  if_cases Good (leb priority old) (λ _. w)
                    (λ _.
                      replace-IsPool (entry_of hash_tx tx priority gas) old p w known
                        (ground arith, refl)))
            ])))
    where
      Good : Bool × Mempool → Type 0
      Good o = IsPool hash_tx o.1

  -- The step was accepted and `seen` has the priority, or it was refused and nothing changed.
  abbrev Outcome : Mempool → Bytes → ℕ → Bool × Mempool → Type 0
  Outcome p h priority o = ((o.0 ≡ true) × (Map.get h o.1.seen ≡ some priority)) ⊎ (o ≡ (false, p))

  put-Outcome : (e : TxEntry) (p q : Mempool) → Outcome p e.hash e.priority (true, put e q)
  put-Outcome e p q = inl (
    refl,
    ground (arith, Map.get-insert e.hash e.hash e.priority q.seen, bytes_eq_iff e.hash e.hash),
  )

  admit-Outcome :
      (e : TxEntry) (es : List TxEntry) (seen : List (Bytes × ℕ)) (n b : ℕ)
      → Outcome (pool es seen n b) e.hash e.priority (admit e (pool es seen n b))
  admit-Outcome e [] seen n b =
      if_cases (Outcome (pool [] seen n b) e.hash e.priority) (leb n 0) (λ _. put-Outcome e _ _)
        (λ _. put-Outcome e _ _)
  admit-Outcome e (x ∷ es) seen n b =
      if_cases (Outcome (pool (x ∷ es) seen n b) e.hash e.priority) (leb n (length (x ∷ es)))
        (λ _.
          if_cases (Outcome (pool (x ∷ es) seen n b) e.hash e.priority) (leb e.priority x.priority)
            (λ _. inr refl) (λ _. put-Outcome e _ _))
        (λ _. put-Outcome e _ _)

  add_tx_with_gas-Outcome :
      (p : Mempool) (tx : Bytes) (priority gas : ℕ)
      → Outcome p (hash_tx tx) priority (add_tx_with_gas hash_tx p tx priority gas)
  unfolding add_tx_with_gas
  add_tx_with_gas-Outcome p tx priority gas =
      if_cases Good (p.max_size == 0) (λ _. inr refl)
        (λ _.
          if_cases Good (ltb p.max_tx_bytes (length tx)) (λ _. inr refl)
            (λ _. (elim (Option-cases (Map.get (hash_tx tx) p.seen)) [
              | inl fresh ↦ rw fresh (
                  admit-Outcome (entry_of hash_tx tx priority gas) p.entries p.seen p.max_size
                    p.max_tx_bytes)
              | inr (old, known) ↦ rw known (
                  if_cases Good (leb priority old) (λ _. inr refl)
                    (λ _. put-Outcome (entry_of hash_tx tx priority gas) p _))
            ])))
    where
      Good : Bool × Mempool → Type 0
      Good = Outcome p (hash_tx tx) priority

  -- A transaction accepted is pending with the priority it was given; one refused changes nothing.
  pub add_tx_with_gas_lem :
      (p : Mempool) (tx : Bytes) (priority gas : ℕ)
      → IsPool hash_tx p
      → (((add_tx_with_gas hash_tx p tx priority gas).0 ≡ true)
          × (priority_of (hash_tx tx) (add_tx_with_gas hash_tx p tx priority gas).1.entries
              ≡ some priority))
        ⊎ (add_tx_with_gas hash_tx p tx priority gas ≡ (false, p))
  add_tx_with_gas_lem p tx priority gas w =
      let kept = add_tx_with_gas-IsPool p tx priority gas w in
      elim (add_tx_with_gas-Outcome p tx priority gas) [
        | inl (accepted, known) ↦ inl (accepted, sym (kept.tracked (hash_tx tx)) ∙ known)
        | inr refused ↦ inr refused
      ]
