-- ===== src/Mempool/Recheck.antt =====
-- crates/hotmint-mempool/src/lib.rs: the recheck of the pool after a commit.
use hotmint.Base.Map
use hotmint.Base.{
  Option-cases, length, All, ℕ, ◌+◌, ◌≤◌, ◌≡◌, refl, sym, ◌≢◌, inl, inr, Option, none, List, [],
  ◌∷◌, arith,
}
use hotmint.Base.Bytes.{Bytes}
use hotmint.Base.Map.{nat_eq, text_eq}
use hotmint.Base.Sort.{DistinctBy}
use hotmint.Consensus.VoteCollector.{vote_key_eq}
use hotmint.Mempool.{TxEntry, Mempool, put, recheck_all, recheck}
use hotmint.Mempool.Invariant.{EntryFits, IsPool, put-IsPool}
use hotmint.Mempool.Order.{HashNot, All-insert_entry, length-insert_entry}
use hotmint.Staking.Store.{stake_key_eq}

-- The hashes still to come are new to the pool.
abbrev Fresh : List TxEntry → Mempool → Type 0
Fresh es p = All (λ e. All (HashNot e.hash) p.entries) es

Fresh-put :
    (x : TxEntry) (es : List TxEntry) (p : Mempool)
    → All (λ y. y.hash ≢ x.hash) es
    → Fresh es p
    → Fresh es (put x p)
Fresh-put x [] p d f = tt
Fresh-put x (e ∷ es) p d f = (
  All-insert_entry x (HashNot e.hash) p.entries (λ same. d.0 (sym same)) f.0,
  Fresh-put x es p d.1 f.1,
)

module _ (hash_tx : Bytes → Bytes) where
  recheck_all-IsPool :
      (validator : Bytes → Option (ℕ × ℕ)) (es : List TxEntry) (p : Mempool)
      → IsPool hash_tx p
      → DistinctBy (λ e. e.hash) es
      → All (EntryFits hash_tx p) es
      → Fresh es p
      → length p.entries + length es ≤ p.max_size
      → IsPool hash_tx (recheck_all validator es p)
  unfolding recheck_all
  recheck_all-IsPool validator [] p w d fit f room = w
  recheck_all-IsPool validator (e ∷ es) p w d fit f room = elim (Option-cases (validator e.tx)) [
    | inl gone ↦ rw gone (recheck_all-IsPool validator es p w d.1 fit.1 f.1 (omega (arith, room)))
    | inr (judged, valid) ↦
        let x : TxEntry = record e { priority = judged.0; gas_wanted = judged.1 } in
        let made =
          put-IsPool hash_tx x p w.sorted w.unique f.0 (λ h n. w.tracked h) (omega (arith, room))
            w.each_fits fit.0 in
        rw valid (
          recheck_all-IsPool validator es (put x p) made d.1 fit.1 (Fresh-put x es p d.0 f.1)
            (omega (arith, length-insert_entry x p.entries f.0, room)))
  ]

  -- The recheck keeps the pool in order.
  pub recheck-IsPool :
      (validator : Bytes → Option (ℕ × ℕ)) (p : Mempool)
      → IsPool hash_tx p
      → IsPool hash_tx (recheck validator p)
  unfolding recheck
  recheck-IsPool validator p w =
      recheck_all-IsPool validator p.entries (record p { entries = []; seen = [] })
        (record {
          sorted = tt;
          unique = tt;
          tracked = λ h. nothing h;
          bounded = omega arith;
          each_fits = tt;
        })
        w.unique w.each_fits (all_fresh p.entries) (omega (arith, w.bounded))
    where
      nothing : (h : Bytes) → Map.get {V = ℕ} h [] ≡ none
      nothing h = unfold Map.get in refl

      all_fresh : (es : List TxEntry) → All (λ e. All (HashNot e.hash) []) es
      all_fresh [] = tt
      all_fresh (e ∷ es) = (tt, all_fresh es)
