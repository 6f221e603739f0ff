-- ===== src/Mempool/Order.antt =====
-- The ordered set of pending transactions: what an insertion and a removal keep.
use hotmint.Base.{
  if◌then◌else◌, Bool-cases, if_cases, length, find, All, All-imp, suc, ◌≡◌, refl, sym, ◌≢◌, inl,
  inr, true, false, Option, some, List, [], ◌∷◌, arith,
}
use hotmint.Base.Bytes.{Bytes, bytes_eq, bytes_eq_iff}
use hotmint.Base.Order.{bytes_leb-total, bytes_leb_trans}
use hotmint.Base.Sort.{IsSorted, DistinctBy}
use hotmint.Mempool.{TxEntry, entry_leb, entry_eq, insert_entry}

entry_leb-total : (x y : TxEntry) → entry_leb x y ≡ false → entry_leb y x ≡ true
unfolding entry_leb
entry_leb-total x y h = ground (arith, bytes_leb-total x.hash y.hash)

entry_leb_trans :
    (x y z : TxEntry) → entry_leb x y ≡ true → entry_leb y z ≡ true → entry_leb x z ≡ true
unfolding entry_leb
entry_leb_trans x y z h k = ground (arith, bytes_leb_trans x.hash y.hash z.hash)

abbrev pub HashNot : Bytes → TxEntry → Type 0
HashNot h e = e.hash ≢ h

abbrev pub find_hash : Bytes → List TxEntry → Option TxEntry
find_hash h = find λ e. bytes_eq e.hash h

-- An insertion where no entry has the hash.
module _ (x : TxEntry) where
  not_equal : (y : TxEntry) → HashNot x.hash y → entry_eq x y ≡ false
  unfolding entry_eq
  not_equal y n = ground (arith, bytes_eq_iff x.hash y.hash)

  insert_entry-cons :
      (y : TxEntry) (ys : List TxEntry)
      → HashNot x.hash y
      → insert_entry x (y ∷ ys) ≡ (if entry_leb x y then x ∷ y ∷ ys else y ∷ insert_entry x ys)
  unfolding insert_entry
  insert_entry-cons y ys n = rw (not_equal y n) refl

  pub All-insert_entry :
      (P : TxEntry → Type 0) (ys : List TxEntry) → P x → All P ys → All P (insert_entry x ys)
  unfolding insert_entry
  All-insert_entry P [] p h = (p, tt)
  All-insert_entry P (y ∷ ys) p h =
      if_cases (All P) (entry_eq x y) (λ _. h)
        (λ _.
          if_cases (All P) (entry_leb x y) (λ _. (p, h)) (λ _. (h.0, All-insert_entry P ys p h.1)))

  pub length-insert_entry :
      (ys : List TxEntry) → All (HashNot x.hash) ys → length (insert_entry x ys) ≡ suc (length ys)
  length-insert_entry [] n = unfold insert_entry in refl
  length-insert_entry (y ∷ ys) n =
      ground (arith, insert_entry-cons y ys n.0, length-insert_entry ys n.1)

  pub find_hash-insert_entry :
      (h : Bytes) (ys : List TxEntry)
      → All (HashNot x.hash) ys
      → find_hash h (insert_entry x ys) ≡ (if bytes_eq x.hash h then some x else find_hash h ys)
  find_hash-insert_entry h [] n = unfold insert_entry in refl
  find_hash-insert_entry h (y ∷ ys) n = ground (
    arith,
    insert_entry-cons y ys n.0,
    find_hash-insert_entry h ys n.1,
    bytes_eq_iff x.hash h,
    bytes_eq_iff y.hash h,
    n.0,
  )

  pub insert_entry-IsSorted :
      (ys : List TxEntry)
      → All (HashNot x.hash) ys
      → IsSorted entry_leb ys
      → IsSorted entry_leb (insert_entry x ys)
  insert_entry-IsSorted [] n s = unfold insert_entry in (tt, tt)
  insert_entry-IsSorted (y ∷ ys) n s =
      rw (insert_entry-cons y ys n.0) (elim (Bool-cases (entry_leb x y)) [
        | inl before ↦ rw before (
          (
            before,
            All-imp (λ z. entry_leb y z ≡ true) (λ z. entry_leb x z ≡ true) ys
                (λ z h. entry_leb_trans x y z before h) s.0,
          ),
          s,
        )
        | inr after ↦ rw after (
          All-insert_entry (λ z. entry_leb y z ≡ true) ys (entry_leb-total x y after) s.0,
          insert_entry-IsSorted ys n.1 s.1,
        )
      ])

  pub insert_entry-DistinctBy :
      (ys : List TxEntry)
      → All (HashNot x.hash) ys
      → DistinctBy (λ e. e.hash) ys
      → DistinctBy (λ e. e.hash) (insert_entry x ys)
  insert_entry-DistinctBy [] n d = unfold insert_entry in (tt, tt)
  insert_entry-DistinctBy (y ∷ ys) n d = rw (insert_entry-cons y ys n.0) (
      if_cases (DistinctBy (λ e. e.hash)) (entry_leb x y) (λ _. (n, d))
        (λ _. (
          All-insert_entry (HashNot y.hash) ys (λ e. n.0 (sym e)) d.0,
          insert_entry-DistinctBy ys n.1 d.1,
        )))
