-- ===== src/Mempool.antt =====
-- crates/hotmint-mempool/src/lib.rs: the pool of pending transactions. The ordered set of entries is
-- the list of its members in ascending order; the two locks are held through each operation, which
-- is a step here. The hash of a transaction is a parameter.
pub mod Order
pub mod Invariant
pub mod Add
pub mod Recheck
pub mod Collect
use hotmint.Base.Map
use hotmint.Base.{
  ltb, leb, ◌==◌, if◌then◌else◌, length, retain, ℕ, Bool, true, false, not, ◌&&◌, ◌||◌, Option,
  none, some, List, [], ◌∷◌,
}
use hotmint.Base.Bytes.{Bytes, bytes_eq}
use hotmint.Base.Map.{nat_eq, text_eq}
use hotmint.Base.Order.{bytes_leb}
use hotmint.Consensus.VoteCollector.{vote_key_eq}
use hotmint.Staking.Store.{stake_key_eq}
use hotmint.Types.Validator.{get}

pub record TxEntry : Type 0 where
  pub tx : Bytes
  pub priority : ℕ
  pub gas_wanted : ℕ
  pub hash : Bytes

-- `Ord`: by priority, then by hash.
unfoldable pub entry_leb : TxEntry → TxEntry → Bool
entry_leb a b = ltb a.priority b.priority || (a.priority == b.priority && bytes_leb a.hash b.hash)

-- `PartialEq`: `cmp` says `Equal`.
unfoldable pub entry_eq : TxEntry → TxEntry → Bool
entry_eq a b = a.priority == b.priority && bytes_eq a.hash b.hash

-- `BTreeSet::insert` leaves an equal entry in its place.
unfoldable pub insert_entry : TxEntry → List TxEntry → List TxEntry
insert_entry x [] = x ∷ []
insert_entry x (y ∷ ys) =
    let rest = insert_entry x ys in
    if entry_eq x y then y ∷ ys else (if entry_leb x y then x ∷ y ∷ ys else y ∷ rest)

unfoldable pub remove_entry : TxEntry → List TxEntry → List TxEntry
remove_entry x = retain (λ y. not (entry_eq x y))

pub record Mempool : Type 0 where
  pub entries : List TxEntry
  pub seen : List (Bytes × ℕ)
  pub max_size : ℕ
  pub max_tx_bytes : ℕ

unfoldable pub new_pool : ℕ → ℕ → Mempool
new_pool max_size max_tx_bytes = record {
  entries = [];
  seen = [];
  max_size = max_size;
  max_tx_bytes = max_tx_bytes;
}

unfoldable pub size : Mempool → ℕ
size p = length p.entries

abbrev pub put : TxEntry → Mempool → Mempool
put e p = record p {
  entries = insert_entry e p.entries;
  seen = Map.insert e.hash e.priority p.seen;
}

-- The old entry that replace-by-fee builds to remove; it is equal to the pending one.
abbrev pub replace : TxEntry → ℕ → Mempool → Mempool
replace e old p =
    put e
      (record p { entries = remove_entry (record e { priority = old; gas_wanted = 0 }) p.entries })

-- A pool at its size gives up its lowest entry to a higher one.
abbrev pub admit : TxEntry → Mempool → Bool × Mempool
admit e p =
    if leb p.max_size (length p.entries)
    then elim p.entries [
      | [] ↦ (true, put e p)
      | lowest ∷ others ↦
          if leb e.priority lowest.priority
          then (false, p)
          else (true, put e (record p { entries = others; seen = Map.remove lowest.hash p.seen }))
    ]
    else (true, put e p)

module _ (hash_tx : Bytes → Bytes) where
  abbrev pub entry_of : Bytes → ℕ → ℕ → TxEntry
  entry_of tx priority gas = record {
    tx = tx;
    priority = priority;
    gas_wanted = gas;
    hash = hash_tx tx;
  }

  unfoldable pub add_tx_with_gas : Mempool → Bytes → ℕ → ℕ → Bool × Mempool
  add_tx_with_gas p tx priority gas =
      if p.max_size == 0
      then (false, p)
      else if ltb p.max_tx_bytes (length tx)
      then (false, p)
      else elim (Map.get (hash_tx tx) p.seen) [
        | some old ↦
            if leb priority old
            then (false, p)
            else (true, replace (entry_of tx priority gas) old p)
        | none ↦ admit (entry_of tx priority gas) p
      ]

  unfoldable pub add_tx : Mempool → Bytes → ℕ → Bool × Mempool
  add_tx p tx priority = add_tx_with_gas p tx priority 0

-- The loop of `recheck` over the old entries, into the cleared pool.
unfoldable pub recheck_all : (Bytes → Option (ℕ × ℕ)) → List TxEntry → Mempool → Mempool
recheck_all validator [] p = p
recheck_all validator (e ∷ es) p = recheck_all validator es (elim (validator e.tx) [
  | none ↦ p
  | some (priority, gas) ↦ put (record e { priority = priority; gas_wanted = gas }) p
])

unfoldable pub recheck : (Bytes → Option (ℕ × ℕ)) → Mempool → Mempool
recheck validator p = recheck_all validator p.entries (record p { entries = []; seen = [] })
