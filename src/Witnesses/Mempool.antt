-- ===== src/Witnesses/Mempool.antt =====
-- The theorems on the pool and the tracker of missed commits, at small inputs.
use hotmint.Base.Map
use hotmint.Base.{
  ◌==◌, if◌then◌else◌, length, any, All, Subseq, ℕ, ◌*◌, ◌≤◌, ◌≡◌, refl, ◌⊎◌, Bool, true, false,
  Option, none, some, List, [], ◌∷◌, reverse, arith,
}
use hotmint.Base.Bytes.{Bytes, bytes_eq}
use hotmint.Base.Map.{nat_eq, text_eq}
use hotmint.Base.Order.{bytes_leb}
use hotmint.Base.Sort.{sum}
use hotmint.Consensus.Liveness.{new_tracker, Offline, offline_validators, reset, stats}
use hotmint.Consensus.Liveness.Counts.{
  record_all, count_misses, stats-record_all, IsOver, offline_validators_lem,
}
use hotmint.Consensus.Payload.{decode_payload, encode}
use hotmint.Consensus.VoteCollector.{vote_key_eq}
use hotmint.Mempool.{TxEntry, entry_leb, entry_eq, insert_entry, Mempool, entry_of, add_tx_with_gas}
use hotmint.Mempool.Add.{add_tx_with_gas-IsPool, add_tx_with_gas_lem}
use hotmint.Mempool.Collect.{collect_payload_with_gas, decode}
use hotmint.Mempool.Collect.Choice.{txs}
use hotmint.Mempool.Collect.Reap.{decode-decode_payload, collect_payload_with_gas_lem}
use hotmint.Mempool.Invariant.{priority_of, IsPool}
use hotmint.Staking.Store.{stake_key_eq}
use hotmint.Types.Validator.{ValidatorSet}
use hotmint.Witnesses.Validators.{four, four-IsValid}

-- A stand-in for the hash of a transaction.
abbrev same_bytes : Bytes → Bytes
same_bytes tx = tx

abbrev room_for_two : Mempool
room_for_two = record { entries = []; seen = []; max_size = 2; max_tx_bytes = 4 }

room_for_two-IsPool : IsPool same_bytes room_for_two
unfolding Map.get
room_for_two-IsPool = record {
  sorted = tt;
  unique = tt;
  tracked = λ h. refl;
  bounded = omega arith;
  each_fits = tt;
}

-- A full pool.
abbrev full : Mempool
full = record {
  entries = entry_of same_bytes (1 ∷ []) 5 100 ∷ entry_of same_bytes (2 ∷ 2 ∷ []) 9 300 ∷ [];
  seen = ((1 ∷ []), 5) ∷ ((2 ∷ 2 ∷ []), 9) ∷ [];
  max_size = 2;
  max_tx_bytes = 4;
}

full-IsPool : IsPool same_bytes full
unfolding add_tx_with_gas insert_entry entry_eq entry_leb bytes_leb bytes_eq Map.get Map.insert
full-IsPool =
    add_tx_with_gas-IsPool same_bytes (add_tx_with_gas same_bytes room_for_two (1 ∷ []) 5 100).1
      (2 ∷ 2 ∷ []) 9 300
      (add_tx_with_gas-IsPool same_bytes room_for_two (1 ∷ []) 5 100 room_for_two-IsPool)

-- The pool is full: the entry of priority 5 makes room.
add_tx_with_gas-IsPool_example : IsPool same_bytes (add_tx_with_gas same_bytes full (3 ∷ []) 7 50).1
add_tx_with_gas-IsPool_example = add_tx_with_gas-IsPool same_bytes full (3 ∷ []) 7 50 full-IsPool

add_tx_with_gas_lem_example :
    (((add_tx_with_gas same_bytes full (3 ∷ []) 7 50).0 ≡ true)
      × (priority_of (3 ∷ []) (add_tx_with_gas same_bytes full (3 ∷ []) 7 50).1.entries ≡ some 7))
    ⊎ (add_tx_with_gas same_bytes full (3 ∷ []) 7 50 ≡ (false, full))
add_tx_with_gas_lem_example = add_tx_with_gas_lem same_bytes full (3 ∷ []) 7 50 full-IsPool

-- The first transaction is no longer valid, and the second has a new priority.
abbrev judge : Bytes → Option (ℕ × ℕ)
judge tx = if bytes_eq tx (1 ∷ []) then none else some (4, 200)

collect_payload_with_gas_lem_example :
    (chosen : List TxEntry) × Subseq chosen (reverse full.entries)
    × (collect_payload_with_gas full 12 350 ≡ encode (txs chosen))
    × (length (collect_payload_with_gas full 12 350) ≤ 12)
    × ((◌≡◌ {A = ℕ} 350 0) ⊎ (sum (λ e. e.gas_wanted) chosen ≤ 350))
    × (decode (collect_payload_with_gas full 12 350) ≡ txs chosen)
collect_payload_with_gas_lem_example =
    collect_payload_with_gas_lem full 12 350 (omega arith, (omega arith, tt))

decode-decode_payload_example :
    decode (1 ∷ 0 ∷ 0 ∷ 0 ∷ 9 ∷ 7 ∷ []) ≡ decode_payload (1 ∷ 0 ∷ 0 ∷ 0 ∷ 9 ∷ 7 ∷ [])
decode-decode_payload_example = decode-decode_payload (1 ∷ 0 ∷ 0 ∷ 0 ∷ 9 ∷ 7 ∷ [])

-- Member 3 misses two commits of three.
abbrev three_commits : List (ValidatorSet × List Bool)
three_commits =
    (four, true ∷ false ∷ true ∷ true ∷ [])
    ∷ (four, true ∷ false ∷ true ∷ [])
    ∷ (four, true ∷ true ∷ true ∷ true ∷ [])
    ∷ []

stats-record_all_example :
    ((stats (record_all (reset new_tracker) three_commits) 3).0 ≡ 2)
    × ((stats (record_all (reset new_tracker) three_commits) 3).1 ≡ 3)
stats-record_all_example =
    stats-record_all new_tracker 3 three_commits (four-IsValid, (four-IsValid, (four-IsValid, tt)))

offline_validators_lem_example :
    All
      (IsOver (record_all (reset new_tracker) three_commits))
      (offline_validators (record_all (reset new_tracker) three_commits))
    × ((id : ℕ)
        → (count_misses id three_commits
              * (record_all (reset new_tracker) three_commits).threshold_den
            ≤ (record_all (reset new_tracker) three_commits).threshold_num * 3)
          ⊎ (any
                (λ (o : Offline). o.id == id)
                (offline_validators (record_all (reset new_tracker) three_commits))
              ≡ true))
offline_validators_lem_example =
    offline_validators_lem new_tracker three_commits
      (four-IsValid, (four-IsValid, (four-IsValid, tt))) (omega arith)
