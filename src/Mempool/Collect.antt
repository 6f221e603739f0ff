-- ===== src/Mempool/Collect.antt =====
-- crates/hotmint-mempool/src/lib.rs: the choice of transactions for a block.
pub mod Choice
pub mod Reap
use hotmint.Base.{
  ltb, leb, if◌then◌else◌, length, take, drop, u64_limit, checked_add, saturating_add, ℕ, zero, suc,
  ◌+◌, true, false, ◌&&◌, none, some, List, [], ◌∷◌, ◌++◌, reverse,
}
use hotmint.Base.Bytes.{Bytes, from_le_bytes}
use hotmint.Consensus.Commit.{start}
use hotmint.Consensus.Payload.{frame}
use hotmint.Mempool.{TxEntry, Mempool}
use hotmint.Types.Epoch.{next}

abbrev pub max_skipped : ℕ
max_skipped = 200

-- What a round of the loop does with an entry: pass it over for good, count it as skipped, or take
-- it with the gas then used.
pub data Verdict : Type 0 where
  never skip : Verdict
  take_with : (total_gas : ℕ) → Verdict

abbrev pub gas_verdict : ℕ → ℕ → ℕ → Verdict
gas_verdict max_gas total_gas wanted =
    if ltb 0 max_gas
    then elim (checked_add total_gas wanted) [
      | none ↦ skip
      | some next ↦ if ltb max_gas next then skip else take_with next
    ]
    else take_with total_gas

unfoldable pub verdict : ℕ → ℕ → ℕ → ℕ → TxEntry → Verdict
verdict max_bytes max_gas used total_gas e =
    let framed = saturating_add u64_limit 4 (length e.tx) in
    if ltb max_bytes framed
    then never
    else if ltb 0 max_gas && ltb max_gas e.gas_wanted
    then never
    else elim (checked_add used framed) [
      | none ↦ skip
      | some next ↦ if ltb max_bytes next then skip else gas_verdict max_gas total_gas e.gas_wanted
    ]

-- The loop over the entries, highest first, from what it has collected so far.
unfoldable pub collect_from : ℕ → ℕ → Bytes → ℕ → ℕ → List TxEntry → Bytes
collect_from max_bytes max_gas payload total_gas skipped [] = payload
collect_from max_bytes max_gas payload total_gas skipped (e ∷ es) =
    elim (verdict max_bytes max_gas (length payload) total_gas e) [
      | never ↦ collect_from max_bytes max_gas payload total_gas skipped es
      | skip ↦ elim (leb max_skipped (suc skipped)) [
        | true ↦ payload
        | false ↦ collect_from max_bytes max_gas payload total_gas (suc skipped) es
      ]
      | take_with gas ↦ collect_from max_bytes max_gas (payload ++ frame e.tx) gas skipped es
    ]

unfoldable pub collect_payload_with_gas : Mempool → ℕ → ℕ → Bytes
collect_payload_with_gas p max_bytes max_gas =
    collect_from max_bytes max_gas [] 0 0 (reverse p.entries)

unfoldable pub collect_payload : Mempool → ℕ → Bytes
collect_payload p max_bytes = collect_payload_with_gas p max_bytes 0

-- The loop of `decode_payload`, at an offset; each round moves it by four at least.
unfoldable pub decode_at : ℕ → ℕ → Bytes → List Bytes
decode_at zero offset payload = []
decode_at (suc fuel) offset payload =
    let len = from_le_bytes (take 4 (drop offset payload)) in
    let start = offset + 4 in
    let later = take len (drop start payload) ∷ decode_at fuel (start + len) payload in
    if leb (offset + 4) (length payload)
    then (if ltb (length payload) (start + len) then [] else later)
    else []

unfoldable pub decode : Bytes → List Bytes
decode payload = decode_at (length payload) 0 payload
