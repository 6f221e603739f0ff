-- ===== src/Mempool/Collect/Reap.antt =====
-- crates/hotmint-mempool/src/lib.rs: the payload collected, its limits, and its decoding, which is
-- that of the consensus crate.
use mathlib.Core.List.{reverse_aux}
use hotmint.Base.{
  ltb, Bool-cases, length, take, drop, length-drop, All, drop-drop, Subseq, no_entries, with_head,
  without_head, ℕ, zero, suc, ◌+◌, ◌≤◌, ◌≡◌, refl, ap, ◌∙◌, ◌⊎◌, inl, inr, List, [], ◌∷◌, reverse,
  arith,
}
use hotmint.Base.Bytes.{Bytes, from_le_bytes}
use hotmint.Base.Sort.{sum}
use hotmint.Consensus.Payload.{decode_from, decode_payload, encode}
use hotmint.Consensus.Payload.RoundTrip.{Framable, decode_payload-encode}
use hotmint.Mempool.{TxEntry, Mempool}
use hotmint.Mempool.Collect.{collect_from, collect_payload_with_gas, decode_at, decode}
use hotmint.Mempool.Collect.Choice.{
  chosen_from, txs, FramableEntry, Choice, chosen_from-Choice, collect_from-chosen_from,
}

-- The loop at an offset is the consensus crate's loop on what is left from there.
decode_at-decode_from :
    (fuel offset : ℕ) (payload : Bytes)
    → decode_at fuel offset payload ≡ decode_from fuel (drop offset payload)
unfolding decode_at decode_from
decode_at-decode_from zero offset payload = refl
decode_at-decode_from (suc fuel) offset payload =
    let rest = drop offset payload in
    let len = from_le_bytes (take 4 rest) in
    let ih = decode_at-decode_from fuel (offset + 4 + len) payload in
    let start = drop-drop offset 4 payload in
    let body = drop-drop (offset + 4) len payload in
    let size = length-drop offset payload in
    let size_body = length-drop (offset + 4) payload in
    rw (ih, start, body) (ground (arith, size, size_body))

-- Both copies of `decode_payload` decode a payload alike.
pub decode-decode_payload : (payload : Bytes) → decode payload ≡ decode_payload payload
unfolding decode decode_payload
decode-decode_payload payload = decode_at-decode_from (length payload) 0 payload

FramableEntry-txs : (es : List TxEntry) → All FramableEntry es → All Framable (txs es)
FramableEntry-txs [] h = tt
FramableEntry-txs (e ∷ es) h = (h.0, FramableEntry-txs es h.1)

All-Subseq : (P : TxEntry → Type 0) {xs ys : List TxEntry} → Subseq xs ys → All P ys → All P xs
All-Subseq P no_entries h = tt
All-Subseq P (with_head s) h = (h.0, All-Subseq P s h.1)
All-Subseq P (without_head s) h = All-Subseq P s h.1

All-reverse_aux :
    (P : TxEntry → Type 0) (xs ys : List TxEntry) → All P xs → All P ys → All P (reverse_aux xs ys)
All-reverse_aux P [] ys h k = k
All-reverse_aux P (x ∷ xs) ys h k = All-reverse_aux P xs (x ∷ ys) h.1 (h.0, k)

-- The payload of a block frames transactions of the pool, in the order from the highest down, with
-- some left out; it stays within the byte limit, their gas within the gas limit where there is one,
-- and decoding it gives back exactly these transactions. Each transaction of the pool is shorter
-- than 2 ^ 32 bytes.
pub collect_payload_with_gas_lem :
    (p : Mempool) (max_bytes max_gas : ℕ)
    → All FramableEntry p.entries
    → (chosen : List TxEntry) × Subseq chosen (reverse p.entries)
      × (collect_payload_with_gas p max_bytes max_gas ≡ encode (txs chosen))
      × (length (collect_payload_with_gas p max_bytes max_gas) ≤ max_bytes)
      × ((max_gas ≡ 0) ⊎ (sum (λ e. e.gas_wanted) chosen ≤ max_gas))
      × (decode (collect_payload_with_gas p max_bytes max_gas) ≡ txs chosen)
unfolding collect_payload_with_gas
collect_payload_with_gas_lem p max_bytes max_gas small = (
  chosen,
  choice.in_order,
  made,
  rw made (omega (arith, choice.bytes)),
  (elim (Bool-cases (ltb 0 max_gas)) [
    | inl counted ↦ inr (omega (arith, choice.gas (ground arith)))
    | inr free ↦ inl (ground arith)
  ]),
  (decode-decode_payload _
      ∙ ap decode_payload made
      ∙ decode_payload-encode (txs chosen)
          (FramableEntry-txs chosen (All-Subseq FramableEntry choice.in_order each_small))),
)
  where
    chosen : List TxEntry
    chosen = chosen_from max_bytes max_gas 0 0 0 (reverse p.entries)

    each_small : All FramableEntry (reverse p.entries)
    each_small = All-reverse_aux FramableEntry p.entries [] small tt

    choice : Choice max_bytes max_gas 0 0 (reverse p.entries) chosen
    choice =
        chosen_from-Choice max_bytes max_gas 0 0 0 (reverse p.entries) each_small (omega arith)
          (λ counted. omega arith)

    made : collect_from max_bytes max_gas [] 0 0 (reverse p.entries) ≡ encode (txs chosen)
    made = collect_from-chosen_from max_bytes max_gas [] 0 0 (reverse p.entries)
