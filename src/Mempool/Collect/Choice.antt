-- ===== src/Mempool/Collect/Choice.antt =====
-- crates/hotmint-mempool/src/lib.rs: what `collect_payload_with_gas` chooses, against its two limits.
use mathlib.Core.List.{append-nil, append_assoc}
use hotmint.Base.{
  leb, Bool-cases, length, length-append, All, Subseq, no_entries, with_head, without_head,
  Subseq-nil, u32_limit, ℕ, suc, ◌+◌, ◌≤◌, ◌<◌, ◌≡◌, refl, sym, ap, ◌∙◌, ◌⊎◌, inl, inr, true, false,
  List, [], ◌∷◌, ◌++◌, map, arith,
}
use hotmint.Base.Bytes.{Bytes, to_le_bytes, length-to_le_bytes}
use hotmint.Base.Sort.{sum}
use hotmint.Consensus.Payload.{frame, encode}
use hotmint.Mempool.{TxEntry}
use hotmint.Mempool.Collect.{max_skipped, Verdict, never, skip, take_with, verdict, collect_from}

-- The entries that the loop takes.
unfoldable pub chosen_from : ℕ → ℕ → ℕ → ℕ → ℕ → List TxEntry → List TxEntry
chosen_from max_bytes max_gas used total_gas skipped [] = []
chosen_from max_bytes max_gas used total_gas skipped (e ∷ es) =
    elim (verdict max_bytes max_gas used total_gas e) [
      | never ↦ chosen_from max_bytes max_gas used total_gas skipped es
      | skip ↦ elim (leb max_skipped (suc skipped)) [
        | true ↦ []
        | false ↦ chosen_from max_bytes max_gas used total_gas (suc skipped) es
      ]
      | take_with gas ↦ e ∷ chosen_from max_bytes max_gas (used + (4 + length e.tx)) gas skipped es
    ]

abbrev pub txs : List TxEntry → List Bytes
txs = map λ e. e.tx

abbrev pub FramableEntry : TxEntry → Type 0
FramableEntry e = length e.tx < u32_limit

Verdict-cases : (v : Verdict) → (v ≡ never) ⊎ ((v ≡ skip) ⊎ ((g : ℕ) × (v ≡ take_with g)))
Verdict-cases never = inl refl
Verdict-cases skip = inr (inl refl)
Verdict-cases (take_with g) = inr (inr (g, refl))

-- An entry taken fits the remaining bytes, and the remaining gas where gas is counted.
verdict-take_with :
    (max_bytes max_gas used total_gas g : ℕ) (e : TxEntry)
    → FramableEntry e
    → verdict max_bytes max_gas used total_gas e ≡ take_with g
    → (used + (4 + length e.tx) ≤ max_bytes)
      × (0 < max_gas → (g ≡ total_gas + e.gas_wanted) × (g ≤ max_gas))
unfolding verdict
verdict-take_with max_bytes max_gas used total_gas g e small h =
    (ground arith, λ counted. ground arith)

length-frame_tx : (tx : Bytes) → length (frame tx) ≡ 4 + length tx
unfolding frame
length-frame_tx tx =
    omega (arith, length-append (to_le_bytes 4 (length tx)) tx, length-to_le_bytes 4 (length tx))

pub record Choice (max_bytes max_gas used total_gas : ℕ) (es chosen : List TxEntry) : Type 0 where
  pub in_order : Subseq chosen es
  pub bytes : used + length (encode (txs chosen)) ≤ max_bytes
  pub gas : 0 < max_gas → total_gas + sum (λ e. e.gas_wanted) chosen ≤ max_gas

pub chosen_from-Choice :
    (max_bytes max_gas used total_gas skipped : ℕ) (es : List TxEntry)
    → All FramableEntry es
    → used ≤ max_bytes
    → (0 < max_gas → total_gas ≤ max_gas)
    → Choice max_bytes max_gas used total_gas es
        (chosen_from max_bytes max_gas used total_gas skipped es)
unfolding chosen_from encode
chosen_from-Choice max_bytes max_gas used total_gas skipped [] small fits within = record {
  in_order = no_entries;
  bytes = omega arith;
  gas = λ c. omega (arith, within c);
}
chosen_from-Choice max_bytes max_gas used total_gas skipped (e ∷ es) small fits within =
    elim (Verdict-cases (verdict max_bytes max_gas used total_gas e)) [
      | inl never_fits ↦
          let rest =
            chosen_from-Choice max_bytes max_gas used total_gas skipped es small.1 fits within in
          rw (never_fits, chosen_from)
            (record { in_order = without_head rest.in_order; bytes = rest.bytes; gas = rest.gas })
      | inr (inl skipped_now) ↦ elim (Bool-cases (leb max_skipped (suc skipped))) [
        | inl last ↦
            rw (skipped_now, last, chosen_from)
              (record {
                in_order = Subseq-nil (e ∷ es);
                bytes = omega arith;
                gas = λ c. omega (arith, within c);
              })
        | inr more ↦
            let rest =
              chosen_from-Choice max_bytes max_gas used total_gas (suc skipped) es small.1 fits
                within in
            rw (skipped_now, more, chosen_from)
              (record { in_order = without_head rest.in_order; bytes = rest.bytes; gas = rest.gas })
      ]
      | inr (inr (g, taken)) ↦
          let (room, gas_room) =
            verdict-take_with max_bytes max_gas used total_gas g e small.0 taken in
          let rest =
            chosen_from-Choice max_bytes max_gas (used + (4 + length e.tx)) g skipped es small.1
              room (λ c. (gas_room c).1) in
          rw (taken, chosen_from)
            (record {
              in_order = with_head rest.in_order;
              bytes = omega (arith, rest.bytes, length-frame_tx e.tx, length-append (frame e.tx) _);
              gas = λ c. omega (arith, rest.gas c, (gas_room c).0);
            })
    ]

-- The payload is the framing of the chosen transactions.
pub collect_from-chosen_from :
    (max_bytes max_gas : ℕ) (payload : Bytes) (total_gas skipped : ℕ) (es : List TxEntry)
    → collect_from max_bytes max_gas payload total_gas skipped es
      ≡ payload
        ++ encode (txs (chosen_from max_bytes max_gas (length payload) total_gas skipped es))
unfolding collect_from chosen_from encode
collect_from-chosen_from max_bytes max_gas payload total_gas skipped [] = sym (append-nil payload)
collect_from-chosen_from max_bytes max_gas payload total_gas skipped (e ∷ es) =
    elim (Verdict-cases (verdict max_bytes max_gas (length payload) total_gas e)) [
      | inl never_fits ↦
          rw (never_fits, collect_from, chosen_from)
            (collect_from-chosen_from max_bytes max_gas payload total_gas skipped es)
      | inr (inl skipped_now) ↦ elim (Bool-cases (leb max_skipped (suc skipped))) [
        | inl last ↦ rw (skipped_now, last, collect_from, chosen_from) (sym (append-nil payload))
        | inr more ↦
            rw (skipped_now, more, collect_from, chosen_from)
              (collect_from-chosen_from max_bytes max_gas payload total_gas (suc skipped) es)
      ]
      | inr (inr (g, taken)) ↦
          let longer : length (payload ++ frame e.tx) ≡ length payload + (4 + length e.tx) =
            omega (arith, length-append payload (frame e.tx), length-frame_tx e.tx) in
          rw (taken, collect_from, chosen_from)
            (collect_from-chosen_from max_bytes max_gas (payload ++ frame e.tx) g skipped es
              ∙ append_assoc payload (frame e.tx) _
              ∙ ap
                  (λ n.
                    payload
                    ++ (frame e.tx ++ encode (txs (chosen_from max_bytes max_gas n g skipped es))))
                  longer)
    ]
