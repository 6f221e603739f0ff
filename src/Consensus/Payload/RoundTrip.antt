-- ===== src/Consensus/Payload/RoundTrip.antt =====
-- Decoding returns what was framed.
use hotmint.Base.{
  leb, Bool-cases, length, take, drop, length-append, take-append_length, drop-append_length,
  length-drop, All, u32_limit, ℕ, zero, suc, ◌+◌, ◌≤◌, ◌<◌, ◌≡◌, refl, sym, ap, ◌∙◌, inl, inr,
  false, List, [], ◌∷◌, ◌++◌, arith,
}
use hotmint.Base.Bytes.{
  Bytes, to_le_bytes, from_le_bytes, length-to_le_bytes, from_le_bytes-to_le_bytes,
}
use hotmint.Consensus.Payload.{decode_from, decode_payload, frame, encode}

abbrev pub Framable : Bytes → Type 0
Framable tx = length tx < u32_limit

frame_parts :
    (tx rest : Bytes)
    → Framable tx
    → (take 4 (frame tx ++ rest) ≡ to_le_bytes 4 (length tx))
      × (drop 4 (frame tx ++ rest) ≡ tx ++ rest)
unfolding frame to_le_bytes
frame_parts tx rest h = (refl, refl)

length-frame : (tx rest : Bytes) → length (frame tx ++ rest) ≡ 4 + length tx + length rest
unfolding frame
length-frame tx rest = omega (
  arith,
  length-append (to_le_bytes 4 (length tx) ++ tx) rest,
  length-append (to_le_bytes 4 (length tx)) tx,
  length-to_le_bytes 4 (length tx),
)

decode_from-frame :
    (fuel : ℕ) (tx rest : Bytes)
    → Framable tx
    → decode_from (suc fuel) (frame tx ++ rest) ≡ tx ∷ decode_from fuel rest
unfolding decode_from
decode_from-frame fuel tx rest h =
    let (front, back) = frame_parts tx rest h in
    let len = from_le_bytes-to_le_bytes 4 (length tx) (omega arith) in
    rw (front, back, len, take-append_length tx rest, drop-append_length tx rest)
      (ground (arith, length-frame tx rest, length-append tx rest))

decode_from-encode :
    (fuel : ℕ) (txs : List Bytes)
    → All Framable txs
    → length (encode txs) ≤ fuel
    → decode_from fuel (encode txs) ≡ txs
unfolding encode
decode_from-encode zero [] h l = unfold decode_from in refl
decode_from-encode (suc fuel) [] h l = unfold decode_from in refl
decode_from-encode zero (tx ∷ txs) h l = absurd (omega (arith, length-frame tx (encode txs)))
decode_from-encode (suc fuel) (tx ∷ txs) h l =
    decode_from-frame fuel tx (encode txs) h.0
    ∙ ap (◌∷◌ tx) (decode_from-encode fuel txs h.1 (omega (arith, length-frame tx (encode txs))))

-- A payload framed from transactions, each shorter than 2 ^ 32 bytes, decodes to them.
pub decode_payload-encode :
    (txs : List Bytes) → All Framable txs → decode_payload (encode txs) ≡ txs
unfolding decode_payload
decode_payload-encode txs h = decode_from-encode (length (encode txs)) txs h (omega arith)

decode_from-short :
    (fuel : ℕ) (rest : Bytes) → leb 4 (length rest) ≡ false → decode_from fuel rest ≡ []
unfolding decode_from
decode_from-short zero rest h = refl
decode_from-short (suc fuel) rest h = rw h

decode_from_agree :
    (f g : ℕ) (rest : Bytes)
    → length rest ≤ f
    → length rest ≤ g
    → decode_from f rest ≡ decode_from g rest
unfolding decode_from
decode_from_agree zero g rest hf hg = sym (decode_from-short g rest (ground arith))
decode_from_agree (suc f) zero rest hf hg = decode_from-short (suc f) rest (ground arith)
decode_from_agree (suc f) (suc g) rest hf hg = elim (Bool-cases (leb 4 (length rest))) [
  | inr short ↦ rw short
  | inl long ↦
      let len = from_le_bytes (take 4 rest) in
      let a = length-drop 4 rest in
      let b = length-drop len (drop 4 rest) in
      rw (long, decode_from_agree f g (drop len (drop 4 rest)) (ground arith) (ground arith))
]

-- More fuel than the payload's length changes nothing: the loop is never cut short.
pub decode_from-decode_payload :
    (fuel : ℕ) (rest : Bytes) → length rest ≤ fuel → decode_from fuel rest ≡ decode_payload rest
unfolding decode_payload
decode_from-decode_payload fuel rest l = decode_from_agree fuel (length rest) rest l (omega arith)
