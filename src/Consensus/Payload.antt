-- ===== src/Consensus/Payload.antt =====
-- `decode_payload` of crates/hotmint-consensus/src/commit.rs, and the framing that
-- crates/hotmint-mempool/src/lib.rs writes.
pub mod RoundTrip
use hotmint.Base.{leb, if◌then◌else◌, length, take, drop, ℕ, zero, suc, List, [], ◌∷◌, ◌++◌}
use hotmint.Base.Bytes.{Bytes, to_le_bytes, from_le_bytes}

-- One round of the loop for each transaction; the fuel is the payload's length, and each round takes
-- four bytes at least. A prefix that claims more than is left ends the loop.
unfoldable pub decode_from : ℕ → Bytes → List Bytes
decode_from zero rest = []
decode_from (suc fuel) rest =
    let len = from_le_bytes (take 4 rest) in
    let body = drop 4 rest in
    let later = take len body ∷ decode_from fuel (drop len body) in
    if leb 4 (length rest) then (if leb len (length body) then later else []) else []

unfoldable pub decode_payload : Bytes → List Bytes
unfolding decode_from
decode_payload payload = decode_from (length payload) payload

-- `len as u32` and `to_le_bytes`, followed by the transaction.
unfoldable pub frame : Bytes → Bytes
frame tx = to_le_bytes 4 (length tx) ++ tx

unfoldable pub encode : List Bytes → Bytes
unfolding frame
encode [] = []
encode (tx ∷ txs) = frame tx ++ encode txs
