-- ===== src/Witnesses/Votes.antt =====
-- The theorems on votes, certificates and the payload, at concrete values.
use hotmint.Base.{length, replicate, ℕ, ◌≡◌, refl, true, false, some, List, [], ◌∷◌, arith}
use hotmint.Base.Bytes.{Bytes}
use hotmint.Consensus.Payload.{decode_payload, encode}
use hotmint.Consensus.Payload.RoundTrip.{decode_payload-encode}
use hotmint.Consensus.State.{ConsensusState, with_chain_id}
use hotmint.Consensus.State.Guard.{Request}
use hotmint.Types.Certificate.{QuorumCertificate, TimeoutCertificate, highest_qc}
use hotmint.Types.Certificate.Highest.{IsBest, highest_qc_lem}
use hotmint.Types.Vote.{vote, vote2, extension_bytes, signing_bytes}
use hotmint.Types.Vote.Signing.{Signed, Fits, SameSigned, signing_bytes_inj}
use hotmint.Witnesses.Validators.{four, agg_of}

abbrev pub digest : Bytes → Bytes
digest b = replicate 32 (length b)

abbrev signed_vote : Signed
signed_vote = record {
  chain = replicate 32 5;
  epoch = 1;
  view = 5;
  validator = 9;
  block_hash = 100;
  vote_type = vote2;
  extension = some (1 ∷ 2 ∷ []);
}

signed_vote-Fits : Fits signed_vote
signed_vote-Fits = record {
  chain_sized = refl;
  epoch_fits = omega arith;
  view_fits = omega arith;
  validator_fits = omega arith;
  hash_fits = omega arith;
  extension_short = omega arith;
}

-- Another extension of the same length has the same digest under this toy hash.
abbrev twin_vote : Signed
twin_vote = record signed_vote { extension = some (8 ∷ 9 ∷ []) }

twin_vote-Fits : Fits twin_vote
twin_vote-Fits = record {
  chain_sized = refl;
  epoch_fits = omega arith;
  view_fits = omega arith;
  validator_fits = omega arith;
  hash_fits = omega arith;
  extension_short = omega arith;
}

signing_bytes_inj_example : SameSigned digest signed_vote twin_vote
unfolding signing_bytes extension_bytes
signing_bytes_inj_example =
    signing_bytes_inj digest signed_vote twin_vote signed_vote-Fits twin_vote-Fits refl

abbrev two_transactions : List Bytes
two_transactions = (1 ∷ 2 ∷ 3 ∷ []) ∷ [] ∷ []

decode_payload-encode_example : decode_payload (encode two_transactions) ≡ two_transactions
decode_payload-encode_example =
    decode_payload-encode two_transactions (omega arith, (omega arith, tt))

-- The second frame claims seven bytes and has two.
abbrev cut_payload : Bytes
cut_payload = 1 ∷ 0 ∷ 0 ∷ 0 ∷ 42 ∷ 7 ∷ 0 ∷ 0 ∷ 0 ∷ 1 ∷ 2 ∷ []

abbrev qc_at : ℕ → QuorumCertificate
qc_at view = record {
  block_hash = 100;
  view = view;
  aggregate_signature = agg_of (true ∷ true ∷ []);
  epoch = 1;
}

abbrev timeout : TimeoutCertificate
timeout = record {
  view = 8;
  aggregate_signature = agg_of (true ∷ false ∷ true ∷ []);
  highest_qcs = some (qc_at 3) ∷ some (qc_at 7) ∷ some (qc_at 5) ∷ [];
}

highest_qc_lem_example : IsBest timeout (highest_qc timeout)
highest_qc_lem_example = highest_qc_lem timeout

abbrev pub fresh_state : ConsensusState
fresh_state = with_chain_id 9 four (replicate 32 5)

abbrev requests : List Request
requests =
    record { kind = vote; view = 5; block_hash = 100 }
    ∷ record { kind = vote; view = 5; block_hash = 200 }
    ∷ record { kind = vote2; view = 5; block_hash = 100 }
    ∷ record { kind = vote; view = 4; block_hash = 100 }
    ∷ []

abbrev first_request : Request
first_request = record { kind = vote; view = 5; block_hash = 100 }
