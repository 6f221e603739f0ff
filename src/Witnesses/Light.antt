-- ===== src/Witnesses/Light.antt =====
-- The theorems on the light client, at the set of four and a verifier that takes a member's key for
-- its signature.
use hotmint.Base.{
  get_elem?, replicate, ok, err, ℕ, ◌≤◌, ◌≡◌, refl, ◌⊎◌, Bool, true, false, none, some, [], ◌∷◌,
  arith,
}
use hotmint.Aggregate.{add_signed, has_quorum}
use hotmint.Aggregate.Intersection.{signed_power, flagged}
use hotmint.Base.Bytes.{Bytes, bytes_eq}
use hotmint.Light.{
  BlockHeader, LightClient, LightError, signature_ok, check_signatures, check_header, verify_header,
}
use hotmint.Light.Accept.{trusting, ExtendsTrust, verify_header_lem}
use hotmint.Light.Follow.{accepted_share_signer}
use hotmint.Types.Certificate.{QuorumCertificate}
use hotmint.Types.Validator.{ValidatorInfo, quorum_threshold, max_faulty_power}
use hotmint.Types.Vote.{vote, signing_bytes}
use hotmint.Witnesses.Validators.{four_members, four, four-IsValid}

abbrev no_hash : Bytes → Bytes
no_hash text = replicate 32 0

abbrev key_is_signature : Bytes → Bytes → Bytes → Bool
key_is_signature key text sig = bytes_eq key sig

abbrev client : LightClient
client = record {
  trusted_validator_set = four;
  trusted_state = record { height = 5; hash = some 99 };
  chain_id_hash = replicate 32 1;
}

abbrev header_at : ℕ → ℕ → BlockHeader
header_at height hash = record {
  height = height;
  parent_hash = 99;
  view = 8;
  proposer = 3;
  timestamp = 12;
  app_hash = 77;
  hash = hash;
}

-- Members 7, 9 and 1 signed, with 80 of the power of 100.
abbrev certificate : ℕ → QuorumCertificate
certificate hash = record {
  block_hash = hash;
  view = 8;
  aggregate_signature = record {
    signers = true ∷ false ∷ true ∷ true ∷ [];
    signatures = replicate 32 7 ∷ replicate 32 9 ∷ replicate 32 1 ∷ [];
  };
  epoch = 0;
}

accepts :
    (verify_header no_hash key_is_signature client (header_at 6 100) (certificate 100)).0 ≡ ok tt
unfolding verify_header check_header check_signatures signature_ok has_quorum add_signed
    quorum_threshold bytes_eq
accepts = refl

accepts_too :
    (verify_header no_hash key_is_signature client (header_at 6 101) (certificate 101)).0 ≡ ok tt
unfolding verify_header check_header check_signatures signature_ok has_quorum add_signed
    quorum_threshold bytes_eq
accepts_too = refl

verify_header_lem_example :
    (ExtendsTrust no_hash key_is_signature client (header_at 6 100) (certificate 100)
      × (verify_header no_hash key_is_signature client (header_at 6 100) (certificate 100)
          ≡ (ok tt, trusting client (header_at 6 100))))
    ⊎ ((¬ ExtendsTrust no_hash key_is_signature client (header_at 6 100) (certificate 100))
        × (e : LightError) × (verify_header no_hash key_is_signature client
              (header_at 6 100)
              (certificate 100)
            ≡ (err e, client)))
verify_header_lem_example =
    verify_header_lem no_hash key_is_signature client (header_at 6 100) (certificate 100)

few : signed_power (false ∷ true ∷ []) four_members ≤ max_faulty_power four
unfolding max_faulty_power quorum_threshold
few = omega arith

-- Member 3 is faulty.
accepted_share_signer_example :
    (i : ℕ) × (v : ValidatorInfo) × (s : Bytes) × (t : Bytes) × (get_elem? four_members i ≡ some v)
    × (flagged (false ∷ true ∷ []) i ≡ false)
    × (key_is_signature v.public_key
          (signing_bytes no_hash (replicate 32 1) 0 8 v.id 100 vote none)
          s
        ≡ true)
    × (key_is_signature v.public_key
          (signing_bytes no_hash (replicate 32 1) 0 8 v.id 101 vote none)
          t
        ≡ true)
accepted_share_signer_example =
    accepted_share_signer no_hash key_is_signature client client (header_at 6 100) (header_at 6 101)
      (certificate 100) (certificate 101) (false ∷ true ∷ []) four-IsValid refl refl few accepts
      accepts_too
