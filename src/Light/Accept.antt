-- ===== src/Light/Accept.antt =====
-- crates/hotmint-light/src/lib.rs: exactly which headers the light client accepts.
use hotmint.Base.{
  Bool-cases, Option-cases, length, u64_limit, Result, ok, err, Result-cases, suc, ◌<◌, ◌≡◌, refl,
  ◌⊎◌, inl, inr, Bool, true, false, some, List, [], ◌∷◌, arith,
}
use hotmint.Aggregate.{has_quorum}
use hotmint.Base.Bytes.{Bytes}
use hotmint.Consensus.State.Guard.{accepted}
use hotmint.Light.{
  BlockHeader, LightClient, LightError, signature_ok, check_signatures, check_header, verify_header,
}
use hotmint.Types.Certificate.{QuorumCertificate}
use hotmint.Types.Validator.{ValidatorInfo}

-- The flags, the members and the signatures match up, and each signature is its member's.
pub data SignedBy (good : ValidatorInfo → Bytes → Type 0)
    : List Bool → List ValidatorInfo → List Bytes → Type 0 where
  no_more : {vs : List ValidatorInfo} → SignedBy good [] vs []
  no_member :
      {bs : List Bool} {ss : List Bytes} → SignedBy good bs [] ss → SignedBy good (false ∷ bs) [] ss
  absent :
      {bs : List Bool} {v : ValidatorInfo} {vs : List ValidatorInfo} {ss : List Bytes}
      → SignedBy good bs vs ss
      → SignedBy good (false ∷ bs) (v ∷ vs) ss
  signed_by :
      {bs : List Bool} {v : ValidatorInfo} {vs : List ValidatorInfo} {s : Bytes} {ss : List Bytes}
      → good v s
      → SignedBy good bs vs ss
      → SignedBy good (true ∷ bs) (v ∷ vs) (s ∷ ss)

abbrev pub trusting : LightClient → BlockHeader → LightClient
trusting c header = record c {
  trusted_state = record { height = header.height; hash = some header.hash };
}

module _ (blake3 : Bytes → Bytes) (verify : Bytes → Bytes → Bytes → Bool) where
  abbrev pub Good : Bytes → QuorumCertificate → ValidatorInfo → Bytes → Type 0
  Good chain qc v s = signature_ok blake3 verify chain qc v s ≡ true

  check_signatures_sound :
      (chain : Bytes) (qc : QuorumCertificate) (bs : List Bool) (vs : List ValidatorInfo)
      (ss : List Bytes)
      → check_signatures blake3 verify chain qc bs vs ss ≡ ok tt
      → SignedBy (Good chain qc) bs vs ss
  unfolding check_signatures
  check_signatures_sound chain qc [] vs [] h = no_more
  check_signatures_sound chain qc [] vs (s ∷ ss) h = absurd (cc)
  check_signatures_sound chain qc (false ∷ bs) [] ss h =
      no_member (check_signatures_sound chain qc bs [] ss h)
  check_signatures_sound chain qc (false ∷ bs) (v ∷ vs) ss h =
      absent (check_signatures_sound chain qc bs vs ss h)
  check_signatures_sound chain qc (true ∷ bs) [] ss h = absurd (cc)
  check_signatures_sound chain qc (true ∷ bs) (v ∷ vs) [] h = absurd (cc)
  check_signatures_sound chain qc (true ∷ bs) (v ∷ vs) (s ∷ ss) h =
      elim (Bool-cases (signature_ok blake3 verify chain qc v s)) [
        | inl good ↦
            signed_by good (check_signatures_sound chain qc bs vs ss (ground (arith, h, good)))
        | inr bad ↦ absurd (ground (arith, h, bad))
      ]

  check_signatures_complete :
      (chain : Bytes) (qc : QuorumCertificate) (bs : List Bool) (vs : List ValidatorInfo)
      (ss : List Bytes)
      → SignedBy (Good chain qc) bs vs ss
      → check_signatures blake3 verify chain qc bs vs ss ≡ ok tt
  unfolding check_signatures
  check_signatures_complete chain qc [] vs [] no_more = refl
  check_signatures_complete chain qc [] vs (s ∷ ss) h = elim h [ ]
  check_signatures_complete chain qc (true ∷ bs) [] ss h = elim h [ ]
  check_signatures_complete chain qc (true ∷ bs) (v ∷ vs) [] h = elim h [ ]
  check_signatures_complete chain qc (false ∷ bs) [] ss (no_member h) =
      check_signatures_complete chain qc bs [] ss h
  check_signatures_complete chain qc (false ∷ bs) (v ∷ vs) ss (absent h) =
      check_signatures_complete chain qc bs vs ss h
  check_signatures_complete chain qc (true ∷ bs) (v ∷ vs) (s ∷ ss) (signed_by g h) =
      rw (g, check_signatures) (check_signatures_complete chain qc bs vs ss h)

  -- What a header and its certificate must have to extend the client's trust.
  pub record ExtendsTrust (c : LightClient) (header : BlockHeader) (qc : QuorumCertificate)
      : Type 0 where
    pub next : header.height ≡ suc c.trusted_state.height
    pub in_range : header.height < u64_limit
    pub linked : c.trusted_state.hash ≡ some header.parent_hash
    pub certified : qc.block_hash ≡ header.hash
    pub quorum : has_quorum c.trusted_validator_set qc.aggregate_signature ≡ true
    pub flags_fit :
        length qc.aggregate_signature.signers ≡ length c.trusted_validator_set.validators
    pub all_signed :
        SignedBy
          (Good c.chain_id_hash qc)
          qc.aggregate_signature.signers
          c.trusted_validator_set.validators
          qc.aggregate_signature.signatures

  abbrev signatures_of : LightClient → QuorumCertificate → Result LightError (Unit {0})
  signatures_of c qc =
      check_signatures blake3 verify c.chain_id_hash qc qc.aggregate_signature.signers
        c.trusted_validator_set.validators qc.aggregate_signature.signatures

  check_header_sound :
      (c : LightClient) (header : BlockHeader) (qc : QuorumCertificate)
      → check_header blake3 verify c header qc ≡ ok tt
      → ExtendsTrust c header qc
  unfolding check_header
  check_header_sound c header qc h = elim (Option-cases c.trusted_state.hash) [
    | inl unknown ↦ absurd (ground arith)
    | inr (trusted_hash, known) ↦
        let signatures : signatures_of c qc ≡ ok tt = ground arith in
        record {
          next = ground arith;
          in_range = ground arith;
          linked = ground arith;
          certified = ground arith;
          quorum = ground arith;
          flags_fit = ground arith;
          all_signed =
              check_signatures_sound c.chain_id_hash qc qc.aggregate_signature.signers
                c.trusted_validator_set.validators qc.aggregate_signature.signatures signatures;
        }
  ]

  check_header_complete :
      (c : LightClient) (header : BlockHeader) (qc : QuorumCertificate)
      → ExtendsTrust c header qc
      → check_header blake3 verify c header qc ≡ ok tt
  unfolding check_header
  check_header_complete c header qc e =
      let signatures =
        check_signatures_complete c.chain_id_hash qc qc.aggregate_signature.signers
          c.trusted_validator_set.validators qc.aggregate_signature.signatures e.all_signed in
      ground (arith, signatures, e.next, e.in_range, e.linked, e.certified, e.quorum, e.flags_fit)

  -- A header is accepted exactly if it is the next height, names the trusted hash as its parent, and
  -- comes with a certificate of its hash whose flags fit the trusted set, carry its quorum, and match
  -- the signatures, each a good one of its member. Then it becomes the trusted one; a header refused
  -- changes nothing.
  pub verify_header_lem :
      (c : LightClient) (header : BlockHeader) (qc : QuorumCertificate)
      → (ExtendsTrust c header qc
          × (verify_header blake3 verify c header qc ≡ (ok tt, trusting c header)))
        ⊎ ((¬ ExtendsTrust c header qc)
            × (e : LightError) × (verify_header blake3 verify c header qc ≡ (err e, c)))
  unfolding verify_header
  verify_header_lem c header qc = elim (Result-cases (check_header blake3 verify c header qc)) [
    | inl (u, passed) ↦ inl (check_header_sound c header qc passed, rw (passed, verify_header) refl)
    | inr (e, refused) ↦ inr (
      (λ x. ground (arith, check_header_complete c header qc x, refused)),
      e,
      rw (refused, verify_header) refl,
    )
  ]

  pub accepted-ExtendsTrustTrust :
      (c : LightClient) (header : BlockHeader) (qc : QuorumCertificate)
      → (verify_header blake3 verify c header qc).0 ≡ ok tt
      → ExtendsTrust c header qc
  accepted-ExtendsTrustTrust c header qc h = elim (verify_header_lem c header qc) [
    | inl (e, accepted) ↦ e
    | inr (n, e, refused) ↦ absurd (ground (arith, h, refused))
  ]
