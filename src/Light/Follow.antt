-- ===== src/Light/Follow.antt =====
-- crates/hotmint-light/src/lib.rs: what two light clients accept, and a client that follows a chain.
use hotmint.Base.{
  length, get_elem?, ok, Result-cases, ℕ, zero, suc, ◌+◌, ◌≤◌, ◌≡◌, refl, subst, inl, inr, Bool,
  true, false, none, some, List, [], ◌∷◌, arith,
}
use hotmint.Aggregate.Intersection.{signed_power, flagged, quorum_intersection}
use hotmint.Base.Bytes.{Bytes}
use hotmint.Consensus.State.Guard.{accepted}
use hotmint.Light.{BlockHeader, LightClient, signature_ok, check_header, verify_header}
use hotmint.Light.Accept.{SignedBy, absent, signed_by, Good, accepted-ExtendsTrustTrust}
use hotmint.Types.Certificate.{QuorumCertificate}
use hotmint.Types.Validator.{ValidatorInfo, max_faulty_power}
use hotmint.Types.Validator.Valid.{IsValid}
use hotmint.Types.Vote.{vote, signing_bytes}

-- A flag that is set comes with a good signature of its member.
SignedBy-flagged :
    (good : ValidatorInfo → Bytes → Type 0) (bs : List Bool) (vs : List ValidatorInfo)
    (ss : List Bytes) (i : ℕ) (v : ValidatorInfo)
    → SignedBy good bs vs ss
    → get_elem? vs i ≡ some v
    → flagged bs i ≡ true
    → (s : Bytes) × good v s
SignedBy-flagged good [] vs ss i v h at f = absurd (cc)
SignedBy-flagged good (b ∷ bs) [] ss i v h at f = absurd (cc)
SignedBy-flagged good (false ∷ bs) (w ∷ vs) ss zero v h at f = absurd (cc)
SignedBy-flagged good (false ∷ bs) (w ∷ vs) ss (suc i) v (absent h) at f =
    SignedBy-flagged good bs vs ss i v h at f
SignedBy-flagged good (true ∷ bs) (w ∷ vs) (s ∷ ss) zero v (signed_by g h) at f =
    (s, subst (λ m. good m s) (ground (arith, at)) g)
SignedBy-flagged good (true ∷ bs) (w ∷ vs) (s ∷ ss) (suc i) v (signed_by g h) at f =
    SignedBy-flagged good bs vs ss i v h at f
SignedBy-flagged good (true ∷ bs) (w ∷ vs) [] i v h at f = elim h [ ]

module _ (blake3 : Bytes → Bytes) (verify : Bytes → Bytes → Bytes → Bool) where
  -- Headers accepted by two clients with one trusted set, on one chain, share a signer outside any
  -- set of members whose power is at most `max_faulty_power`: a member that is not faulty gave good
  -- signatures for both headers' hashes.
  pub accepted_share_signer :
      (c d : LightClient) (h k : BlockHeader) (qc rc : QuorumCertificate) (faulty : List Bool)
      → IsValid c.trusted_validator_set
      → d.trusted_validator_set ≡ c.trusted_validator_set
      → d.chain_id_hash ≡ c.chain_id_hash
      → signed_power faulty c.trusted_validator_set.validators
        ≤ max_faulty_power c.trusted_validator_set
      → (verify_header blake3 verify c h qc).0 ≡ ok tt
      → (verify_header blake3 verify d k rc).0 ≡ ok tt
      → (i : ℕ) × (v : ValidatorInfo) × (s : Bytes) × (t : Bytes) × (get_elem?
            c.trusted_validator_set.validators i
          ≡ some v)
        × (flagged faulty i ≡ false)
        × (verify v.public_key
              (signing_bytes blake3 c.chain_id_hash qc.epoch qc.view v.id h.hash vote none)
              s
            ≡ true)
        × (verify v.public_key
              (signing_bytes blake3 c.chain_id_hash rc.epoch rc.view v.id k.hash vote none)
              t
            ≡ true)
  unfolding signature_ok
  accepted_share_signer c d h k qc rc faulty valid same_set same_chain few accepted accepted_too =
      let e = accepted-ExtendsTrustTrust blake3 verify c h qc accepted in
      let e' = accepted-ExtendsTrustTrust blake3 verify d k rc accepted_too in
      let (i, v, at, fa, fb, correct) =
        quorum_intersection c.trusted_validator_set qc.aggregate_signature rc.aggregate_signature
          faulty valid e.quorum (rw (← same_set) e'.quorum) few in
      let (s, good) =
        SignedBy-flagged (Good blake3 verify c.chain_id_hash qc) qc.aggregate_signature.signers
          c.trusted_validator_set.validators qc.aggregate_signature.signatures i v e.all_signed at
          fa in
      let (t, good_too) =
        SignedBy-flagged (Good blake3 verify d.chain_id_hash rc) rc.aggregate_signature.signers
          d.trusted_validator_set.validators rc.aggregate_signature.signatures i v e'.all_signed
          (rw same_set at) fb in
      (
        i,
        v,
        s,
        t,
        at,
        correct,
        subst
            (λ n.
              verify v.public_key
                (signing_bytes blake3 c.chain_id_hash qc.epoch qc.view v.id n vote none) s
              ≡ true)
            e.certified good,
        subst
            (λ n.
              verify v.public_key
                (signing_bytes blake3 c.chain_id_hash rc.epoch rc.view v.id n vote none) t
              ≡ true)
            e'.certified
            (subst
              (λ n.
                verify v.public_key
                  (signing_bytes blake3 n rc.epoch rc.view v.id rc.block_hash vote none) t
                ≡ true)
              same_chain good_too),
      )

  -- The headers offered one after another; those refused are passed over.
  unfoldable pub follow : LightClient → List (BlockHeader × QuorumCertificate) → LightClient
  follow c [] = c
  follow c ((h, qc) ∷ rest) = follow (verify_header blake3 verify c h qc).1 rest

  verify_header-height :
      (c : LightClient) (h : BlockHeader) (qc : QuorumCertificate)
      → (c.trusted_state.height ≤ (verify_header blake3 verify c h qc).1.trusted_state.height)
        × ((verify_header blake3 verify c h qc).1.trusted_state.height ≤ suc c.trusted_state.height)
  unfolding verify_header
  verify_header-height c h qc = elim (Result-cases (check_header blake3 verify c h qc)) [
    | inl (u, passed) ↦
        let e = accepted-ExtendsTrustTrust blake3 verify c h qc (rw (passed, verify_header) refl) in
        rw (passed, verify_header) (omega (arith, e.next), omega (arith, e.next))
    | inr (x, refused) ↦ rw (refused, verify_header) (omega arith, omega arith)
  ]

  -- However many headers it is offered, in whatever order, a client's trusted height does not fall,
  -- and it rises by one at most for each.
  pub follow-height :
      (c : LightClient) (offered : List (BlockHeader × QuorumCertificate))
      → (c.trusted_state.height ≤ (follow c offered).trusted_state.height)
        × ((follow c offered).trusted_state.height ≤ c.trusted_state.height + length offered)
  unfolding follow
  follow-height c [] = (omega arith, omega arith)
  follow-height c ((h, qc) ∷ rest) =
      let step = verify_header-height c h qc in
      let later = follow-height (verify_header blake3 verify c h qc).1 rest in
      (omega (arith, step.0, later.0), omega (arith, step.1, later.1))
