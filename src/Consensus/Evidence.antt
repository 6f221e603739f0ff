-- ===== src/Consensus/Evidence.antt =====
-- `validate_evidence` and `validate_block_evidence` of crates/hotmint-consensus/src/commit.rs.
use hotmint.Base.{
  ltb, ◌==◌, is_some, Result, ok, ◌>>◌, ensure, ok_or, ℕ, Bool, not, ◌&&◌, ◌||◌, Option, none, some,
  List, [], ◌∷◌, ◌>>=◌, ◌>>◌,
}
use hotmint.Base.Bytes.{Bytes}
use hotmint.Types.Block.{Block}
use hotmint.Types.Epoch.{Epoch}
use hotmint.Types.Evidence.{EquivocationProof}
use hotmint.Types.Validator.{get, ValidatorInfo}
use hotmint.Types.Vote.{vote, vote_type_eq, signing_bytes}

pub data EvidenceError : Type 0 where
  unknown_validator invalid_evidence invalid_signature : EvidenceError

-- The current epoch's member, or the one that the previous epoch had.
unfoldable pub evidence_member : Epoch → Option Epoch → ℕ → Option ValidatorInfo
evidence_member current previous id = elim (get current.validator_set id) [
  | some v ↦ some v
  | none ↦ elim previous [ none ↦ none | some p ↦ get p.validator_set id ]
]

-- A first-phase vote has no extension.
abbrev pub extended_first_vote : EquivocationProof → Bool
extended_first_vote p =
    vote_type_eq p.vote_type vote && (is_some p.extension_a || is_some p.extension_b)

abbrev pub is_malformed : EquivocationProof → (epoch view : ℕ) → Bool
is_malformed p epoch view =
    p.block_hash_a == p.block_hash_b
    || (ltb epoch p.epoch || (ltb view p.view || extended_first_vote p))

-- `verify` is the verifier's test of a key, a message and a signature.
module _ (blake3 : Bytes → Bytes) (verify : Bytes → Bytes → Bytes → Bool) where
  unfoldable pub verifies :
      ValidatorInfo
      → Bytes
      → EquivocationProof
      → (hash : ℕ) (signature : Bytes) (ext : Option Bytes) → Bool
  verifies v chain p hash signature ext =
      verify v.public_key
        (signing_bytes blake3 chain p.epoch p.view p.validator hash p.vote_type ext) signature

  unfoldable pub validate_evidence :
      EquivocationProof
      → (view : ℕ) → Epoch
      → Option Epoch
      → Bytes
      → Result EvidenceError (Unit {0})
  unfolding evidence_member verifies
  validate_evidence p view current previous chain = do
    v ← ok_or (evidence_member current previous p.validator) unknown_validator
    ensure (not (is_malformed p current.number view)) invalid_evidence
    ensure (verifies v chain p p.block_hash_a p.signature_a p.extension_a) invalid_signature
    ensure (verifies v chain p p.block_hash_b p.signature_b p.extension_b) invalid_signature

  unfoldable pub validate_all :
      List EquivocationProof
      → (view : ℕ) → Epoch
      → Option Epoch
      → Bytes
      → Result EvidenceError (Unit {0})
  validate_all [] view current previous chain = ok tt
  validate_all (p ∷ ps) view current previous chain =
      validate_evidence p view current previous chain >> validate_all ps view current previous chain

  unfoldable pub validate_block_evidence :
      Block → Epoch → Option Epoch → Bytes → Result EvidenceError (Unit {0})
  unfolding validate_all
  validate_block_evidence b current previous chain =
      validate_all b.evidence b.view current previous chain
