-- ===== src/Types/Vote.antt =====
-- crates/hotmint-types/src/vote.rs: votes and the bytes that a vote signs.
pub mod Signing
use hotmint.Base.{
  length, replicate, ℕ, ◌≡◌, ◌↔◌, Bool, true, false, Option, none, some, [], ◌∷◌, ◌++◌, arith,
}
use hotmint.Base.Bytes.{Bytes, to_le_bytes}

pub data VoteType : Type 0 where
  vote : VoteType
  vote2 : VoteType

abbrev pub vote_type_eq : VoteType → VoteType → Bool
vote_type_eq vote vote = true
vote_type_eq vote vote2 = false
vote_type_eq vote2 vote = false
vote_type_eq vote2 vote2 = true

pub vote_type_eq_iff : (a b : VoteType) → (vote_type_eq a b ≡ true) ↔ (a ≡ b)
vote_type_eq_iff a b = ground arith

pub record Vote : Type 0 where
  pub epoch : ℕ
  pub block_hash : ℕ
  pub view : ℕ
  pub validator : ℕ
  pub signature : Bytes
  pub vote_type : VoteType
  pub extension : Option Bytes

-- `vote_type as u8`
abbrev pub type_code : VoteType → ℕ
type_code vote = 0
type_code vote2 = 1

-- b"HOTMINT_VOTE_V3\0"
abbrev pub vote_tag : Bytes
vote_tag =
    b'H' ∷ b'O' ∷ b'T' ∷ b'M' ∷ b'I' ∷ b'N' ∷ b'T' ∷ b'_' ∷ b'V' ∷ b'O' ∷ b'T' ∷ b'E' ∷ b'_' ∷ b'V'
    ∷ b'3' ∷ 0 ∷ []

-- `blake3` stands for the hash of the `blake3` crate.
unfoldable pub extension_bytes : (blake3 : Bytes → Bytes) → Option Bytes → Bytes
extension_bytes blake3 none = 0 ∷ (to_le_bytes 8 0 ++ replicate 32 0)
extension_bytes blake3 (some ext) = 1 ∷ (to_le_bytes 8 (length ext) ++ blake3 ext)

unfoldable pub signing_bytes :
    (blake3 : Bytes → Bytes) (chain_id_hash : Bytes) (epoch view validator block_hash : ℕ)
    → VoteType
    → Option Bytes
    → Bytes
unfolding extension_bytes
signing_bytes blake3 chain_id_hash epoch view validator block_hash kind ext =
    vote_tag
    ++ (chain_id_hash
        ++ (to_le_bytes 8 epoch
            ++ (to_le_bytes 8 view
                ++ (to_le_bytes 8 validator
                    ++ (to_le_bytes 32 block_hash
                        ++ (type_code kind ∷ extension_bytes blake3 ext))))))
