-- ===== src/Types/Vote/Signing.antt =====
-- What two votes with the same signing bytes have in common.
use mathlib.Core.List.{tail}
use hotmint.Base.{
  length, u64_limit, ℕ, ◌^◌, ◌<◌, ◌≡◌, refl, sym, ap, ◌∙◌, Option, none, some, ◌++◌, arith,
}
use hotmint.Base.Bytes.{Bytes, to_le_bytes, length-to_le_bytes, to_le_bytes_inj, append_inj}
use hotmint.Types.Vote.{VoteType, type_code, vote_tag, extension_bytes, signing_bytes}

-- The two extensions are both absent, or agree in length and in digest.
abbrev pub SameExtension : (blake3 : Bytes → Bytes) → Option Bytes → Option Bytes → Type 0
SameExtension blake3 none none = Unit
SameExtension blake3 none (some b) = ⊥
SameExtension blake3 (some a) none = ⊥
SameExtension blake3 (some a) (some b) = (length a ≡ length b) × (blake3 a ≡ blake3 b)

abbrev pub Short : Option Bytes → Type 0
Short none = Unit
Short (some a) = length a < u64_limit

length-word : (n x y : ℕ) → length (to_le_bytes n x) ≡ length (to_le_bytes n y)
length-word n x y = length-to_le_bytes n x ∙ sym (length-to_le_bytes n y)

-- Drop a word of `n` bytes off both sides.
word-append_inj :
    (n x y : ℕ) (c d : Bytes)
    → x < 256 ^ n
    → y < 256 ^ n
    → to_le_bytes n x ++ c ≡ to_le_bytes n y ++ d
    → (x ≡ y) × (c ≡ d)
word-append_inj n x y c d hx hy e =
    let (p, q) = append_inj (to_le_bytes n x) (to_le_bytes n y) c d (length-word n x y) e in
    (to_le_bytes_inj n x y hx hy p, q)

extension_bytes_inj :
    (blake3 : Bytes → Bytes) (a b : Option Bytes)
    → Short a
    → Short b
    → extension_bytes blake3 a ≡ extension_bytes blake3 b
    → SameExtension blake3 a b
unfolding extension_bytes
extension_bytes_inj blake3 none none ha hb e = tt
extension_bytes_inj blake3 none (some b) ha hb e = ground arith
extension_bytes_inj blake3 (some a) none ha hb e = ground arith
extension_bytes_inj blake3 (some a) (some b) ha hb e =
    word-append_inj 8 (length a) (length b) (blake3 a) (blake3 b) (omega arith) (omega arith)
      (ap tail e)

-- The fields that a vote signs.
pub record Signed : Type 0 where
  pub chain : Bytes
  pub epoch : ℕ
  pub view : ℕ
  pub validator : ℕ
  pub block_hash : ℕ
  pub vote_type : VoteType
  pub extension : Option Bytes

pub record Fits (s : Signed) : Type 0 where
  pub chain_sized : length s.chain ≡ 32
  pub epoch_fits : s.epoch < u64_limit
  pub view_fits : s.view < u64_limit
  pub validator_fits : s.validator < u64_limit
  pub hash_fits : s.block_hash < 2 ^ 256
  pub extension_short : Short s.extension

pub record SameSigned (blake3 : Bytes → Bytes) (a b : Signed) : Type 0 where
  pub chain : a.chain ≡ b.chain
  pub epoch : a.epoch ≡ b.epoch
  pub view : a.view ≡ b.view
  pub validator : a.validator ≡ b.validator
  pub block_hash : a.block_hash ≡ b.block_hash
  pub vote_type : a.vote_type ≡ b.vote_type
  pub extension : SameExtension blake3 a.extension b.extension

abbrev pub bytes_of : (blake3 : Bytes → Bytes) → Signed → Bytes
bytes_of blake3 s =
    signing_bytes blake3 s.chain s.epoch s.view s.validator s.block_hash s.vote_type s.extension

type_code_inj : (a b : VoteType) → type_code a ≡ type_code b → a ≡ b
type_code_inj a b h = ground arith

-- Votes whose fields fit their machine types sign the same bytes only if they agree in chain, epoch,
-- view, validator, block, vote type, and in the presence, length and digest of the extension.
pub signing_bytes_inj :
    (blake3 : Bytes → Bytes) (a b : Signed)
    → Fits a
    → Fits b
    → bytes_of blake3 a ≡ bytes_of blake3 b
    → SameSigned blake3 a b
unfolding signing_bytes
signing_bytes_inj blake3 a b ha hb e =
    let (_, e₁) = append_inj vote_tag vote_tag _ _ refl e in
    let (chain, e₂) = append_inj a.chain b.chain _ _ (ha.chain_sized ∙ sym hb.chain_sized) e₁ in
    let (epoch, e₃) = word-append_inj 8 a.epoch b.epoch _ _ (omega arith) (omega arith) e₂ in
    let (view, e₄) = word-append_inj 8 a.view b.view _ _ (omega arith) (omega arith) e₃ in
    let (validator, e₅) =
      word-append_inj 8 a.validator b.validator _ _ (omega arith) (omega arith) e₄ in
    let (block_hash, e₆) =
      word-append_inj 32 a.block_hash b.block_hash _ _ (omega arith) (omega arith) e₅ in
    record {
      chain = chain;
      epoch = epoch;
      view = view;
      validator = validator;
      block_hash = block_hash;
      vote_type = type_code_inj a.vote_type b.vote_type (ground arith);
      extension =
          extension_bytes_inj blake3 a.extension b.extension ha.extension_short hb.extension_short
            (ap tail e₆);
    }
