-- ===== src/Types.antt =====
-- crates/hotmint-types: the identifiers, words with a name of their own.
-- A block hash is the 256-bit number that its 32 bytes spell, the genesis hash being 0.
pub mod Validator
pub mod Updates
pub mod Crypto
pub mod Vote
pub mod Evidence
pub mod Certificate
pub mod Epoch
pub mod Block
use hotmint.Base.{ℕ}

abbrev pub ValidatorId : Type 0
ValidatorId = ℕ

abbrev pub ViewNumber : Type 0
ViewNumber = ℕ

abbrev pub EpochNumber : Type 0
EpochNumber = ℕ

abbrev pub Height : Type 0
Height = ℕ

abbrev pub BlockHash : Type 0
BlockHash = ℕ
