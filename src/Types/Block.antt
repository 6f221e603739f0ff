-- ===== src/Types/Block.antt =====
-- crates/hotmint-types/src/block.rs: blocks.
use hotmint.Base.{length, ℕ, Option, none, some, List, [], ◌∷◌, ◌++◌}
use hotmint.Base.Bytes.{Bytes, to_le_bytes, from_le_bytes}
use hotmint.Types.Evidence.{EquivocationProof}
use hotmint.Types.Vote.{type_code}

pub record Block : Type 0 where
  pub height : ℕ
  pub parent_hash : ℕ
  pub view : ℕ
  pub proposer : ℕ
  pub timestamp : ℕ
  pub payload : Bytes
  pub app_hash : ℕ
  pub evidence : List EquivocationProof
  pub hash : ℕ

abbrev pub genesis_hash : ℕ
genesis_hash = 0

abbrev pub genesis_block : Block
genesis_block = record {
  height = 0;
  parent_hash = genesis_hash;
  view = 0;
  proposer = 0;
  timestamp = 0;
  payload = [];
  app_hash = genesis_hash;
  evidence = [];
  hash = genesis_hash;
}

unfoldable pub len_prefixed : Bytes → Bytes
len_prefixed bytes = to_le_bytes 8 (length bytes) ++ bytes

unfoldable pub optional_bytes : Option Bytes → Bytes
unfolding len_prefixed
optional_bytes none = 0 ∷ []
optional_bytes (some ext) = 1 ∷ len_prefixed ext

unfoldable pub proof_bytes : EquivocationProof → Bytes
unfolding optional_bytes
proof_bytes p =
    to_le_bytes 8 p.validator
    ++ (to_le_bytes 8 p.view
        ++ (type_code p.vote_type
            ∷ (to_le_bytes 8 p.epoch
                ++ (to_le_bytes 32 p.block_hash_a
                    ++ (len_prefixed p.signature_a
                        ++ (optional_bytes p.extension_a
                            ++ (to_le_bytes 32 p.block_hash_b
                                ++ (len_prefixed p.signature_b
                                    ++ optional_bytes p.extension_b))))))))

unfoldable pub all_proof_bytes : List EquivocationProof → Bytes
unfolding proof_bytes
all_proof_bytes [] = []
all_proof_bytes (p ∷ ps) = proof_bytes p ++ all_proof_bytes ps

unfoldable pub block_bytes : Block → Bytes
unfolding all_proof_bytes len_prefixed
block_bytes b =
    to_le_bytes 8 b.height
    ++ (to_le_bytes 32 b.parent_hash
        ++ (to_le_bytes 8 b.view
            ++ (to_le_bytes 8 b.proposer
                ++ (to_le_bytes 8 b.timestamp
                    ++ (to_le_bytes 32 b.app_hash
                        ++ (to_le_bytes 8 (length b.evidence)
                            ++ (all_proof_bytes b.evidence ++ len_prefixed b.payload)))))))

-- The hasher is fed the parts in this order; `blake3` stands for the hash of the whole.
unfoldable pub compute_hash : (blake3 : Bytes → Bytes) → Block → ℕ
unfolding block_bytes
compute_hash blake3 b = from_le_bytes (blake3 (block_bytes b))
