-- ===== src/Consensus/View/Messages.antt =====
-- The bytes that a status, a proposal and a prepare message sign.
use hotmint.Base.{ℕ, Option, none, some, [], ◌∷◌, ◌++◌}
use hotmint.Base.Bytes.{Bytes, to_le_bytes}
use hotmint.Types.Block.{Block}
use hotmint.Types.Certificate.{QuorumCertificate}

-- b"HOTMINT_STATUS_V2\0"
abbrev pub status_tag : Bytes
status_tag =
    b'H' ∷ b'O' ∷ b'T' ∷ b'M' ∷ b'I' ∷ b'N' ∷ b'T' ∷ b'_' ∷ b'S' ∷ b'T' ∷ b'A' ∷ b'T' ∷ b'U' ∷ b'S'
    ∷ b'_' ∷ b'V' ∷ b'2' ∷ 0 ∷ []

-- b"HOTMINT_PROPOSAL_V1\0"
abbrev pub proposal_tag : Bytes
proposal_tag =
    b'H' ∷ b'O' ∷ b'T' ∷ b'M' ∷ b'I' ∷ b'N' ∷ b'T' ∷ b'_' ∷ b'P' ∷ b'R' ∷ b'O' ∷ b'P' ∷ b'O' ∷ b'S'
    ∷ b'A' ∷ b'L' ∷ b'_' ∷ b'V' ∷ b'1' ∷ 0 ∷ []

-- b"HOTMINT_PREPARE_V1\0"
abbrev pub prepare_tag : Bytes
prepare_tag =
    b'H' ∷ b'O' ∷ b'T' ∷ b'M' ∷ b'I' ∷ b'N' ∷ b'T' ∷ b'_' ∷ b'P' ∷ b'R' ∷ b'E' ∷ b'P' ∷ b'A' ∷ b'R'
    ∷ b'E' ∷ b'_' ∷ b'V' ∷ b'1' ∷ 0 ∷ []

abbrev pub qc_bytes : QuorumCertificate → Bytes
qc_bytes qc = to_le_bytes 32 qc.block_hash ++ to_le_bytes 8 qc.view

abbrev pub locked_bytes : Option QuorumCertificate → Bytes
locked_bytes none = []
locked_bytes (some qc) = qc_bytes qc

unfoldable pub status_signing_bytes :
    (chain_id_hash : Bytes) (epoch view validator : ℕ) → Option QuorumCertificate → Bytes
status_signing_bytes chain epoch view validator locked =
    status_tag
    ++ (chain
        ++ (to_le_bytes 8 epoch
            ++ (to_le_bytes 8 view ++ (to_le_bytes 8 validator ++ locked_bytes locked))))

unfoldable pub proposal_signing_bytes :
    (chain_id_hash : Bytes) (epoch : ℕ) → Block → QuorumCertificate → Bytes
proposal_signing_bytes chain epoch block justify =
    proposal_tag
    ++ (chain ++ (to_le_bytes 8 epoch ++ (to_le_bytes 32 block.hash ++ qc_bytes justify)))

unfoldable pub prepare_signing_bytes :
    (chain_id_hash : Bytes) (epoch : ℕ) → QuorumCertificate → Bytes
prepare_signing_bytes chain epoch qc =
    prepare_tag ++ (chain ++ (to_le_bytes 8 epoch ++ qc_bytes qc))
