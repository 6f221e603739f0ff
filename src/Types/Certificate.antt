-- ===== src/Types/Certificate.antt =====
-- crates/hotmint-types/src/certificate.rs: quorum, double and timeout certificates.
pub mod Highest
use hotmint.Base.{leb, if◌then◌else◌, ℕ, Bool, true, false, Option, none, some, List, [], ◌∷◌}
use hotmint.Base.Bytes.{Bytes}
use hotmint.Types.Crypto.{AggregateSignature}

pub record QuorumCertificate : Type 0 where
  pub block_hash : ℕ
  pub view : ℕ
  pub aggregate_signature : AggregateSignature
  pub epoch : ℕ

abbrev pub rank : QuorumCertificate → ℕ
rank qc = qc.view

pub record DoubleCertificate : Type 0 where
  pub inner_qc : QuorumCertificate
  pub outer_qc : QuorumCertificate
  pub vote_extensions : List (ℕ × Bytes)

pub record TimeoutCertificate : Type 0 where
  pub view : ℕ
  pub aggregate_signature : AggregateSignature
  pub highest_qcs : List (Option QuorumCertificate)

-- The two filters of `highest_qc`: entries with a set flag that carry a certificate. An entry past
-- the last flag counts as unsigned.
unfoldable pub signed_qcs : List Bool → List (Option QuorumCertificate) → List QuorumCertificate
signed_qcs [] qcs = []
signed_qcs (b ∷ bs) [] = []
signed_qcs (false ∷ bs) (q ∷ qcs) = signed_qcs bs qcs
signed_qcs (true ∷ bs) (none ∷ qcs) = signed_qcs bs qcs
signed_qcs (true ∷ bs) (some q ∷ qcs) = q ∷ signed_qcs bs qcs

-- `max_by_key`: of equal keys the last one wins.
unfoldable pub max_by_view : QuorumCertificate → List QuorumCertificate → QuorumCertificate
max_by_view best [] = best
max_by_view best (q ∷ qs) = max_by_view (if leb best.view q.view then q else best) qs

unfoldable pub highest_of : List QuorumCertificate → Option QuorumCertificate
unfolding max_by_view
highest_of [] = none
highest_of (q ∷ qs) = some (max_by_view q qs)

unfoldable pub highest_qc : TimeoutCertificate → Option QuorumCertificate
unfolding signed_qcs highest_of
highest_qc tc = highest_of (signed_qcs tc.aggregate_signature.signers tc.highest_qcs)
