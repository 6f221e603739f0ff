-- ===== src/Types/Certificate/Highest.antt =====
-- The highest certificate that a timeout certificate carries.
use hotmint.Base.{
  leb, Bool-cases, Option-cases, get_elem?, All, ℕ, zero, suc, ◌≤◌, ◌≡◌, refl, sym, ap, subst, inl,
  inr, Bool, true, false, Option, none, some, List, [], ◌∷◌, arith,
}
use hotmint.Types.Certificate.{
  QuorumCertificate, TimeoutCertificate, signed_qcs, max_by_view, highest_of, highest_qc,
}

-- One of the certificates, with a view not below any other's.
abbrev pub IsHighest : QuorumCertificate → List QuorumCertificate → Type 0
IsHighest q qs =
    ((i : ℕ) × (get_elem? qs i ≡ some q)) × All (λ (r : QuorumCertificate). r.view ≤ q.view) qs

max_by_view-step :
    (best q : QuorumCertificate) (qs : List QuorumCertificate)
    → (leb best.view q.view ≡ true → max_by_view best (q ∷ qs) ≡ max_by_view q qs)
      × (leb best.view q.view ≡ false → max_by_view best (q ∷ qs) ≡ max_by_view best qs)
unfolding max_by_view
max_by_view-step best q qs = ((λ e. rw e), (λ e. rw e))

IsHighest-skip :
    (best r q : QuorumCertificate) (qs : List QuorumCertificate)
    → r.view ≤ best.view
    → IsHighest q (best ∷ qs)
    → IsHighest q (best ∷ r ∷ qs)
IsHighest-skip best r q qs le ((zero, at), (top, rest)) = ((0, at), (top, (omega arith, rest)))
IsHighest-skip best r q qs le ((suc i, at), (top, rest)) =
    ((suc (suc i), at), (top, (omega arith, rest)))

max_by_view_lem :
    (best : QuorumCertificate) (qs : List QuorumCertificate)
    → IsHighest (max_by_view best qs) (best ∷ qs)
max_by_view_lem best [] = unfold max_by_view in ((0, refl), (omega arith, tt))
max_by_view_lem best (q ∷ qs) = elim (Bool-cases (leb best.view q.view)) [
  | inl up ↦
      let ((i, at), (top, rest)) = max_by_view_lem q qs in
      subst (λ x. IsHighest x (best ∷ q ∷ qs)) (sym ((max_by_view-step best q qs).0 up))
        ((suc i, at), (ground arith, (top, rest)))
  | inr down ↦
      subst (λ x. IsHighest x (best ∷ q ∷ qs)) (sym ((max_by_view-step best q qs).1 down))
        (IsHighest-skip best q (max_by_view best qs) qs (ground arith) (max_by_view_lem best qs))
]

-- A signer, whose flag is set, carried the certificate at its own index.
abbrev pub Carries : TimeoutCertificate → QuorumCertificate → Type 0
Carries tc q =
    (i : ℕ) × (get_elem? tc.aggregate_signature.signers i ≡ some true)
    × (get_elem? tc.highest_qcs i ≡ some (some q))

abbrev CarriedAt : List Bool → List (Option QuorumCertificate) → QuorumCertificate → Type 0
CarriedAt bs qcs q = (i : ℕ) × (get_elem? bs i ≡ some true) × (get_elem? qcs i ≡ some (some q))

signed_qcs_sound :
    (bs : List Bool) (qcs : List (Option QuorumCertificate)) (i : ℕ) (q : QuorumCertificate)
    → get_elem? (signed_qcs bs qcs) i ≡ some q
    → CarriedAt bs qcs q
unfolding signed_qcs
signed_qcs_sound [] qcs i q e = absurd (ground arith)
signed_qcs_sound (b ∷ bs) [] i q e = absurd (ground arith)
signed_qcs_sound (false ∷ bs) (o ∷ qcs) i q e =
    let (k, flag, at) = signed_qcs_sound bs qcs i q e in (suc k, flag, at)
signed_qcs_sound (true ∷ bs) (none ∷ qcs) i q e =
    let (k, flag, at) = signed_qcs_sound bs qcs i q e in (suc k, flag, at)
signed_qcs_sound (true ∷ bs) (some r ∷ qcs) zero q e = (zero, refl, ap (λ o. some o) e)
signed_qcs_sound (true ∷ bs) (some r ∷ qcs) (suc i) q e =
    let (k, flag, at) = signed_qcs_sound bs qcs i q e in (suc k, flag, at)

signed_qcs_complete :
    (bs : List Bool) (qcs : List (Option QuorumCertificate)) (i : ℕ) (q : QuorumCertificate)
    → get_elem? bs i ≡ some true
    → get_elem? qcs i ≡ some (some q)
    → (k : ℕ) × (get_elem? (signed_qcs bs qcs) k ≡ some q)
unfolding signed_qcs
signed_qcs_complete [] qcs i q flag at = absurd (ground arith)
signed_qcs_complete (b ∷ bs) [] i q flag at = absurd (ground arith)
signed_qcs_complete (false ∷ bs) (o ∷ qcs) zero q flag at = absurd (ground arith)
signed_qcs_complete (false ∷ bs) (o ∷ qcs) (suc i) q flag at =
    signed_qcs_complete bs qcs i q flag at
signed_qcs_complete (true ∷ bs) (none ∷ qcs) zero q flag at = absurd (ground arith)
signed_qcs_complete (true ∷ bs) (none ∷ qcs) (suc i) q flag at =
    signed_qcs_complete bs qcs i q flag at
signed_qcs_complete (true ∷ bs) (some r ∷ qcs) zero q flag at = (zero, ground arith)
signed_qcs_complete (true ∷ bs) (some r ∷ qcs) (suc i) q flag at =
    let (k, found) = signed_qcs_complete bs qcs i q flag at in (suc k, found)

All-at :
    (top : ℕ) (qs : List QuorumCertificate) (k : ℕ) (r : QuorumCertificate)
    → All (λ (x : QuorumCertificate). x.view ≤ top) qs
    → get_elem? qs k ≡ some r
    → r.view ≤ top
All-at top [] k r h e = absurd (ground arith)
All-at top (q ∷ qs) zero r h e = ground (arith, h.0)
All-at top (q ∷ qs) (suc k) r h e = All-at top qs k r h.1 e

highest_of_lem :
    (qs : List QuorumCertificate)
    → ((q : QuorumCertificate) → highest_of qs ≡ some q → IsHighest q qs)
      × (highest_of qs ≡ none → qs ≡ [])
unfolding highest_of
highest_of_lem [] = ((λ q h. absurd (ground arith)), (λ h. refl))
highest_of_lem (r ∷ qs) = (
  (λ q h. subst (λ x. IsHighest x (r ∷ qs)) (cc) (max_by_view_lem r qs)),
  (λ h. absurd (ground arith)),
)

-- What the highest certificate is, over the certificates that signers carried.
abbrev pub IsBest : TimeoutCertificate → Option QuorumCertificate → Type 0
IsBest tc none = (r : QuorumCertificate) → ¬ Carries tc r
IsBest tc (some q) = Carries tc q × ((r : QuorumCertificate) → Carries tc r → r.view ≤ q.view)

-- A timeout certificate's highest certificate is one that a signer carried, and no signer carried one
-- of a higher view; there is none only when no signer carried any. What is carried at an index without
-- a set flag does not count.
pub highest_qc_lem : (tc : TimeoutCertificate) → IsBest tc (highest_qc tc)
unfolding highest_qc
highest_qc_lem tc = elim (Option-cases (highest_of carried)) [
  | inl nothing_carried ↦ rw nothing_carried (λ r (j, flag, at).
      let (k, found) = signed_qcs_complete flags tc.highest_qcs j r flag at in
      let empty = (highest_of_lem carried).1 nothing_carried in
      absurd (ground (arith, empty, found)))
  | inr (q, chosen) ↦
      let ((i, at), top) = (highest_of_lem carried).0 q chosen in
      rw chosen (
        signed_qcs_sound flags tc.highest_qcs i q at,
        λ r (j, flag, held).
            let (k, found) = signed_qcs_complete flags tc.highest_qcs j r flag held in
            All-at q.view carried k r top found,
      )
]
  where
    flags : List Bool
    flags = tc.aggregate_signature.signers

    carried : List QuorumCertificate
    carried = signed_qcs flags tc.highest_qcs
