-- ===== src/Aggregate/Intersection.antt =====
-- Quorums as sets of members: what power signed, and what two quorums share.
use hotmint.Base.{
  get_elem?, get_or, u64_limit, ℕ, suc, ◌+◌, ◌-◌, ◌≤◌, ◌<◌, ◌≡◌, refl, ◌↔◌, Bool, true, false, some,
  List, [], ◌∷◌, arith,
}
use hotmint.Aggregate.{add_signed, has_quorum}
use hotmint.Types.Crypto.{AggregateSignature}
use hotmint.Types.Validator.{ValidatorInfo, ValidatorSet, quorum_threshold, max_faulty_power}
use hotmint.Types.Validator.Quorum.{quorum_threshold_lem}
use hotmint.Types.Validator.Valid.{sum_power, IsValid}

-- The power of the members whose flag is set.
abbrev pub signed_power : List Bool → List ValidatorInfo → ℕ
signed_power [] vs = 0
signed_power (b ∷ bs) [] = 0
signed_power (true ∷ bs) (v ∷ vs) = v.power + signed_power bs vs
signed_power (false ∷ bs) (v ∷ vs) = signed_power bs vs

signed_power-le : (bs : List Bool) (vs : List ValidatorInfo) → signed_power bs vs ≤ sum_power vs
signed_power-le [] vs = omega arith
signed_power-le (b ∷ bs) [] = omega arith
signed_power-le (true ∷ bs) (v ∷ vs) = omega (arith, signed_power-le bs vs)
signed_power-le (false ∷ bs) (v ∷ vs) = omega (arith, signed_power-le bs vs)

add_signed_nil : (p : ℕ) (bs : List Bool) → add_signed p bs [] ≡ some p
unfolding add_signed
add_signed_nil p [] = refl
add_signed_nil p (b ∷ bs) = add_signed_nil p bs

add_signed_lem :
    (p : ℕ) (bs : List Bool) (vs : List ValidatorInfo)
    → p + signed_power bs vs < u64_limit
    → add_signed p bs vs ≡ some (p + signed_power bs vs)
unfolding add_signed
add_signed_lem p [] vs h = ground arith
add_signed_lem p (b ∷ bs) [] h = ground (arith, add_signed_nil p bs)
add_signed_lem p (false ∷ bs) (v ∷ vs) h = add_signed_lem p bs vs h
add_signed_lem p (true ∷ bs) (v ∷ vs) h = ground (arith, add_signed_lem (p + v.power) bs vs)

-- In a valid set the loop never overflows: there is a quorum exactly when the members whose flag is
-- set have the threshold's power together.
pub has_quorum_iff :
    (vs : ValidatorSet) (agg : AggregateSignature)
    → IsValid vs
    → (has_quorum vs agg ≡ true) ↔ (quorum_threshold vs ≤ signed_power agg.signers vs.validators)
unfolding has_quorum
has_quorum_iff vs agg h = ((λ q. ground (arith, sum)), (λ q. ground (arith, sum)))
  where
    sum : add_signed 0 agg.signers vs.validators ≡ some (0 + signed_power agg.signers vs.validators)
    sum =
        add_signed_lem 0 agg.signers vs.validators
          (omega (arith, h.admissible.bounded, signed_power-le agg.signers vs.validators))

abbrev pub flagged : List Bool → ℕ → Bool
flagged bs i = get_or bs i false

-- A member that the first two mark and the third does not.
abbrev pub Shared : (a b faulty : List Bool) (vs : List ValidatorInfo) → Type 0
Shared a b faulty vs =
    (i : ℕ) × (v : ValidatorInfo) × (get_elem? vs i ≡ some v)
    × (flagged a i ≡ true)
    × (flagged b i ≡ true)
    × (flagged faulty i ≡ false)

skip :
    (x y z : Bool) (w : ValidatorInfo) (a b f : List Bool) (vs : List ValidatorInfo)
    → Shared a b f vs
    → Shared (x ∷ a) (y ∷ b) (z ∷ f) (w ∷ vs)
skip x y z w a b f vs (i, v, at, ha, hb, hf) = (suc i, v, at, ha, hb, hf)

-- An absent flag reads as false, so a list may be continued by one.
skip_nil :
    (x y : Bool) (w : ValidatorInfo) (a b : List Bool) (vs : List ValidatorInfo)
    → Shared a b [] vs
    → Shared (x ∷ a) (y ∷ b) [] (w ∷ vs)
skip_nil x y w a b vs (i, v, at, ha, hb, hf) = (suc i, v, at, ha, hb, refl)

shared :
    (a b f : List Bool) (vs : List ValidatorInfo)
    → sum_power vs + signed_power f vs < signed_power a vs + signed_power b vs
    → Shared a b f vs
shared [] b f vs h = absurd (omega (arith, signed_power-le b vs))
shared (x ∷ a) [] f vs h = absurd (omega (arith, signed_power-le (x ∷ a) vs))
shared (x ∷ a) (y ∷ b) f [] h = absurd (omega arith)
shared (true ∷ a) (true ∷ b) [] (w ∷ vs) h = (0, w, refl, refl, refl, refl)
shared (true ∷ a) (true ∷ b) (false ∷ f) (w ∷ vs) h = (0, w, refl, refl, refl, refl)
shared (true ∷ a) (true ∷ b) (true ∷ f) (w ∷ vs) h =
    skip true true true w a b f vs (shared a b f vs (omega arith))
shared (true ∷ a) (false ∷ b) [] (w ∷ vs) h =
    skip_nil true false w a b vs (shared a b [] vs (ground arith))
shared (true ∷ a) (false ∷ b) (true ∷ f) (w ∷ vs) h =
    skip true false true w a b f vs (shared a b f vs (omega arith))
shared (true ∷ a) (false ∷ b) (false ∷ f) (w ∷ vs) h =
    skip true false false w a b f vs (shared a b f vs (omega arith))
shared (false ∷ a) (y ∷ b) [] (w ∷ vs) h =
    skip_nil false y w a b vs (shared a b [] vs (ground arith))
shared (false ∷ a) (y ∷ b) (z ∷ f) (w ∷ vs) h =
    skip false y z w a b f vs (shared a b f vs (ground arith))

-- Two quorums of a valid set share a member outside any set whose power is at most
-- `max_faulty_power`: a correct member signed both.
pub quorum_intersection :
    (vs : ValidatorSet) (a b : AggregateSignature) (faulty : List Bool)
    → IsValid vs
    → has_quorum vs a ≡ true
    → has_quorum vs b ≡ true
    → signed_power faulty vs.validators ≤ max_faulty_power vs
    → Shared a.signers b.signers faulty vs.validators
quorum_intersection vs a b faulty h qa qb few = shared a.signers b.signers faulty vs.validators (
    omega (
      arith,
      (has_quorum_iff vs a h).0 qa,
      (has_quorum_iff vs b h).0 qb,
      quorum_threshold_lem vs h,
      faulty_lem,
      h.totalled,
      few,
      signed_power-le a.signers vs.validators,
    ))
  where
    faulty_lem : max_faulty_power vs ≡ vs.total_power - quorum_threshold vs
    faulty_lem = unfold max_faulty_power in refl
