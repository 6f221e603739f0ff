-- ===== src/Types/Validator/Valid.antt =====
-- What a validator set promises, and that construction grants exactly that.
use mathlib.Core.Logic.{◌≢◌}
use hotmint.Base.{
  length, All, u64_limit, ok, >>=-eq-ok, ℕ, ◌+◌, ◌<◌, ◌≡◌, refl, sym, ap, ◌∙◌, subst, ◌↔◌, ◌⊎◌, inl,
  inr, true, false, List, [], ◌∷◌, map, arith,
}
use hotmint.Base.Bytes.{Bytes}
use hotmint.Base.Distinct.{
  Distinct, Apart, Apart-nil, Apart-cons, Apart-uncons, contains, contains_iff,
}
use hotmint.Base.Map.{nat_eq, text_eq}
use hotmint.Types.Validator.{
  ValidatorInfo, ValidatorSet, add_powers, compute_total_power, check_members, build_index,
  is_empty, try_from_parts, try_new,
}

abbrev pub ids : List ValidatorInfo → List ℕ
ids = map λ v. v.id

abbrev pub keys : List ValidatorInfo → List Bytes
keys = map λ v. v.public_key

abbrev pub sum_power : List ValidatorInfo → ℕ
sum_power [] = 0
sum_power (v ∷ vs) = v.power + sum_power vs

abbrev pub KeySized : ValidatorInfo → Type 0
KeySized v = length v.public_key ≡ 32

-- A member list that a set accepts: ids and keys are distinct, the keys are of Ed25519's length, and
-- the powers add up to a positive `u64` unless the list is empty.
pub record IsAdmissible (vs : List ValidatorInfo) : Type 0 where
  pub distinct_ids : Distinct (ids vs)
  pub distinct_keys : Distinct (keys vs)
  pub sized : All KeySized vs
  pub bounded : sum_power vs < u64_limit
  pub positive : vs ≢ [] → 0 < sum_power vs

pub record IsValid (s : ValidatorSet) : Type 0 where
  pub admissible : IsAdmissible s.validators
  pub totalled : s.total_power ≡ sum_power s.validators
  pub indexed : s.index_map ≡ build_index s.validators

pub add_powers-ok :
    (acc : ℕ) (vs : List ValidatorInfo)
    → acc + sum_power vs < u64_limit
    → add_powers acc vs ≡ ok (acc + sum_power vs)
unfolding add_powers
add_powers-ok acc [] h = ground arith
add_powers-ok acc (v ∷ vs) h = ground (arith, add_powers-ok (acc + v.power) vs)

pub add_powers_sound :
    (acc : ℕ) (vs : List ValidatorInfo) {t : ℕ}
    → acc < u64_limit
    → add_powers acc vs ≡ ok t
    → (t ≡ acc + sum_power vs) × (t < u64_limit)
unfolding add_powers
add_powers_sound acc [] b h = ground arith
add_powers_sound acc (v ∷ vs) {t} b h = ground (arith, add_powers_sound (acc + v.power) vs {t = t})

record Members (seen : List ℕ) (used : List Bytes) (vs : List ValidatorInfo) : Type 0 where
  new_ids : Apart seen (ids vs)
  distinct_ids : Distinct (ids vs)
  new_keys : Apart used (keys vs)
  distinct_keys : Distinct (keys vs)
  sized : All KeySized vs

record IsFresh (seen : List ℕ) (used : List Bytes) (v : ValidatorInfo) : Type 0 where
  id_new : contains v.id seen ≡ false
  key_new : contains v.public_key used ≡ false
  key_sized : KeySized v

module _ (seen : List ℕ) (used : List Bytes) (v : ValidatorInfo) (vs : List ValidatorInfo) where
  Members-cons :
      IsFresh seen used v
      → Members (v.id ∷ seen) (v.public_key ∷ used) vs
      → Members seen used (v ∷ vs)
  Members-cons f m =
      let id_parts = Apart-uncons v.id seen (ids vs) m.new_ids in
      let key_parts = Apart-uncons v.public_key used (keys vs) m.new_keys in
      record {
        new_ids = ((contains_iff v.id seen).0 f.id_new, id_parts.1);
        distinct_ids = (id_parts.0, m.distinct_ids);
        new_keys = ((contains_iff v.public_key used).0 f.key_new, key_parts.1);
        distinct_keys = (key_parts.0, m.distinct_keys);
        sized = (f.key_sized, m.sized);
      }

  Members-tail : Members seen used (v ∷ vs) → Members (v.id ∷ seen) (v.public_key ∷ used) vs
  Members-tail m = record {
    new_ids = Apart-cons v.id seen (ids vs) m.distinct_ids.0 m.new_ids.1;
    distinct_ids = m.distinct_ids.1;
    new_keys = Apart-cons v.public_key used (keys vs) m.distinct_keys.0 m.new_keys.1;
    distinct_keys = m.distinct_keys.1;
    sized = m.sized.1;
  }

  Members-head : Members seen used (v ∷ vs) → IsFresh seen used v
  Members-head m = record {
    id_new = (contains_iff v.id seen).1 m.new_ids.0;
    key_new = (contains_iff v.public_key used).1 m.new_keys.0;
    key_sized = m.sized.0;
  }

  check_members-head : check_members seen used (v ∷ vs) ≡ ok tt → IsFresh seen used v
  unfolding check_members
  check_members-head h = ground arith

  check_members-tail :
      check_members seen used (v ∷ vs) ≡ ok tt
      → check_members (v.id ∷ seen) (v.public_key ∷ used) vs ≡ ok tt
  unfolding check_members
  check_members-tail h = ground arith

  check_members-cons :
      IsFresh seen used v
      → check_members (v.id ∷ seen) (v.public_key ∷ used) vs ≡ ok tt
      → check_members seen used (v ∷ vs) ≡ ok tt
  unfolding check_members
  check_members-cons f h = ground arith

check_members_sound :
    (seen : List ℕ) (used : List Bytes) (vs : List ValidatorInfo)
    → check_members seen used vs ≡ ok tt
    → Members seen used vs
check_members_sound seen used [] h = record {
  new_ids = tt;
  distinct_ids = tt;
  new_keys = tt;
  distinct_keys = tt;
  sized = tt;
}
check_members_sound seen used (v ∷ vs) h =
    Members-cons seen used v vs (check_members-head seen used v vs h) (
      check_members_sound (v.id ∷ seen) (v.public_key ∷ used) vs
        (check_members-tail seen used v vs h))

check_members-ok :
    (seen : List ℕ) (used : List Bytes) (vs : List ValidatorInfo)
    → Members seen used vs
    → check_members seen used vs ≡ ok tt
check_members-ok seen used [] m = unfold check_members in refl
check_members-ok seen used (v ∷ vs) m =
    check_members-cons seen used v vs (Members-head seen used v vs m)
      (check_members-ok (v.id ∷ seen) (v.public_key ∷ used) vs (Members-tail seen used v vs m))

-- The set that a member list describes.
abbrev pub set_of : List ValidatorInfo → ValidatorSet
set_of vs = record { validators = vs; total_power = sum_power vs; index_map = build_index vs }

pub try_new-ok : (vs : List ValidatorInfo) → IsAdmissible vs → try_new vs ≡ ok (set_of vs)
unfolding try_new try_from_parts compute_total_power
try_new-ok vs a = ground (arith, add_powers-ok 0 vs, members, a.positive, empty_or vs)
  where
    members : check_members [] [] vs ≡ ok tt
    members = check_members-ok [] [] vs (record {
      new_ids = Apart-nil (ids vs);
      distinct_ids = a.distinct_ids;
      new_keys = Apart-nil (keys vs);
      distinct_keys = a.distinct_keys;
      sized = a.sized;
    })

    empty_or : (ws : List ValidatorInfo) → (is_empty ws ≡ true) ⊎ (ws ≢ [])
    empty_or [] = inl refl
    empty_or (w ∷ ws) = inr λ e. cc

try_new-total :
    (vs : List ValidatorInfo) (s : ValidatorSet)
    → try_new vs ≡ ok s
    → (add_powers 0 vs ≡ ok (sum_power vs)) × (sum_power vs < u64_limit)
unfolding try_new compute_total_power
try_new-total vs s h =
    let (t, e, _) = >>=-eq-ok (add_powers 0 vs) (λ total. try_from_parts vs total) h in
    ground (arith, add_powers_sound 0 vs {t = t} (omega arith) e, e)

filled : (ws : List ValidatorInfo) → ws ≢ [] → is_empty ws ≡ false
filled [] ne = absurd (ne refl)
filled (w ∷ ws) ne = refl

pub try_new_sound :
    (vs : List ValidatorInfo) (s : ValidatorSet)
    → try_new vs ≡ ok s
    → IsAdmissible vs × (s ≡ set_of vs)
unfolding try_new try_from_parts compute_total_power
try_new_sound vs s h = (
  record {
    distinct_ids = members.distinct_ids;
    distinct_keys = members.distinct_keys;
    sized = members.sized;
    bounded = (try_new-total vs s h).1;
    positive = λ ne. ground (arith, try_new-total vs s h, filled vs ne);
  },
  ground (arith, try_new-total vs s h),
)
  where
    members : Members [] [] vs
    members = check_members_sound [] [] vs (ground arith)

pub try_new-IsValid : (vs : List ValidatorInfo) (s : ValidatorSet) → try_new vs ≡ ok s → IsValid s
try_new-IsValid vs s h =
    let (a, e) = try_new_sound vs s h in
    subst IsValid (sym e) (record { admissible = a; totalled = refl; indexed = refl })

pub IsValid-set_of : (s : ValidatorSet) → IsValid s → s ≡ set_of s.validators
IsValid-set_of s v = ground (arith, v.totalled, v.indexed)

-- Construction succeeds exactly on the member lists of valid sets, and returns the set with them.
pub try_new_iff :
    (vs : List ValidatorInfo) (s : ValidatorSet)
    → (try_new vs ≡ ok s) ↔ (IsValid s × (s.validators ≡ vs))
try_new_iff vs s = (
  (λ h. (try_new-IsValid vs s h, ap (λ (r : ValidatorSet). r.validators) (try_new_sound vs s h).1)),
  (λ h.
      subst (λ ws. try_new ws ≡ ok s) h.1
        (try_new-ok s.validators h.0.admissible ∙ ap ok (sym (IsValid-set_of s h.0)))),
)
