-- ===== src/Types/Validator/Lookup.antt =====
-- The index map of a valid set against a search of its members.
use hotmint.Base.Map
use hotmint.Base.{
  ◌==◌, if◌then◌else◌, get_elem?, find, ℕ, zero, suc, ◌+◌, ◌≡◌, refl, sym, ◌∙◌, subst, ◌≢◌, ◌↔◌,
  Bool, Option, none, some, List, [], ◌∷◌, arith,
}
use hotmint.Base.Distinct.{NotIn, Distinct}
use hotmint.Base.Map.{get-insert, nat_eq, text_eq}
use hotmint.Types.Validator.{get, ValidatorInfo, ValidatorSet, index_from, build_index, index_of}
use hotmint.Types.Validator.Valid.{ids, IsValid}

abbrev pub has_id : ℕ → ValidatorInfo → Bool
has_id id v = v.id == id

-- Where the first member with this id stands.
abbrev pub position : ℕ → List ValidatorInfo → Option ℕ
position id [] = none
position id (v ∷ vs) =
    if v.id == id then some 0 else elim (position id vs) [ none ↦ none | some k ↦ some (suc k) ]

position_of_NotIn : (id : ℕ) (vs : List ValidatorInfo) → NotIn id (ids vs) → position id vs ≡ none
position_of_NotIn id [] n = refl
position_of_NotIn id (v ∷ vs) n = ground (arith, position_of_NotIn id vs n.1, n.0)

get-index_from :
    (id i : ℕ) (vs : List ValidatorInfo) (m : List (ℕ × ℕ))
    → Distinct (ids vs)
    → Map.get id (index_from i vs m)
      ≡ elim (position id vs) [ none ↦ Map.get id m | some k ↦ some (i + k) ]
unfolding index_from
get-index_from id i [] m d = refl
get-index_from id i (v ∷ vs) m d = ground (
  arith,
  get-index_from id (suc i) vs (Map.insert v.id i m) d.1,
  Map.get-insert v.id id i m,
  position_of_NotIn v.id vs d.0,
  seen,
)
  where
    seen : v.id ≡ id → position id vs ≡ none
    seen e = rw (← e) (position_of_NotIn v.id vs d.0)

pub index_of-position :
    (s : ValidatorSet) (id : ℕ) → IsValid s → index_of s id ≡ position id s.validators
unfolding index_of build_index
index_of-position s id v =
    ground
      (arith, v.indexed, get-index_from id 0 s.validators [] v.admissible.distinct_ids, nothing)
  where
    nothing : Map.get {V = ℕ} id [] ≡ none
    nothing = unfold Map.get in refl

find-position :
    (id : ℕ) (vs : List ValidatorInfo)
    → elim (position id vs) [ none ↦ none | some k ↦ get_elem? vs k ] ≡ find (has_id id) vs
find-position id [] = refl
find-position id (v ∷ vs) = ground (arith, find-position id vs)

-- On a valid set the indexed lookup is the linear search for the id; no index is out of range.
pub get-find : (s : ValidatorSet) (id : ℕ) → IsValid s → get s id ≡ find (has_id id) s.validators
unfolding get
get-find s id v = rw (index_of-position s id v, get) (find-position id s.validators)

position_sound :
    (id : ℕ) (vs : List ValidatorInfo) (i : ℕ)
    → position id vs ≡ some i
    → (v : ValidatorInfo) × (get_elem? vs i ≡ some v) × (v.id ≡ id)
position_sound id [] i h = cc
position_sound id (v ∷ vs) zero h = (v, refl, ground arith)
position_sound id (v ∷ vs) (suc i) h = position_sound id vs i (ground arith)

NotIn-get :
    (x : ℕ) (vs : List ValidatorInfo) (i : ℕ) {v : ValidatorInfo}
    → NotIn x (ids vs)
    → get_elem? vs i ≡ some v
    → v.id ≢ x
NotIn-get x [] i n h = cc
NotIn-get x (w ∷ vs) zero n h = ground (arith, n.0)
NotIn-get x (w ∷ vs) (suc i) {v} n h = NotIn-get x vs i {v = v} n.1 h

position_complete :
    (vs : List ValidatorInfo) (i : ℕ) (v : ValidatorInfo)
    → Distinct (ids vs)
    → get_elem? vs i ≡ some v
    → position v.id vs ≡ some i
position_complete [] i v d h = cc
position_complete (w ∷ vs) zero v d h = ground arith
position_complete (w ∷ vs) (suc i) v d h =
    ground (arith, position_complete vs i v d.1 h, NotIn-get w.id vs i {v = v} d.0 h)

-- In a valid set an id has the index `i` exactly when the member at `i` has that id.
pub index_of_iff :
    (s : ValidatorSet) (id i : ℕ)
    → IsValid s
    → (index_of s id ≡ some i)
      ↔ ((v : ValidatorInfo) × (get_elem? s.validators i ≡ some v) × (v.id ≡ id))
index_of_iff s id i h = (
  (λ e. position_sound id s.validators i (sym (index_of-position s id h) ∙ e)),
  (λ (v, at, e).
      index_of-position s id h
      ∙ subst (λ k. position k s.validators ≡ some i) e
          (position_complete s.validators i v h.admissible.distinct_ids at)),
)
