-- ===== src/Staking/Formal/Updates.antt =====
-- crates/hotmint-staking/src/manager.rs: what the updates of `compute_validator_updates` leave under
-- each id of a validator set that they are applied to.
use hotmint.Base.{
  ◌==◌, if◌then◌else◌, ==_iff, Bool-cases, Option-cases, is_some, if_cases, any, find, All, ℕ, ◌<◌,
  ◌≡◌, refl, sym, ap, ◌∙◌, ◌≢◌, inl, inr, true, false, Option, none, some, List, [], ◌∷◌, ◌++◌, map,
  arith,
}
use hotmint.Base.Bytes.{bytes_eq_iff}
use hotmint.Base.Sort.{DistinctBy}
use hotmint.Staking.{ValidatorState, voting_power}
use hotmint.Staking.Formal.{update_to, is_unchanged, changed_updates, in_list, removal_updates}
use hotmint.Types.Updates.{ValidatorUpdate, update_member, update_members}
use hotmint.Types.Validator.{get, ValidatorInfo, ValidatorSet}
use hotmint.Types.Validator.Lookup.{has_id, get-find}
use hotmint.Types.Validator.Same.{id-find}
use hotmint.Types.Validator.Valid.{IsValid}

-- The member that a validator becomes.
unfoldable pub member_of : ValidatorState → ValidatorInfo
member_of v = record { id = v.id; public_key = v.public_key; power = voting_power v }

abbrev pub members_of : List ValidatorState → List ValidatorInfo
members_of = map member_of

pub update_members-append :
    (id : ℕ) (us ws : List ValidatorUpdate) (old : Option ValidatorInfo)
    → update_members id (us ++ ws) old ≡ update_members id ws (update_members id us old)
update_members-append id [] ws old = refl
update_members-append id (u ∷ us) ws old = update_members-append id us ws (update_member id u old)

pub in_list-find :
    (id : ℕ) (vs : List ValidatorState) → in_list id vs ≡ is_some (find (has_id id) (members_of vs))
unfolding member_of
in_list-find id [] = refl
in_list-find id (v ∷ vs) = ground (arith, in_list-find id vs)

changed_updates-other :
    (current : ValidatorSet) (id : ℕ) (vs : List ValidatorState) (old : Option ValidatorInfo)
    → in_list id vs ≡ false
    → update_members id (changed_updates current vs) old ≡ old
unfolding changed_updates
changed_updates-other current id [] old h = refl
changed_updates-other current id (v ∷ vs) old h =
    let rest = changed_updates-other current id vs old (ground arith) in
    if_cases (λ us. update_members id us old ≡ old) (is_unchanged current v) (λ _. rest)
      (λ _. ground (arith, rest))

-- A member left alone is already what the validator becomes.
unchanged-member_of :
    (current : ValidatorSet) (v : ValidatorState)
    → IsValid current
    → is_unchanged current v ≡ true
    → get current v.id ≡ some (member_of v)
unfolding member_of
unchanged-member_of current v valid h = elim (Option-cases (get current v.id)) [
  | inl absent ↦ absurd (ground (arith, absent))
  | inr (i, found) ↦
      let name = id-find v.id current.validators i (sym (get-find current v.id valid) ∙ found) in
      ground (arith, found, name, bytes_eq_iff i.public_key v.public_key)
]

in_list_of_All :
    (id : ℕ) (vs : List ValidatorState) → All (λ y. y.id ≢ id) vs → in_list id vs ≡ false
in_list_of_All id [] n = refl
in_list_of_All id (v ∷ vs) n = ground (arith, n.0, in_list_of_All id vs n.1)

pub update_members-changed_updates :
    (current : ValidatorSet) (id : ℕ) (vs : List ValidatorState)
    → IsValid current
    → DistinctBy (λ v. v.id) vs
    → All (λ v. 0 < voting_power v) vs
    → update_members id (changed_updates current vs) (get current id)
      ≡ elim (find (has_id id) (members_of vs)) [ none ↦ get current id | some i ↦ some i ]
unfolding changed_updates member_of
update_members-changed_updates current id [] valid d pos = refl
update_members-changed_updates current id (v ∷ vs) valid d pos =
    let rest = update_members-changed_updates current id vs valid d.1 pos.1 in
    elim (Bool-cases (v.id == id)) [
      | inl hit ↦
          let here : v.id ≡ id = (==_iff v.id id).0 hit in
          let absent : in_list id vs ≡ false = rw⁻¹ here (in_list_of_All v.id vs d.0) in
          elim (Bool-cases (is_unchanged current v)) [
            | inl same ↦ ground (
              arith,
              hit,
              same,
              unchanged-member_of current v valid same,
              ap (get current) here,
              changed_updates-other current id vs (get current id) absent,
            )
            | inr differs ↦ ground (
              arith,
              hit,
              differs,
              pos.0,
              changed_updates-other current id vs (update_member id (update_to v) (get current id))
                  absent,
            )
          ]
      | inr miss ↦ elim (Bool-cases (is_unchanged current v)) [
        | inl same ↦ ground (arith, miss, same, rest)
        | inr differs ↦ ground (arith, miss, differs, rest)
      ]
    ]

pub update_members-removal_updates :
    (formal : List ValidatorState) (id : ℕ) (is : List ValidatorInfo) (old : Option ValidatorInfo)
    → update_members id (removal_updates formal is) old
      ≡ (if in_list id formal then old else if any (has_id id) is then none else old)
unfolding removal_updates
update_members-removal_updates formal id [] old = ground arith
update_members-removal_updates formal id (i ∷ is) old = elim (Bool-cases (in_list i.id formal)) [
  | inl kept ↦
      ground
        (arith, kept, update_members-removal_updates formal id is old, ap (λ n. in_list n formal))
  | inr gone ↦ ground (
    arith,
    gone,
    update_members-removal_updates formal id is (if i.id == id then none else old),
    ap (λ n. in_list n formal),
  )
]
