-- ===== src/Types/Updates.antt =====
-- crates/hotmint-types/src/validator_update.rs and `try_apply_updates` of validator.rs.
pub mod Accept
use hotmint.Base.{
  ◌==◌, if◌then◌else◌, Bool-cases, Option-cases, find, retain, Result, ok, ℕ, ◌≡◌, refl, sym, ap,
  ◌∙◌, inl, inr, not, Option, none, some, List, [], ◌∷◌, ◌++◌, arith,
}
use hotmint.Base.Bytes.{Bytes}
use hotmint.Types.Validator.{get, ValidatorInfo, ValidatorSet, SetError, try_new}
use hotmint.Types.Validator.Lookup.{has_id, get-find}
use hotmint.Types.Validator.Same.{find-retain}
use hotmint.Types.Validator.Valid.{IsValid, try_new_iff}

pub record ValidatorUpdate : Type 0 where
  pub id : ℕ
  pub public_key : Bytes
  pub power : ℕ

unfoldable pub info_of : ValidatorUpdate → ValidatorInfo
info_of u = record { id = u.id; public_key = u.public_key; power = u.power }

-- `iter_mut().find(…)` and the two assignments; `none` if no member has the id.
unfoldable pub replace_first : ValidatorUpdate → List ValidatorInfo → Option (List ValidatorInfo)
replace_first u [] = none
replace_first u (v ∷ vs) =
    let rest = replace_first u vs in
    if v.id == u.id
    then some (record v { public_key = u.public_key; power = u.power } ∷ vs)
    else elim rest [ none ↦ none | some ws ↦ some (v ∷ ws) ]

unfoldable pub apply_update : List ValidatorInfo → ValidatorUpdate → List ValidatorInfo
unfolding replace_first info_of
apply_update infos u =
    if u.power == 0
    then retain (λ v. not (v.id == u.id)) infos
    else elim (replace_first u infos) [ none ↦ infos ++ info_of u ∷ [] | some ws ↦ ws ]

unfoldable pub apply_all : List ValidatorInfo → List ValidatorUpdate → List ValidatorInfo
apply_all infos [] = infos
apply_all infos (u ∷ us) = apply_all (apply_update infos u) us

unfoldable pub try_apply_updates :
    ValidatorSet → List ValidatorUpdate → Result SetError ValidatorSet
try_apply_updates s us = try_new (apply_all s.validators us)

-- What one update leaves of the member with an id.
abbrev pub update_member : ℕ → ValidatorUpdate → Option ValidatorInfo → Option ValidatorInfo
update_member id u old =
    if u.id == id
    then (if u.power == 0
        then none
        else some (record { id = id; public_key = u.public_key; power = u.power }))
    else old

abbrev pub update_members : ℕ → List ValidatorUpdate → Option ValidatorInfo → Option ValidatorInfo
update_members id [] old = old
update_members id (u ∷ us) old = update_members id us (update_member id u old)

find-append :
    (id : ℕ) (vs : List ValidatorInfo) (w : ValidatorInfo)
    → find (has_id id) (vs ++ w ∷ []) ≡ elim (find (has_id id) vs) [
      | none ↦ (if w.id == id then some w else none)
      | some v ↦ some v
    ]
find-append id [] w = refl
find-append id (v ∷ vs) w = ground (arith, find-append id vs w)

pub find_of_replace_none :
    (u : ValidatorUpdate) (vs : List ValidatorInfo)
    → replace_first u vs ≡ none
    → find (has_id u.id) vs ≡ none
unfolding replace_first
find_of_replace_none u [] h = refl
find_of_replace_none u (v ∷ vs) h = ground (arith, find_of_replace_none u vs)

find-replace_first :
    (id : ℕ) (u : ValidatorUpdate) (vs ws : List ValidatorInfo)
    → replace_first u vs ≡ some ws
    → find (has_id id) ws ≡ (if u.id == id then some (info_of u) else find (has_id id) vs)
unfolding replace_first info_of
find-replace_first id u [] ws h = cc
find-replace_first id u (v ∷ vs) ws h = elim (Bool-cases (v.id == u.id)) [
  | inl hit ↦ ground arith
  | inr miss ↦ elim (Option-cases (replace_first u vs)) [
    | inl e ↦ ground arith
    | inr (r, e) ↦ ground (arith, find-replace_first id u vs r e)
  ]
]

pub find-apply_update :
    (id : ℕ) (u : ValidatorUpdate) (vs : List ValidatorInfo)
    → find (has_id id) (apply_update vs u) ≡ update_member id u (find (has_id id) vs)
unfolding apply_update info_of
find-apply_update id u vs = elim (Option-cases (replace_first u vs)) [
  | inl e ↦
      ground (
        arith,
        e,
        find-retain id u.id vs,
        find-append id vs (info_of u),
        find_of_replace_none u vs e,
      )
  | inr (ws, e) ↦ ground (arith, e, find-retain id u.id vs, find-replace_first id u vs ws e)
]

pub find-apply_all :
    (id : ℕ) (us : List ValidatorUpdate) (vs : List ValidatorInfo)
    → find (has_id id) (apply_all vs us) ≡ update_members id us (find (has_id id) vs)
unfolding apply_all
find-apply_all id [] vs = refl
find-apply_all id (u ∷ us) vs =
    find-apply_all id us (apply_update vs u) ∙ ap (update_members id us) (find-apply_update id u vs)

-- Where updates are accepted, each id has the member that the last update of it leaves, no member if
-- that update has power 0, and its old member if no update names it; the new set is valid.
pub get-try_apply_updates :
    (s t : ValidatorSet) (us : List ValidatorUpdate) (id : ℕ)
    → IsValid s
    → try_apply_updates s us ≡ ok t
    → IsValid t × (get t id ≡ update_members id us (get s id))
unfolding try_apply_updates
get-try_apply_updates s t us id v h =
    let (valid, made) = (try_new_iff (apply_all s.validators us) t).0 h in
    (
      valid,
      get-find t id valid
          ∙ ap (find (has_id id)) made
          ∙ find-apply_all id us s.validators
          ∙ ap (update_members id us) (sym (get-find s id v)),
    )
