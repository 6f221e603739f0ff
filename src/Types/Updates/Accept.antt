-- ===== src/Types/Updates/Accept.antt =====
-- crates/hotmint-types/src/validator.rs: updates that lead to an admissible member list are accepted.
use hotmint.Base.{
  ◌==◌, Bool-cases, Option-cases, if_cases, find, ok, ℕ, ◌≡◌, sym, ap, ◌∙◌, ◌≢◌, inl, inr, some,
  List, [], ◌∷◌, ◌++◌, arith,
}
use hotmint.Base.Distinct.{NotIn, Distinct}
use hotmint.Base.Map.{nat_eq, text_eq}
use hotmint.Consensus.VoteCollector.{vote_key_eq}
use hotmint.Staking.Store.{stake_key_eq}
use hotmint.Types.Updates.{
  ValidatorUpdate, info_of, replace_first, apply_update, apply_all, try_apply_updates,
  update_members, find_of_replace_none, find-apply_all,
}
use hotmint.Types.Validator.{get, ValidatorInfo, ValidatorSet, try_new}
use hotmint.Types.Validator.Lookup.{has_id, get-find}
use hotmint.Types.Validator.Same.{NotIn-of_find, Distinct-retain}
use hotmint.Types.Validator.Transfer.{IsAdmissible-SameMembers}
use hotmint.Types.Validator.Valid.{ids, IsAdmissible, IsValid, set_of, try_new-ok, try_new-IsValid}

-- The ids stay when a member's key and power are replaced.
ids-replace_first :
    (u : ValidatorUpdate) (vs ws : List ValidatorInfo)
    → replace_first u vs ≡ some ws
    → ids ws ≡ ids vs
unfolding replace_first
ids-replace_first u [] ws h = cc
ids-replace_first u (v ∷ vs) ws h = elim (Bool-cases (v.id == u.id)) [
  | inl hit ↦ ground arith
  | inr miss ↦ elim (Option-cases (replace_first u vs)) [
    | inl e ↦ absurd (ground arith)
    | inr (r, e) ↦ ground (arith, ids-replace_first u vs r e)
  ]
]

NotIn-append :
    (x : ℕ) (vs : List ValidatorInfo) (w : ValidatorInfo)
    → NotIn x (ids vs)
    → w.id ≢ x
    → NotIn x (ids (vs ++ w ∷ []))
NotIn-append x [] w n h = (h, tt)
NotIn-append x (v ∷ vs) w n h = (n.0, NotIn-append x vs w n.1 h)

Distinct-append :
    (vs : List ValidatorInfo) (w : ValidatorInfo)
    → Distinct (ids vs)
    → NotIn w.id (ids vs)
    → Distinct (ids (vs ++ w ∷ []))
Distinct-append [] w d n = (tt, tt)
Distinct-append (v ∷ vs) w d n =
    (NotIn-append v.id vs w d.0 (λ e. n.0 (sym e)), Distinct-append vs w d.1 n.1)

Distinct-apply_update :
    (vs : List ValidatorInfo) (u : ValidatorUpdate)
    → Distinct (ids vs)
    → Distinct (ids (apply_update vs u))
unfolding apply_update info_of
Distinct-apply_update vs u d =
    if_cases (λ ws. Distinct (ids ws)) (u.power == 0) (λ _. Distinct-retain _ vs d)
      (λ _. (elim (Option-cases (replace_first u vs)) [
        | inl e ↦
            rw e (
              Distinct-append vs (info_of u) d
                (NotIn-of_find u.id vs (find_of_replace_none u vs e)))
        | inr (ws, e) ↦ rw (e, ids-replace_first u vs ws e) d
      ]))

Distinct-apply_all :
    (us : List ValidatorUpdate) (vs : List ValidatorInfo)
    → Distinct (ids vs)
    → Distinct (ids (apply_all vs us))
unfolding apply_all
Distinct-apply_all [] vs d = d
Distinct-apply_all (u ∷ us) vs d =
    Distinct-apply_all us (apply_update vs u) (Distinct-apply_update vs u d)

-- Where the updates leave, under every id, the members of an admissible list that is not empty, they
-- are accepted, and the new set is valid and has exactly these members.
pub try_apply_updates-accepts :
    (s : ValidatorSet) (us : List ValidatorUpdate) (target : List ValidatorInfo)
    → IsValid s
    → IsAdmissible target
    → target ≢ []
    → ((id : ℕ) → update_members id us (get s id) ≡ find (has_id id) target)
    → (t : ValidatorSet) × (try_apply_updates s us ≡ ok t)
      × IsValid t
      × ((id : ℕ) → get t id ≡ find (has_id id) target)
unfolding try_apply_updates
try_apply_updates-accepts s us target v a some_member same =
    (set_of made, accepted, valid, λ id. get-find (set_of made) id valid ∙ members id)
  where
    made : List ValidatorInfo
    made = apply_all s.validators us

    members : (id : ℕ) → find (has_id id) made ≡ find (has_id id) target
    members id =
        find-apply_all id us s.validators
        ∙ ap (update_members id us) (sym (get-find s id v))
        ∙ same id

    admissible : IsAdmissible made
    admissible =
        IsAdmissible-SameMembers target made a some_member
          (Distinct-apply_all us s.validators v.admissible.distinct_ids) members

    accepted : try_new made ≡ ok (set_of made)
    accepted = try_new-ok made admissible

    valid : IsValid (set_of made)
    valid = try_new-IsValid made (set_of made) accepted
