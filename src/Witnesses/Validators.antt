-- ===== src/Witnesses/Validators.antt =====
-- The theorems on validator sets and aggregates, at a set of four.
use hotmint.Base.{
  replicate, ok, ℕ, ◌<◌, ◌≡◌, refl, ◌↔◌, Bool, true, false, some, List, [], ◌∷◌, arith,
}
use hotmint.Aggregate.{add_signed, has_quorum}
use hotmint.Aggregate.Intersection.{Shared, quorum_intersection}
use hotmint.Base.Bytes.{Bytes, bytes_eq}
use hotmint.Types.Crypto.{AggregateSignature}
use hotmint.Types.Updates.{
  ValidatorUpdate, info_of, replace_first, apply_update, apply_all, try_apply_updates,
  update_members, get-try_apply_updates,
}
use hotmint.Types.Validator.{
  get, ValidatorInfo, ValidatorSet, add_powers, compute_total_power, check_members, build_index,
  try_from_parts, try_new, quorum_threshold, max_faulty_power, leader_for_view,
}
use hotmint.Types.Validator.Leader.{leader_for_view_total}
use hotmint.Types.Validator.Valid.{IsValid, set_of, try_new_iff}

abbrev pub member : ℕ → ℕ → ValidatorInfo
member id power = record { id = id; public_key = replicate 32 id; power = power }

abbrev pub four_members : List ValidatorInfo
four_members = member 7 10 ∷ member 3 20 ∷ member 9 30 ∷ member 1 40 ∷ []

abbrev pub four : ValidatorSet
four = set_of four_members

four_made : try_new four_members ≡ ok four
unfolding try_new try_from_parts compute_total_power check_members add_powers build_index bytes_eq
four_made = refl

pub four-IsValid : IsValid four
four-IsValid = ((try_new_iff four_members four).0 four_made).0

try_new_iff_example :
    (try_new four_members ≡ ok four) ↔ (IsValid four × (four.validators ≡ four_members))
try_new_iff_example = try_new_iff four_members four

leader_for_view_total_example :
    (v : ValidatorInfo) × (leader_for_view four 135 ≡ some v) × (0 < v.power)
leader_for_view_total_example =
    leader_for_view_total four 135 four-IsValid (λ e. absurd (ground arith))

-- Member 3 leaves and member 7 takes its power.
abbrev leave_and_grow : List ValidatorUpdate
leave_and_grow =
    record { id = 3; public_key = []; power = 0 }
    ∷ record { id = 7; public_key = replicate 32 7; power = 25 }
    ∷ []

abbrev three : ValidatorSet
three = set_of (member 7 25 ∷ member 9 30 ∷ member 1 40 ∷ [])

updated : try_apply_updates four leave_and_grow ≡ ok three
unfolding try_apply_updates apply_all apply_update replace_first info_of bytes_eq try_new
    try_from_parts compute_total_power check_members add_powers build_index
updated = refl

get-try_apply_updates_example :
    IsValid three × (get three 3 ≡ update_members 3 leave_and_grow (get four 3))
get-try_apply_updates_example =
    get-try_apply_updates four three leave_and_grow 3 four-IsValid updated

abbrev pub agg_of : List Bool → AggregateSignature
agg_of fs = record { signers = fs; signatures = [] }

-- Members 9 and 1 reach the threshold of 67, and so do members 3, 7 and 1.
abbrev first_quorum : AggregateSignature
first_quorum = agg_of (false ∷ false ∷ true ∷ true ∷ [])

abbrev second_quorum : AggregateSignature
second_quorum = agg_of (true ∷ true ∷ false ∷ true ∷ [])

abbrev faulty_member : List Bool
faulty_member = false ∷ false ∷ true ∷ []

quorum_intersection_example :
    Shared first_quorum.signers second_quorum.signers faulty_member four_members
unfolding has_quorum add_signed max_faulty_power quorum_threshold
quorum_intersection_example =
    quorum_intersection four first_quorum second_quorum faulty_member four-IsValid refl refl
      (omega arith)

abbrev sig : Bytes
sig = 1 ∷ []

abbrev one_signed : AggregateSignature
one_signed = record { signers = false ∷ true ∷ false ∷ []; signatures = sig ∷ [] }

abbrev two_signed : AggregateSignature
two_signed = record { signers = true ∷ true ∷ false ∷ []; signatures = (2 ∷ []) ∷ sig ∷ [] }
