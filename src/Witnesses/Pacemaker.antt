-- ===== src/Witnesses/Pacemaker.antt =====
-- The theorems on timeout certificates, at the set of four.
use hotmint.Base.Map
use hotmint.Base.{get_elem?, any, ℕ, ◌≡◌, refl, true, none, some, [], ◌∷◌, ◌++◌}
use hotmint.Aggregate.{has_quorum}
use hotmint.Aggregate.Intersection.{flagged}
use hotmint.Base.Map.{nat_eq, text_eq}
use hotmint.Consensus.Pacemaker.{
  Wish, Pacemaker, wished_by, wishes_for, wish_power, timeout_of, add_wish,
}
use hotmint.Consensus.Pacemaker.Timeout.{add_wish_lem}
use hotmint.Consensus.VoteCollector.{vote_key_eq}
use hotmint.Staking.Store.{stake_key_eq}
use hotmint.Types.Validator.{
  get, ValidatorInfo, index_from, build_index, quorum_threshold, index_of, power_of,
}
use hotmint.Witnesses.Validators.{four_members, four, four-IsValid}

abbrev wish_of : ℕ → Wish
wish_of id = record { validator = id; highest_qc = none; signature = id ∷ [] }

-- Member 9 has wished for view 6.
abbrev one_wish : Pacemaker
one_wish = record { wishes = (6, wish_of 9 ∷ []) ∷ []; relayed_tcs = [] }

completed :
    (add_wish one_wish four 6 (wish_of 1)).1 ≡ some (timeout_of four 6 (wish_of 9 ∷ wish_of 1 ∷ []))
unfolding add_wish wish_power power_of get index_of build_index index_from Map.get Map.insert
    quorum_threshold
completed = refl

add_wish_lem_example :
    ((timeout_of four 6 (wish_of 9 ∷ wish_of 1 ∷ [])).view ≡ 5)
    × ((i : ℕ) (v : ValidatorInfo)
        → get_elem? four_members i ≡ some v
        → flagged (timeout_of four 6 (wish_of 9 ∷ wish_of 1 ∷ [])).aggregate_signature.signers i
          ≡ any (wished_by v.id) (wishes_for 6 one_wish.wishes ++ wish_of 1 ∷ []))
    × (has_quorum four (timeout_of four 6 (wish_of 9 ∷ wish_of 1 ∷ [])).aggregate_signature ≡ true)
add_wish_lem_example =
    add_wish_lem one_wish four 6 (wish_of 1) (timeout_of four 6 (wish_of 9 ∷ wish_of 1 ∷ []))
      four-IsValid ((refl, tt), tt) completed
