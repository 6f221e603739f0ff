-- ===== src/Consensus/Pacemaker.antt =====
-- crates/hotmint-consensus/src/pacemaker.rs: the wishes for a view and the timeout certificate.
pub mod Wishes
pub mod Timeout
use hotmint.Base.Map
use hotmint.Base.{
  leb, ◌==◌, if◌then◌else◌, length, set, replicate, any, checked_add, ok, err, ℕ, ◌-◌, Bool, true,
  false, Option, none, some, List, [], ◌∷◌, ◌++◌,
}
use hotmint.Base.Bytes.{Bytes}
use hotmint.Base.Map.{retain_keys, nat_eq, text_eq}
use hotmint.Consensus.VoteCollector.{vote_key_eq}
use hotmint.Types.Certificate.{QuorumCertificate, TimeoutCertificate}
use hotmint.Types.Crypto.{AggregateSignature, new, add}
use hotmint.Types.Validator.{get, ValidatorSet, quorum_threshold, index_of, power_of}

-- One entry of `wishes`.
pub record Wish : Type 0 where
  pub validator : ℕ
  pub highest_qc : Option QuorumCertificate
  pub signature : Bytes

-- `Pacemaker` without its timer.
pub record Pacemaker : Type 0 where
  pub wishes : List (ℕ × List Wish)
  pub relayed_tcs : List (ℕ × Bool)

abbrev pub wished_by : ℕ → Wish → Bool
wished_by id w = w.validator == id

abbrev pub wishes_for : ℕ → List (ℕ × List Wish) → List Wish
wishes_for view m = elim (Map.get view m) [ none ↦ [] | some ws ↦ ws ]

-- The quorum count; an overflow gives up.
unfoldable pub wish_power : ValidatorSet → ℕ → List Wish → Option ℕ
wish_power vs power [] = some power
wish_power vs power (w ∷ ws) =
    if power_of vs w.validator == 0
    then wish_power vs power ws
    else elim (checked_add power (power_of vs w.validator)) [
      | none ↦ none
      | some p ↦ wish_power vs p ws
    ]

-- `let _ = agg.add(…)`: an error leaves the aggregate.
abbrev pub try_add : AggregateSignature → ℕ → Bytes → AggregateSignature
try_add agg i s = elim (add agg i s) [ ok agg' ↦ agg' | err e ↦ agg ]

unfoldable pub gather :
    ValidatorSet
    → List Wish
    → AggregateSignature
    → List (Option QuorumCertificate)
    → AggregateSignature × List (Option QuorumCertificate)
gather vs [] agg qcs = (agg, qcs)
gather vs (w ∷ ws) agg qcs = elim (index_of vs w.validator) [
  | none ↦ gather vs ws agg qcs
  | some i ↦ gather vs ws (try_add agg i w.signature) (set qcs i w.highest_qc)
]

unfoldable pub timeout_of : ValidatorSet → (target_view : ℕ) → List Wish → TimeoutCertificate
unfolding gather
timeout_of vs target_view ws =
    let n = length vs.validators in
    let (agg, qcs) = gather vs ws (new n) (replicate n none) in
    record { view = target_view - 1; aggregate_signature = agg; highest_qcs = qcs }

unfoldable pub add_wish :
    Pacemaker → ValidatorSet → (target_view : ℕ) → Wish → Pacemaker × Option TimeoutCertificate
unfolding wish_power timeout_of
add_wish p vs target_view w =
    let old = wishes_for target_view p.wishes in
    let touched : Pacemaker = record p { wishes = Map.insert target_view old p.wishes } in
    if any (wished_by w.validator) old
    then (touched, none)
    else (let ws = old ++ w ∷ [] in
        let left : Pacemaker = record p { wishes = Map.insert target_view ws p.wishes } in
        elim (wish_power vs 0 ws) [
          | none ↦ (left, none)
          | some power ↦
              if leb (quorum_threshold vs) power
              then (left, some (timeout_of vs target_view ws))
              else (left, none)
        ])

unfoldable pub should_relay_tc : Pacemaker → TimeoutCertificate → Pacemaker × Bool
should_relay_tc p tc = elim (Map.get tc.view p.relayed_tcs) [
  | none ↦ (record p { relayed_tcs = Map.insert tc.view true p.relayed_tcs }, true)
  | some _ ↦ (p, false)
]

unfoldable pub forget_view : Pacemaker → ℕ → Pacemaker
forget_view p view = record p { wishes = Map.remove view p.wishes }

unfoldable pub prune_wishes : Pacemaker → (min_view : ℕ) → Pacemaker
prune_wishes p min_view = record p {
  wishes = Map.retain_keys (λ v. leb min_view v) p.wishes;
  relayed_tcs = Map.retain_keys (λ v. leb min_view v) p.relayed_tcs;
}
