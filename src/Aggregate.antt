-- ===== src/Aggregate.antt =====
-- crates/hotmint-crypto/src/aggregate.rs: votes into an aggregate signature, and its quorum.
pub mod Intersection
pub mod Votes
use hotmint.Base.{
  leb, length, checked_add, Result, ok, err, ℕ, Bool, true, false, Option, none, some, List, [],
  ◌∷◌,
}
use hotmint.Types.Crypto.{AggregateSignature, AddError, new, add}
use hotmint.Types.Validator.{ValidatorInfo, ValidatorSet, quorum_threshold, index_of}
use hotmint.Types.Vote.{Vote}

pub data AggregateError : Type 0 where
  unknown_validator : (id : ℕ) → AggregateError
  not_added : AddError → AggregateError

abbrev pub added_or_fail :
    Result AddError AggregateSignature → Result AggregateError AggregateSignature
added_or_fail (ok agg) = ok agg
added_or_fail (err e) = err (not_added e)

unfoldable pub aggregate_from :
    ValidatorSet → AggregateSignature → List Vote → Result AggregateError AggregateSignature
aggregate_from vs agg [] = ok agg
aggregate_from vs agg (v ∷ votes) = elim (index_of vs v.validator) [
  | none ↦ err (unknown_validator v.validator)
  | some idx ↦ elim (added_or_fail (add agg idx v.signature)) [
    | err e ↦ err e
    | ok agg' ↦ aggregate_from vs agg' votes
  ]
]

unfoldable pub aggregate_votes : ValidatorSet → List Vote → Result AggregateError AggregateSignature
unfolding aggregate_from
aggregate_votes vs votes = aggregate_from vs (new (length vs.validators)) votes

-- The loop of `has_quorum`: a flag past the last member is skipped, an overflow gives up.
unfoldable pub add_signed : ℕ → List Bool → List ValidatorInfo → Option ℕ
add_signed power [] vs = some power
add_signed power (b ∷ bs) [] = add_signed power bs []
add_signed power (false ∷ bs) (v ∷ vs) = add_signed power bs vs
add_signed power (true ∷ bs) (v ∷ vs) = elim (checked_add power v.power) [
  | none ↦ none
  | some p ↦ add_signed p bs vs
]

unfoldable pub has_quorum : ValidatorSet → AggregateSignature → Bool
unfolding add_signed
has_quorum vs agg = elim (add_signed 0 agg.signers vs.validators) [
  | none ↦ false
  | some power ↦ leb (quorum_threshold vs) power
]
