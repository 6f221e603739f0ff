-- ===== src/Consensus/VoteCollector.antt =====
-- crates/hotmint-consensus/src/vote_collector.rs: the votes that a leader gathers.
-- The map is an association list: its order stands for the hash map's, which the code does not fix.
pub mod Buckets
pub mod Equivocation
pub mod Certify
pub mod Accept
use mathlib.Core.Option
use hotmint.Base.Map
use hotmint.Base.{
  leb, ◌==◌, if◌then◌else◌, is_some, any, find, filter_map, Result, ok, err, ℕ, ◌≡◌, ◌↔◌, Bool,
  true, not, ◌&&◌, Option, none, some, List, [], ◌∷◌, ◌++◌, arith,
}
use hotmint.Aggregate.{AggregateError, aggregate_votes, has_quorum}
use hotmint.Base.Bytes.{Bytes}
use hotmint.Base.Map.{Eq, retain_keys, nat_eq, text_eq}
use hotmint.Types.Certificate.{QuorumCertificate}
use hotmint.Types.Crypto.{AggregateSignature}
use hotmint.Types.Evidence.{EquivocationProof}
use hotmint.Types.Validator.{get, ValidatorSet}
use hotmint.Types.Vote.{VoteType, vote, vote_type_eq, vote_type_eq_iff, Vote}

pub record VoteKey : Type 0 where
  pub epoch : ℕ
  pub view : ℕ
  pub block_hash : ℕ
  pub vote_type : VoteType

abbrev pub key_eq : VoteKey → VoteKey → Bool
key_eq a b =
    a.epoch == b.epoch
    && (a.view == b.view && (a.block_hash == b.block_hash && vote_type_eq a.vote_type b.vote_type))

pub key_eq_iff : (a b : VoteKey) → (key_eq a b ≡ true) ↔ (a ≡ b)
key_eq_iff a b = ground (arith, vote_type_eq_iff a.vote_type b.vote_type)

instance abbrev pub vote_key_eq : Eq VoteKey
vote_key_eq = record { beq = key_eq; beq_iff = key_eq_iff }

pub record VoteCollector : Type 0 where
  pub votes : List (VoteKey × List Vote)

pub record VoteResult : Type 0 where
  pub qc : Option QuorumCertificate
  pub equivocation : Option EquivocationProof
  pub extensions : List (ℕ × Bytes)

pub data CollectError : Type 0 where
  epoch_mismatch : CollectError
  unexpected_extension : CollectError
  unknown_voter : (id : ℕ) → CollectError
  not_aggregated : AggregateError → CollectError

unfoldable pub empty : VoteCollector
empty = record { votes = [] }

abbrev pub key_of : ℕ → Vote → VoteKey
key_of epoch v = record {
  epoch = epoch;
  view = v.view;
  block_hash = v.block_hash;
  vote_type = v.vote_type;
}

abbrev pub by_validator : ℕ → Vote → Bool
by_validator id v = v.validator == id

unfoldable pub proof_of : ℕ → Vote → Vote → EquivocationProof
proof_of epoch existing v = record {
  validator = v.validator;
  view = v.view;
  vote_type = v.vote_type;
  epoch = epoch;
  block_hash_a = existing.block_hash;
  signature_a = existing.signature;
  extension_a = existing.extension;
  block_hash_b = v.block_hash;
  signature_b = v.signature;
  extension_b = v.extension;
}

-- The bucket is of the vote's epoch, view and type, and of another block.
abbrev pub rivals : ℕ → Vote → VoteKey → Bool
rivals epoch v k =
    k.epoch == epoch
    && (k.view == v.view
        && (vote_type_eq k.vote_type v.vote_type && not (k.block_hash == v.block_hash)))

-- The loop that looks for an earlier vote for another block, up to its `break`.
unfoldable pub find_equivocation : ℕ → Vote → List (VoteKey × List Vote) → Option EquivocationProof
unfolding proof_of
find_equivocation epoch v [] = none
find_equivocation epoch v ((k, existing) ∷ m) =
    let rest = find_equivocation epoch v m in
    if rivals epoch v k
    then elim (find (by_validator v.validator) existing) [
      | none ↦ rest
      | some ev ↦ some (proof_of epoch ev v)
    ]
    else rest

-- `entry(key).or_default()`
abbrev pub bucket : VoteKey → List (VoteKey × List Vote) → List Vote
bucket k m = elim (Map.get k m) [ none ↦ [] | some vs ↦ vs ]

abbrev pub extensions_of : List Vote → List (ℕ × Bytes)
extensions_of =
    filter_map λ (v : Vote). elim v.extension [ none ↦ none | some ext ↦ some (v.validator, ext) ]

-- The certificate of a bucket whose aggregate has a quorum, with the extensions of its votes.
unfoldable pub certify :
    ValidatorSet → VoteKey → List Vote → AggregateSignature → Option EquivocationProof → VoteResult
certify vs k votes agg equivocation =
    if has_quorum vs agg
    then record {
      qc = some (record {
        block_hash = k.block_hash;
        view = k.view;
        aggregate_signature = agg;
        epoch = k.epoch;
      });
      equivocation = equivocation;
      extensions = extensions_of votes;
    }
    else record { qc = none; equivocation = equivocation; extensions = [] }

unfoldable pub collect_result :
    ValidatorSet → VoteKey → List Vote → Option EquivocationProof → Result CollectError VoteResult
unfolding certify
collect_result vs k votes equivocation = elim (aggregate_votes vs votes) [
  | err e ↦ err (not_aggregated e)
  | ok agg ↦ ok (certify vs k votes agg equivocation)
]

-- The part of `add_vote` after the search for an equivocation. The empty bucket that `entry` makes
-- stays also where the vote is not kept, and a vote stays that cannot be aggregated.
unfoldable pub file_vote :
    VoteCollector
    → ValidatorSet
    → Vote
    → VoteKey
    → Option EquivocationProof
    → VoteCollector × Result CollectError VoteResult
unfolding collect_result
file_vote c vs v k equivocation =
    let votes = bucket k c.votes in
    let touched : VoteCollector = record { votes = Map.insert k votes c.votes } in
    if any (by_validator v.validator) votes
    then (touched, ok (record { qc = none; equivocation = equivocation; extensions = [] }))
    else if is_some (get vs v.validator)
    then (
      record { votes = Map.insert k (votes ++ v ∷ []) c.votes },
      collect_result vs k (votes ++ v ∷ []) equivocation,
    )
    else (touched, err (unknown_voter v.validator))

unfoldable pub add_vote :
    VoteCollector → ValidatorSet → Vote → ℕ → VoteCollector × Result CollectError VoteResult
unfolding file_vote find_equivocation
add_vote c vs v epoch =
    if not (v.epoch == epoch)
    then (c, err epoch_mismatch)
    else if vote_type_eq v.vote_type vote && is_some v.extension
    then (c, err unexpected_extension)
    else file_vote c vs v (key_of epoch v) (find_equivocation epoch v c.votes)

unfoldable pub clear_view : VoteCollector → ℕ → VoteCollector
clear_view c view = record { votes = Map.retain_keys (λ k. not (k.view == view)) c.votes }

unfoldable pub prune_before : VoteCollector → ℕ → VoteCollector
prune_before c min_view = record { votes = Map.retain_keys (λ k. leb min_view k.view) c.votes }
