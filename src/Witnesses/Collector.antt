-- ===== src/Witnesses/Collector.antt =====
-- The theorems on the vote collector, at a few votes of the set of four.
use hotmint.Base.Map
use hotmint.Base.{
  is_some, length, get_elem?, any, All, ok, ℕ, ◌≤◌, ◌≡◌, refl, subst, ◌↔◌, true, false, none, some,
  List, [], ◌∷◌,
}
use hotmint.Aggregate.{aggregate_from, aggregate_votes, add_signed, has_quorum}
use hotmint.Aggregate.Intersection.{flagged}
use hotmint.Aggregate.Votes.{voted, aggregate_votes_lem}
use hotmint.Base.Map.{nat_eq, text_eq}
use hotmint.Consensus.VoteCollector.{
  VoteCollector, VoteResult, empty, key_of, by_validator, find_equivocation, bucket, certify,
  collect_result, file_vote, add_vote, vote_key_eq,
}
use hotmint.Consensus.VoteCollector.Accept.{IsKnown, add_vote_accepts}
use hotmint.Consensus.VoteCollector.Buckets.{IsWellFormed, add_vote-IsWellFormed}
use hotmint.Consensus.VoteCollector.Certify.{voted_power, Certifies, add_vote-Certifies}
use hotmint.Staking.Store.{stake_key_eq}
use hotmint.Types.Certificate.{QuorumCertificate}
use hotmint.Types.Crypto.{AggregateSignature, new, insert_at, add, IsAligned}
use hotmint.Types.Validator.{
  get, ValidatorInfo, index_from, build_index, quorum_threshold, index_of,
}
use hotmint.Types.Vote.{vote, Vote}
use hotmint.Witnesses.Validators.{four_members, four, four-IsValid}

abbrev vote_of : ℕ → ℕ → Vote
vote_of id block_hash = record {
  epoch = 1;
  block_hash = block_hash;
  view = 5;
  validator = id;
  signature = id ∷ [];
  vote_type = vote;
  extension = none;
}

-- Member 9 has voted.
abbrev one_vote : VoteCollector
one_vote = record { votes = (key_of 1 (vote_of 9 100), vote_of 9 100 ∷ []) ∷ [] }

empty-IsWellFormed : IsWellFormed empty
unfolding empty
empty-IsWellFormed = tt

add_vote-IsWellFormed_example : IsWellFormed (add_vote empty four (vote_of 9 100) 1).0
add_vote-IsWellFormed_example =
    add_vote-IsWellFormed empty four (vote_of 9 100) 1 empty-IsWellFormed

one_vote_made : (add_vote empty four (vote_of 9 100) 1).0 ≡ one_vote
unfolding add_vote file_vote find_equivocation collect_result empty index_of Map.get get build_index
    index_from Map.insert
one_vote_made = refl

one_vote-IsWellFormed : IsWellFormed one_vote
one_vote-IsWellFormed =
    subst IsWellFormed one_vote_made
      (add_vote-IsWellFormed empty four (vote_of 9 100) 1 empty-IsWellFormed)

-- With the vote of member 1 the threshold is met.
abbrev certificate : VoteResult
certificate = record {
  qc = some (record {
    block_hash = 100;
    view = 5;
    aggregate_signature = record {
      signers = false ∷ false ∷ true ∷ true ∷ [];
      signatures = (9 ∷ []) ∷ (1 ∷ []) ∷ [];
    };
    epoch = 1;
  });
  equivocation = none;
  extensions = [];
}

certified : (add_vote one_vote four (vote_of 1 100) 1).1 ≡ ok certificate
unfolding add_vote file_vote find_equivocation collect_result certify aggregate_votes aggregate_from
    new add insert_at has_quorum add_signed index_of quorum_threshold Map.get get build_index
    index_from Map.insert
certified = refl

add_vote-Certifies_example :
    ((is_some certificate.qc ≡ true) ↔ (
      (any (by_validator 1) (bucket (key_of 1 (vote_of 1 100)) one_vote.votes) ≡ false)
      × (quorum_threshold four
          ≤ voted_power
              (bucket (key_of 1 (vote_of 1 100)) (add_vote one_vote four (vote_of 1 100) 1).0.votes)
              four_members)))
    × ((qc : QuorumCertificate)
        → certificate.qc ≡ some qc
        → Certifies four
            (vote_of 1 100)
            1
            (bucket (key_of 1 (vote_of 1 100)) (add_vote one_vote four (vote_of 1 100) 1).0.votes)
            qc)
add_vote-Certifies_example =
    add_vote-Certifies one_vote four (vote_of 1 100) 1 certificate four-IsValid certified

-- Member 9 votes for a second block at the view.
abbrev caught : VoteResult
caught = record {
  qc = none;
  equivocation = find_equivocation 1 (vote_of 9 200) one_vote.votes;
  extensions = [];
}

add_vote_accepts_example :
    ((r : VoteResult) × ((add_vote one_vote four (vote_of 1 100) 1).1 ≡ ok r))
    × All
        (IsKnown four)
        (bucket (key_of 1 (vote_of 1 100)) (add_vote one_vote four (vote_of 1 100) 1).0.votes)
unfolding index_of Map.get get build_index index_from Map.insert
add_vote_accepts_example =
    add_vote_accepts one_vote four (vote_of 1 100) 1 four-IsValid one_vote-IsWellFormed (refl, tt)
      refl refl (λ _. refl)

abbrev two_votes : List Vote
two_votes = vote_of 9 100 ∷ vote_of 1 100 ∷ []

abbrev of_two : AggregateSignature
of_two = record {
  signers = false ∷ false ∷ true ∷ true ∷ [];
  signatures = (9 ∷ []) ∷ (1 ∷ []) ∷ [];
}

aggregate_votes_lem_example :
    IsAligned of_two
    × (length of_two.signers ≡ length four_members)
    × ((i : ℕ) (w : ValidatorInfo)
        → get_elem? four_members i ≡ some w
        → flagged of_two.signers i ≡ voted w.id two_votes)
unfolding aggregate_votes aggregate_from new add insert_at index_of Map.get build_index index_from
    Map.insert
aggregate_votes_lem_example = aggregate_votes_lem four two_votes of_two four-IsValid refl
