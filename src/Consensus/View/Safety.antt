-- ===== src/Consensus/View/Safety.antt =====
-- What a replica has checked when it votes for a proposal.
use hotmint.Base.{
  Bool-cases, Option-cases, Result-cases, ℕ, ◌≡◌, refl, sym, ◌∙◌, subst, inl, inr, Bool, true,
  Option, none, some, List, [], ◌∷◌, arith,
}
use hotmint.Base.Bytes.{Bytes}
use hotmint.Consensus.Application.{Application}
use hotmint.Consensus.Commit.{CommitResult, try_commit}
use hotmint.Consensus.State.{ConsensusState, check_and_record_vote, update_highest_qc}
use hotmint.Consensus.Store.{BlockStore}
use hotmint.Consensus.View.{Effect, send_vote, own_vote}
use hotmint.Consensus.View.Checked.{Checked, check_proposal-Checked}
use hotmint.Consensus.View.Checks.{check_proposal}
use hotmint.Consensus.View.Proposal.{
  ProposalData, ProposalResult, EpochContext, nothing, waits_for_proposal, Node, no_blocks,
  after_commit, result_with, cast_vote, first_vote, accept, on_proposal,
}
use hotmint.Consensus.VoteCollector.{empty}
use hotmint.Types.Block.{Block}
use hotmint.Types.Certificate.{QuorumCertificate}
use hotmint.Types.Vote.{VoteType, vote, vote2, Vote}

-- The first vote among the effects.
abbrev pub sent_vote : List Effect → Option Vote
sent_vote [] = none
sent_vote (send_vote to v ∷ es) = some v
sent_vote (_ ∷ es) = sent_vote es

-- A first-phase vote of the state's validator, for a block at its view.
pub record IsOwnVote (s : ConsensusState) (b : Block) (v : Vote) : Type 0 where
  pub own : v.validator ≡ s.validator_id
  pub at_view : v.view ≡ s.current_view
  pub for_block : v.block_hash ≡ b.hash
  pub first_phase : v.vote_type ≡ vote

check_and_record_vote-fields :
    (s : ConsensusState) (kind : VoteType) (view block_hash : ℕ)
    → let s' = (check_and_record_vote s kind view block_hash).0 in
      (s'.validator_id ≡ s.validator_id) × (s'.current_view ≡ s.current_view)
unfolding check_and_record_vote
check_and_record_vote-fields s vote view block_hash = (refl, refl)
check_and_record_vote-fields s vote2 view block_hash = (refl, refl)

own_before :
    {s' : ConsensusState} (s : ConsensusState) (b : Block) (v : Vote)
    → (s'.validator_id ≡ s.validator_id) × (s'.current_view ≡ s.current_view)
    → IsOwnVote s' b v
    → IsOwnVote s b v
own_before s b v (id, view) o = record {
  own = o.own ∙ id;
  at_view = o.at_view ∙ view;
  for_block = o.for_block;
  first_phase = o.first_phase;
}

after_commit-own :
    (s : ConsensusState) (b : Block) (v : Vote) (h : ℕ) (r : CommitResult)
    → IsOwnVote (after_commit s h r) b v
    → IsOwnVote s b v
after_commit-own s b v h r o = elim (Bool-cases (no_blocks r.committed_blocks)) [
  | inl empty ↦ own_before s b v (rw empty (refl, refl)) o
  | inr some_blocks ↦ own_before s b v (rw some_blocks (refl, refl)) o
]

update_highest_qc-own :
    (s : ConsensusState) (b : Block) (v : Vote) (qc : QuorumCertificate)
    → IsOwnVote (update_highest_qc s qc) b v
    → IsOwnVote s b v
unfolding update_highest_qc
update_highest_qc-own s b v qc o = own_before s b v (refl, refl) o

module _ (bs : BlockStore) (app : Application) (blake3 sign : Bytes → Bytes)
    (verify : Bytes → Bytes → Bytes → Bool) (persistent : Bool) where
  open bs use {Store}
  open app use {AppState, tracks_app_hash}

  -- What a vote that `first_vote` sends tells.
  record Voted (n : Node Store AppState) (b : Block) (v : Vote) : Type 0 where
    own : IsOwnVote n.state b v
    allowed : (check_and_record_vote n.state vote n.state.current_view b.hash).1 ≡ true
    rooted : tracks_app_hash ≡ true → b.app_hash ≡ n.state.last_app_hash

  cast_vote-vote :
      (n : Node Store AppState) (b : Block) (r : ProposalResult) (v : Vote)
      → sent_vote (cast_vote bs app blake3 sign verify persistent n b r).effects ≡ some v
      → IsOwnVote n.state b v
  unfolding cast_vote own_vote
  cast_vote-vote n b r v e =
      let own : v ≡ own_vote blake3 sign n.state b.hash vote none = elim (Bool-cases persistent) [
        | inl on ↦ ground arith
        | inr off ↦ ground arith
      ] in
      subst (λ w. IsOwnVote n.state b w) (sym own)
        (record { own = refl; at_view = refl; for_block = refl; first_phase = refl })

  first_vote-Voted :
      (n : Node Store AppState) (b : Block) (r : ProposalResult) (v : Vote)
      → sent_vote (first_vote bs app blake3 sign verify persistent n b r).effects ≡ some v
      → Voted n b v
  unfolding first_vote
  first_vote-Voted n b r v e =
      let s = n.state in
      let s' = (check_and_record_vote s vote s.current_view b.hash).0 in
      let n' : Node Store AppState = record n { state = s' } in
      let allowed : (check_and_record_vote s vote s.current_view b.hash).1 ≡ true = ground arith in
      let cast : sent_vote (cast_vote bs app blake3 sign verify persistent n' b r).effects
          ≡ some v =
        ground arith in
      let own = cast_vote-vote n' b r v cast in
      record {
        own = own_before s b v (check_and_record_vote-fields s vote s.current_view b.hash) own;
        allowed = allowed;
        rooted = λ tracks. ground arith;
      }

  first_vote-app_hash :
      (n : Node Store AppState) (b : Block) (r : ProposalResult)
      → (first_vote bs app blake3 sign verify persistent n b r).after.state.last_app_hash
        ≡ n.state.last_app_hash
  unfolding first_vote cast_vote check_and_record_vote
  first_vote-app_hash n b r = ground arith

  accept-Voted :
      (n : Node Store AppState) (p : ProposalData) (e : EpochContext) (v : Vote)
      → sent_vote (accept bs app blake3 sign verify persistent n p e).effects ≡ some v
      → IsOwnVote n.state p.block v
        × (tracks_app_hash ≡ true
            → p.block.app_hash
              ≡ (accept bs app blake3 sign verify persistent n p e).after.state.last_app_hash)
  unfolding accept
  accept-Voted n p e v h = elim (Option-cases p.double_cert) [
    | inl no_cert ↦
        let cast : sent_vote
              (first_vote bs app blake3 sign verify persistent n p.block nothing).effects
            ≡ some v =
          ground arith in
        let voted = first_vote-Voted n p.block nothing v cast in
        (
          voted.own,
          λ tracks.
              rw (accept, no_cert)
                (voted.rooted tracks ∙ sym (first_vote-app_hash n p.block nothing)),
        )
    | inr (dc, present) ↦
        let s = n.state in
        let run =
          try_commit app (bs.get_block n.store) (bs.get_block_by_height n.store) dc n.app_state
            s.last_committed_height s.current_epoch e.previous_epoch e.in_flight_pending in
        elim (Result-cases run.1) [
          | inr (x, failed) ↦ absurd (ground arith)
          | inl (result, committed) ↦
              let n' : Node Store AppState = record n {
                state = after_commit s run.0.1 result;
                app_state = run.0.0;
              } in
              let cast : sent_vote
                    (first_vote bs app blake3 sign verify persistent n' p.block
                      (result_with result)).effects
                  ≡ some v =
                ground arith in
              let voted = first_vote-Voted n' p.block (result_with result) v cast in
              (
                after_commit-own s p.block v run.0.1 result voted.own,
                λ tracks.
                    rw (accept, present, committed)
                      (voted.rooted tracks
                        ∙ sym (first_vote-app_hash n' p.block (result_with result))),
              )
        ]
  ]

  -- A replica sends a vote for a proposal only while it waits for one, after every check has passed:
  -- the certificate against the lock, the leader, the hash, the parent, the height, the three tests
  -- of the timestamp, `validate_evidence` of every piece of evidence and the application's own test. The vote is its own, for the block and at its view, and where the application tracks its state
  -- the block carries the state's hash after the commit.
  pub on_proposal-Checked :
      (n : Node Store AppState) (p : ProposalData) (now : ℕ) (e : EpochContext) (v : Vote)
      → sent_vote (on_proposal bs app blake3 sign verify persistent n p now e).effects ≡ some v
      → (waits_for_proposal n.state.step ≡ true)
        × Checked blake3 verify app
            (bs.get_block n.store)
            n.state
            n.app_state
            p.block
            p.justify
            now
            e.previous_epoch
        × IsOwnVote n.state p.block v
        × (tracks_app_hash ≡ true
            → p.block.app_hash
              ≡ (on_proposal bs app blake3 sign verify persistent n p now
                  e).after.state.last_app_hash)
  unfolding on_proposal
  on_proposal-Checked n p now e v h =
      let waits : waits_for_proposal n.state.step ≡ true = ground arith in
      elim (Result-cases (
        check_proposal blake3 verify app (bs.get_block n.store) n.state n.app_state p.block
          p.justify now e.previous_epoch)) [
            | inr (x, refused) ↦ absurd (ground arith)
            | inl (_, passed) ↦
                let n' : Node Store AppState = record n {
                  store = bs.put_block n.store p.block;
                  state = update_highest_qc n.state p.justify;
                } in
                let cast : sent_vote (accept bs app blake3 sign verify persistent n' p e).effects
                    ≡ some v =
                  ground arith in
                let voted = accept-Voted n' p e v cast in
                (
                  waits,
                  check_proposal-Checked blake3 verify app (bs.get_block n.store) n.state
                      n.app_state p.block p.justify now e.previous_epoch passed,
                  update_highest_qc-own n.state p.block v p.justify voted.0,
                  rw (on_proposal, waits, passed) voted.1,
                )
          ]
