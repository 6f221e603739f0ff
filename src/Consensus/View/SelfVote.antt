-- ===== src/Consensus/View/SelfVote.antt =====
-- crates/hotmint-consensus/src/engine.rs: the votes of a leader for its own block.
pub mod Moves
use hotmint.Base.{◌==◌, if◌then◌else◌, ok, err, ℕ, Bool, Option, none, some, List, [], ◌∷◌, ◌++◌}
use hotmint.Base.Bytes.{Bytes}
use hotmint.Consensus.State.{ConsensusState, check_and_record_vote, update_locked_qc}
use hotmint.Consensus.View.{panicked, Effect, send_vote, Reply, next_leader, saved, own_vote}
use hotmint.Consensus.View.Prepare.{on_votes_collected}
use hotmint.Types.Certificate.{QuorumCertificate}
use hotmint.Types.Vote.{vote, vote2, Vote}

module _ (blake3 sign : Bytes → Bytes) where
  -- `leader_self_vote`, up to the collector, which takes the vote that is handed back.
  unfoldable pub leader_self_vote :
      ConsensusState → (block_hash : ℕ) → Bool → Reply ConsensusState (Option (ℕ × Vote))
  unfolding own_vote
  leader_self_vote s block_hash persistent =
      let (s', may_sign) = check_and_record_vote s vote s.current_view block_hash in
      if may_sign
      then record {
        after = s';
        effects = saved persistent vote s.current_view block_hash;
        result = ok (some (s.validator_id, own_vote blake3 sign s' block_hash vote none));
      }
      else record { after = s'; effects = []; result = ok none }

  -- The vote goes to the next leader, which may be the node itself.
  unfoldable pub route_vote2 :
      ConsensusState
      → QuorumCertificate
      → Vote
      → List Effect
      → Reply ConsensusState (Option (ℕ × Vote))
  route_vote2 s qc v disk = elim (next_leader s.validator_set s.current_view) [
    | none ↦ record { after = update_locked_qc s qc; effects = disk; result = err panicked }
    | some l ↦
        if l == s.validator_id
        then record { after = update_locked_qc s qc; effects = disk; result = ok (some (l, v)) }
        else record {
          after = update_locked_qc s qc;
          effects = disk ++ send_vote l v ∷ [];
          result = ok none;
        }
  ]

  -- The second vote of the leader, once it has broadcast the certificate.
  unfoldable pub self_vote2 :
      ConsensusState
      → QuorumCertificate
      → Option Bytes
      → Bool
      → Reply ConsensusState (Option (ℕ × Vote))
  unfolding own_vote route_vote2
  self_vote2 s qc ext persistent =
      let (s', may_sign) = check_and_record_vote s vote2 s.current_view qc.block_hash in
      if may_sign
      then route_vote2 s' qc (own_vote blake3 sign s' qc.block_hash vote2 ext)
          (saved persistent vote2 s.current_view qc.block_hash)
      else record { after = s'; effects = []; result = ok none }

  -- `on_qc_formed`: `ext` is what the application adds to the vote. A vote that the node collects
  -- itself is handed back.
  unfoldable pub on_qc_formed :
      ConsensusState
      → QuorumCertificate
      → Option Bytes
      → Bool
      → Reply ConsensusState (Option (ℕ × Vote))
  unfolding on_votes_collected self_vote2
  on_qc_formed s qc ext persistent =
      let sent = on_votes_collected blake3 sign s qc in
      let voted = self_vote2 sent.after qc ext persistent in
      record voted { effects = sent.effects ++ voted.effects }
