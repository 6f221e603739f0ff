-- ===== src/Consensus/View/Prepare.antt =====
-- `on_votes_collected` and `on_prepare`.
use hotmint.Base.{ltb, if◌then◌else◌, ok, err, ℕ, Bool, true, false, Option, none, some, [], ◌∷◌}
use hotmint.Base.Bytes.{Bytes}
use hotmint.Consensus.State.{
  ViewStep, voted_once, prepared, sent_vote2, ConsensusState, check_and_record_vote,
  update_highest_qc, update_locked_qc,
}
use hotmint.Consensus.View.{panicked, broadcast_prepare, Reply, next_leader, saved, own_vote}
use hotmint.Consensus.View.Messages.{prepare_signing_bytes}
use hotmint.Types.Certificate.{QuorumCertificate}
use hotmint.Types.Validator.{power_of}
use hotmint.Types.Vote.{vote2, Vote}

abbrev pub has_voted : ViewStep → Bool
has_voted voted_once = true
has_voted _ = false

module _ (blake3 sign : Bytes → Bytes) where
  unfoldable pub on_votes_collected :
      ConsensusState → QuorumCertificate → Reply ConsensusState (Unit {0})
  on_votes_collected s qc = record {
    after = record (update_highest_qc s qc) { step = prepared };
    effects =
        broadcast_prepare qc
          (sign (prepare_signing_bytes s.chain_id_hash s.current_epoch.number qc))
        ∷ [];
    result = ok tt;
  }

  -- The second vote, once the guard has let it through.
  unfoldable pub hand_out :
      ConsensusState
      → QuorumCertificate
      → Option Bytes
      → Bool
      → Reply ConsensusState (Option (ℕ × Vote))
  unfolding next_leader own_vote
  hand_out s qc ext persistent =
      let disk = saved persistent vote2 s.current_view qc.block_hash in
      elim (next_leader s.validator_set s.current_view) [
        | none ↦ record { after = s; effects = disk; result = err panicked }
        | some l ↦ record {
          after = record s { step = sent_vote2 };
          effects = disk;
          result = ok (some (l, own_vote blake3 sign s qc.block_hash vote2 ext));
        }
      ]

  abbrev pub no_vote2 : ConsensusState → Reply ConsensusState (Option (ℕ × Vote))
  no_vote2 s = record { after = record s { step = sent_vote2 }; effects = []; result = ok none }

  unfoldable pub second_vote :
      ConsensusState
      → QuorumCertificate
      → Option Bytes
      → Bool
      → Reply ConsensusState (Option (ℕ × Vote))
  unfolding hand_out
  second_vote s qc ext persistent =
      if ltb 0 (power_of s.validator_set s.validator_id)
      then (let (s', may_sign) = check_and_record_vote s vote2 s.current_view qc.block_hash in
          if may_sign then hand_out s' qc ext persistent else no_vote2 s')
      else no_vote2 s

  -- Only after the first vote; otherwise the message is ignored.
  unfoldable pub on_prepare :
      ConsensusState
      → QuorumCertificate
      → Option Bytes
      → Bool
      → Reply ConsensusState (Option (ℕ × Vote))
  unfolding second_vote
  on_prepare s qc ext persistent =
      if has_voted s.step
      then second_vote (update_highest_qc (update_locked_qc s qc) qc) qc ext persistent
      else record { after = s; effects = []; result = ok none }
