-- ===== src/Consensus/View/Entry.antt =====
-- `enter_view`.
use hotmint.Base.{
  ltb, leb, if◌then◌else◌, ok, err, ℕ, Bool, true, false, not, ◌&&◌, none, some, [], ◌∷◌,
}
use hotmint.Base.Bytes.{Bytes}
use hotmint.Consensus.State.{
  leader, replica, entered, waiting_for_status, waiting_for_proposal, ConsensusState,
  update_highest_qc,
}
use hotmint.Consensus.View.{panicked, Effect, send_status, Reply, is_leader}
use hotmint.Consensus.View.Messages.{status_signing_bytes}
use hotmint.Types.Certificate.{DoubleCertificate, TimeoutCertificate, highest_qc}
use hotmint.Types.Validator.{leader_for_view, power_of}

pub data ViewEntryTrigger : Type 0 where
  from_double_cert : DoubleCertificate → ViewEntryTrigger
  from_timeout_cert : TimeoutCertificate → ViewEntryTrigger
  from_genesis : ViewEntryTrigger

abbrev pub is_genesis : ViewEntryTrigger → Bool
is_genesis from_genesis = true
is_genesis _ = false

module _ (sign : Bytes → Bytes) where
  unfoldable pub status_message : ConsensusState → (view leader_id : ℕ) → Effect
  unfolding status_signing_bytes
  status_message s view leader_id = send_status leader_id s.locked_qc s.validator_id (
      sign (
        status_signing_bytes s.chain_id_hash s.current_epoch.number view s.validator_id
          s.locked_qc))

  -- The end of both certificate triggers: a member that does not lead sends its status.
  unfoldable pub await : ConsensusState → (view : ℕ) → Bool → Reply ConsensusState (Unit {0})
  unfolding status_message
  await s view true = record {
    after = record s { step = waiting_for_status };
    effects = [];
    result = ok tt;
  }
  await s view false =
      if ltb 0 (power_of s.validator_set s.validator_id)
      then elim (leader_for_view s.validator_set view) [
        | none ↦ record { after = s; effects = []; result = err panicked }
        | some l ↦ record {
          after = record s { step = waiting_for_proposal };
          effects = status_message s view l.id ∷ [];
          result = ok tt;
        }
      ]
      else record { after = record s { step = waiting_for_proposal }; effects = []; result = ok tt }

  -- The state at the view, before its trigger is looked at.
  unfoldable pub at_view : ConsensusState → ℕ → ConsensusState
  at_view s view = record s {
    current_view = view;
    step = entered;
    role = if is_leader s.validator_set view s.validator_id then leader else replica;
  }

  unfoldable pub triggered :
      ConsensusState → (view : ℕ) → Bool → ViewEntryTrigger → Reply ConsensusState (Unit {0})
  unfolding await
  triggered s view am_leader from_genesis = record {
    after = record s { step = if am_leader then waiting_for_status else waiting_for_proposal };
    effects = [];
    result = ok tt;
  }
  triggered s view am_leader (from_double_cert dc) =
      await (record (update_highest_qc s dc.inner_qc) { highest_double_cert = some dc }) view
        am_leader
  triggered s view am_leader (from_timeout_cert tc) =
      await (elim (highest_qc tc) [ none ↦ s | some q ↦ update_highest_qc s q ]) view am_leader

  unfoldable pub enter_view :
      ConsensusState → (view : ℕ) → ViewEntryTrigger → Reply ConsensusState (Unit {0})
  unfolding at_view triggered
  enter_view s view trigger =
      if not (is_genesis trigger) && leb view s.current_view
      then record { after = s; effects = []; result = ok tt }
      else triggered (at_view s view) view (is_leader s.validator_set view s.validator_id) trigger
