-- ===== src/Consensus/View/Run.antt =====
-- Any sequence of steps of one node: its votes never conflict and its lock never falls.
use hotmint.Base.{
  All, All-imp, ℕ, ◌≡◌, refl, subst, ◌⊎◌, inl, inr, Bool, Option, List, [], ◌∷◌, ◌++◌, arith,
}
use hotmint.Base.Bytes.{Bytes}
use hotmint.Consensus.Application.{Application}
use hotmint.Consensus.State.{ConsensusState}
use hotmint.Consensus.State.Guard.{
  Request, ask, slot_of, Permits, Allowed, ask-Allowed, Follows, accepted, accepted-Follows,
  Consistent,
}
use hotmint.Consensus.Store.{BlockStore}
use hotmint.Consensus.View.Entry.{ViewEntryTrigger, enter_view}
use hotmint.Consensus.View.Moves.{Moves, on_proposal-Moves}
use hotmint.Consensus.View.Prepare.{on_prepare}
use hotmint.Consensus.View.Proposal.{ProposalData, EpochContext, Node, on_proposal}
use hotmint.Consensus.View.Propose.{build, propose}
use hotmint.Consensus.View.SelfVote.{leader_self_vote, on_qc_formed}
use hotmint.Consensus.View.SelfVote.Moves.{leader_self_vote-Moves, on_qc_formed-Moves}
use hotmint.Consensus.View.Steps.{
  SameSlots, requests, Guarded, Rises, Rises-same, Rises-trans, enter_view-Rises,
}
use hotmint.Consensus.View.Votes.{given, on_prepare-Guarded}
use hotmint.Types.Certificate.{QuorumCertificate}
use hotmint.Types.Epoch.{Epoch}
use hotmint.Types.Evidence.{EquivocationProof}
use hotmint.Types.Vote.{VoteType, vote, vote2}

-- A step of the protocol, with what reaches the node from outside.
pub data Event : Type 0 where
  enters : (view : ℕ) → ViewEntryTrigger → Event
  proposes : (now : ℕ) → List EquivocationProof → Option Epoch → (fuel : ℕ) → Event
  gets_proposal : ProposalData → (now : ℕ) → EpochContext → Event
  forms_certificate : QuorumCertificate → Option Bytes → Event
  votes_for_own : (block_hash : ℕ) → Event
  gets_prepare : QuorumCertificate → Option Bytes → Event

slot_same : (s t : ConsensusState) (k : VoteType) → SameSlots s t → slot_of t k ≡ slot_of s k
slot_same s t vote (one, two) = one
slot_same s t vote2 (one, two) = two

Guarded-narrows :
    (s t : ConsensusState) (o : List Request) (q : Request)
    → Guarded s t o
    → Allowed t q
    → Allowed s q
Guarded-narrows s t o q (inl (same, silent)) allowed =
    subst (λ slot. Permits slot q) (slot_same s t q.kind same) allowed
Guarded-narrows s t o q (inr (r, same, cast)) allowed =
    ask-Allowed s r.kind q.kind r.view r.block_hash q.view q.block_hash
      (subst (λ slot. Permits slot q) (slot_same (ask s r).0 t q.kind same) allowed)

Guarded-cast :
    (s t : ConsensusState) (r : Request)
    → Guarded s t (r ∷ [])
    → Allowed s r × ((q : Request) → Allowed t q → Follows r q)
Guarded-cast s t r (inl (same, silent)) = absurd (ground arith)
Guarded-cast s t r (inr (x, same, inl silent)) = absurd (ground arith)
Guarded-cast s t r (inr (x, same, inr (sent, yes_))) =
    let e : x ≡ r = ground arith in
    subst (λ y. Allowed s y × ((q : Request) → Allowed t q → Follows y q)) e
      (
        (accepted s x.kind x.view x.block_hash yes_).0,
        λ q allowed.
            accepted-Follows s x q yes_
              (subst (λ slot. Permits slot q) (slot_same (ask s x).0 t q.kind same) allowed),
      )

module _ (bs : BlockStore) (app : Application) (blake3 sign : Bytes → Bytes)
    (verify : Bytes → Bytes → Bytes → Bool) (persistent : Bool) where
  open bs use {Store}
  open app use {AppState}

  -- The node after a step, and every vote that it gave in it: those among what it sent, then one that
  -- it hands to its own collector or to the engine.
  unfoldable pub handle : Node Store AppState → Event → Node Store AppState × List Request
  handle n (enters view trigger) =
      let t = enter_view sign n.state view trigger in
      (record n { state = t.after }, requests t.effects)
  handle n (proposes now evidence previous fuel) =
      let t = propose bs app blake3 sign verify n now evidence previous fuel in
      (t.after, requests t.effects)
  handle n (gets_proposal p now e) =
      let t = on_proposal bs app blake3 sign verify persistent n p now e in
      (t.after, requests t.effects)
  handle n (votes_for_own block_hash) =
      let t = leader_self_vote blake3 sign n.state block_hash persistent in
      (record n { state = t.after }, given blake3 sign t)
  handle n (forms_certificate qc ext) =
      let t = on_qc_formed blake3 sign n.state qc ext persistent in
      (record n { state = t.after }, given blake3 sign t)
  handle n (gets_prepare qc ext) =
      let t = on_prepare blake3 sign n.state qc ext persistent in
      (record n { state = t.after }, given blake3 sign t)

  unfoldable pub casts : Node Store AppState → List Event → List Request
  casts n [] = []
  casts n (e ∷ es) = (handle n e).1 ++ casts (handle n e).0 es

  unfoldable pub final : Node Store AppState → List Event → Node Store AppState
  final n [] = n
  final n (e ∷ es) = final (handle n e).0 es

  propose-Moves :
      (n : Node Store AppState) (now : ℕ) (evidence : List EquivocationProof)
      (previous : Option Epoch) (fuel : ℕ)
      → let t = propose bs app blake3 sign verify n now evidence previous fuel in
        Moves n.state t.after.state (requests t.effects)
  unfolding propose build
  propose-Moves n now evidence previous fuel = record {
    guarded = inl ((ground arith, ground arith), ground arith);
    rises = Rises-same (ground arith) (ground arith);
  }

  handle-Moves :
      (n : Node Store AppState) (e : Event) → Moves n.state (handle n e).0.state (handle n e).1
  unfolding handle
  handle-Moves n (enters view trigger) =
      let (rises, same, silent) = enter_view-Rises sign n.state view trigger in
      record { guarded = inl (same, silent); rises = rises }
  handle-Moves n (proposes now evidence previous fuel) = propose-Moves n now evidence previous fuel
  handle-Moves n (gets_proposal p now e) =
      on_proposal-Moves bs app blake3 sign verify persistent n p now e
  handle-Moves n (votes_for_own block_hash) =
      leader_self_vote-Moves blake3 sign n.state block_hash persistent
  handle-Moves n (forms_certificate qc ext) =
      on_qc_formed-Moves blake3 sign n.state qc ext persistent
  handle-Moves n (gets_prepare qc ext) =
      let (guarded, rises) = on_prepare-Guarded blake3 sign n.state qc ext persistent in
      record { guarded = guarded; rises = rises }

  -- A step gives no vote or one.
  one_at_most :
      (s t : ConsensusState) (o : List Request)
      → Guarded s t o
      → (o ≡ []) ⊎ ((r : Request) × (o ≡ r ∷ []))
  one_at_most s t o (inl (same, silent)) = inl silent
  one_at_most s t o (inr (r, same, inl silent)) = inl silent
  one_at_most s t o (inr (r, same, inr (sent, yes_))) = inr (r, sent)

  casts-Allowed : (n : Node Store AppState) (es : List Event) → All (Allowed n.state) (casts n es)
  unfolding casts
  casts-Allowed n [] = tt
  casts-Allowed n (e ∷ es) =
      let n' = (handle n e).0 in
      let m = handle-Moves n e in
      let later =
        All-imp (Allowed n'.state) (Allowed n.state) (casts n' es)
          (λ q p. Guarded-narrows n.state n'.state (handle n e).1 q m.guarded p)
          (casts-Allowed n' es) in
      elim (one_at_most n.state n'.state (handle n e).1 (handle-Moves n e).guarded) [
        | inl silent ↦ rw (casts, silent) later
        | inr (r, sent) ↦
            let guarded : Guarded n.state n'.state (r ∷ []) =
              subst (λ o. Guarded n.state n'.state o) sent m.guarded in
            rw (casts, sent) ((Guarded-cast n.state n'.state r guarded).0, later)
      ]

  -- Whatever sequence of view entries, proposals, certificates and prepares a node goes through, the
  -- votes that it gives, those for its own blocks included, are consistent: no two of one phase and
  -- one view are for different blocks, and none is of an earlier view than a vote of its phase before
  -- it.
  pub casts-Consistent : (n : Node Store AppState) (es : List Event) → Consistent (casts n es)
  unfolding casts
  casts-Consistent n [] = tt
  casts-Consistent n (e ∷ es) =
      let n' = (handle n e).0 in
      let rest = casts-Consistent n' es in
      elim (one_at_most n.state n'.state (handle n e).1 (handle-Moves n e).guarded) [
        | inl silent ↦ rw (casts, silent) rest
        | inr (r, sent) ↦
            let guarded : Guarded n.state n'.state (r ∷ []) =
              subst (λ o. Guarded n.state n'.state o) sent (handle-Moves n e).guarded in
            rw (casts, sent)
              (
                All-imp (Allowed n'.state) (Follows r) (casts n' es)
                    (Guarded-cast n.state n'.state r guarded).1 (casts-Allowed n' es),
                rest,
              )
      ]

  -- Along any such sequence neither the locked nor the highest certificate is replaced by one of a
  -- lower view, and a lock that starts no higher than the highest certificate stays so.
  pub final-Rises : (n : Node Store AppState) (es : List Event) → Rises n.state (final n es).state
  unfolding final
  final-Rises n [] = Rises-same refl refl
  final-Rises n (e ∷ es) = Rises-trans (handle-Moves n e).rises (final-Rises (handle n e).0 es)
