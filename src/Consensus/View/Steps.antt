-- ===== src/Consensus/View/Steps.antt =====
-- What each step of a view does to the vote slots and to the locked and the highest certificate.
use hotmint.Base.{
  leb, Bool-cases, Option-cases, ℕ, suc, ◌≤◌, ◌≡◌, refl, sym, ◌∙◌, ◌⊎◌, inl, inr, Bool, true, false,
  Option, none, some, List, [], ◌∷◌, arith,
}
use hotmint.Base.Bytes.{Bytes}
use hotmint.Consensus.State.{
  ConsensusState, check_and_record_vote, higher_qc, update_highest_qc, update_locked_qc,
}
use hotmint.Consensus.State.Guard.{Request, ask}
use hotmint.Consensus.View.{Effect, send_vote, is_leader}
use hotmint.Consensus.View.Entry.{
  ViewEntryTrigger, from_double_cert, from_timeout_cert, from_genesis, status_message, await,
  at_view, triggered, enter_view,
}
use hotmint.Types.Certificate.{QuorumCertificate, highest_qc}
use hotmint.Types.Vote.{VoteType, vote, vote2, Vote}

-- One more than the certificate's view, or zero.
abbrev pub level : Option QuorumCertificate → ℕ
level none = 0
level (some qc) = suc qc.view

abbrev pub SameSlots : ConsensusState → ConsensusState → Type 0
SameSlots s t = (t.last_vote1 ≡ s.last_vote1) × (t.last_vote2 ≡ s.last_vote2)

-- What the guard was asked about a vote.
abbrev pub request_of : Vote → Request
request_of v = record { kind = v.vote_type; view = v.view; block_hash = v.block_hash }

-- The votes among the effects.
abbrev pub requests : List Effect → List Request
requests [] = []
requests (send_vote to v ∷ es) = request_of v ∷ requests es
requests (_ ∷ es) = requests es

-- The step leaves the slots and votes for nothing, or asks the guard once and votes only if allowed.
abbrev pub Guarded : ConsensusState → ConsensusState → List Request → Type 0
Guarded s t o =
    (SameSlots s t × (o ≡ []))
    ⊎ ((r : Request) × SameSlots (ask s r).0 t × ((o ≡ []) ⊎ ((o ≡ r ∷ []) × ((ask s r).1 ≡ true))))

-- Neither certificate gives way to one of a lower view, and the lock never passes the highest one.
pub record Rises (s t : ConsensusState) : Type 0 where
  pub locked : level s.locked_qc ≤ level t.locked_qc
  pub highest : level s.highest_qc ≤ level t.highest_qc
  pub below : level s.locked_qc ≤ level s.highest_qc → level t.locked_qc ≤ level t.highest_qc

pub Rises-same :
    {s t : ConsensusState} → t.locked_qc ≡ s.locked_qc → t.highest_qc ≡ s.highest_qc → Rises s t
Rises-same l h = record {
  locked = rw l (omega arith);
  highest = rw h (omega arith);
  below = λ b. rw (l, h) b;
}

pub Rises-trans : {s t u : ConsensusState} → Rises s t → Rises t u → Rises s u
Rises-trans a b = record {
  locked = omega (arith, a.locked, b.locked);
  highest = omega (arith, a.highest, b.highest);
  below = λ h. b.below (a.below h);
}

level-higher_qc :
    (o : Option QuorumCertificate) (qc : QuorumCertificate)
    → (level o ≤ level (higher_qc o qc))
      × (suc qc.view ≤ level (higher_qc o qc))
      × ((level (higher_qc o qc) ≡ level o) ⊎ (level (higher_qc o qc) ≡ suc qc.view))
unfolding higher_qc
level-higher_qc none qc = (omega arith, omega arith, inr refl)
level-higher_qc (some h) qc = (ground arith, ground arith, ground arith)

pub update_highest_qc-Rises :
    (s : ConsensusState) (qc : QuorumCertificate) → Rises s (update_highest_qc s qc)
unfolding update_highest_qc
update_highest_qc-Rises s qc =
    let (up, _, _) = level-higher_qc s.highest_qc qc in
    record { locked = omega arith; highest = up; below = λ b. omega (arith, b, up) }

-- A step that takes in a certificate and locks on it.
pub locked-Rises :
    (s t : ConsensusState) (qc : QuorumCertificate)
    → t.locked_qc ≡ higher_qc s.locked_qc qc
    → t.highest_qc ≡ higher_qc s.highest_qc qc
    → Rises s t
locked-Rises s t qc l h =
    let (up, at_least, _) = level-higher_qc s.highest_qc qc in
    let (raised, _, either) = level-higher_qc s.locked_qc qc in
    record {
      locked = rw l raised;
      highest = rw h up;
      below = λ b.
          rw (l, h)
            (elim either [
              | inl kept ↦ omega (arith, kept, b, up)
              | inr moved ↦ omega (arith, moved, at_least)
            ]);
    }

pub lock_both-Rises :
    (s : ConsensusState) (qc : QuorumCertificate)
    → Rises s (update_highest_qc (update_locked_qc s qc) qc)
unfolding update_highest_qc update_locked_qc
lock_both-Rises s qc = locked-Rises s _ qc refl refl

pub update_highest_qc-slots :
    (s : ConsensusState) (qc : QuorumCertificate) → SameSlots s (update_highest_qc s qc)
unfolding update_highest_qc
update_highest_qc-slots s qc = (refl, refl)

pub lock_both-slots :
    (s : ConsensusState) (qc : QuorumCertificate)
    → SameSlots s (update_highest_qc (update_locked_qc s qc) qc)
unfolding update_highest_qc update_locked_qc
lock_both-slots s qc = (refl, refl)

-- A step that only takes in a certificate.
pub certified-Rises :
    (s t : ConsensusState) (qc : QuorumCertificate)
    → t.locked_qc ≡ s.locked_qc
    → t.highest_qc ≡ higher_qc s.highest_qc qc
    → Rises s t
certified-Rises s t qc l h =
    let (up, _, _) = level-higher_qc s.highest_qc qc in
    record {
      locked = rw l (omega arith);
      highest = rw h up;
      below = λ b. rw (l, h) (omega (arith, b, up));
    }

-- The fields that the properties are about.
pub record Same (s t : ConsensusState) : Type 0 where
  pub locked : t.locked_qc ≡ s.locked_qc
  pub highest : t.highest_qc ≡ s.highest_qc
  pub slots : SameSlots s t

module _ (sign : Bytes → Bytes) where
  await-Same :
      (s : ConsensusState) (view : ℕ) (am_leader : Bool)
      → Same s (await sign s view am_leader).after
        × (requests (await sign s view am_leader).effects ≡ [])
  unfolding await status_message
  await-Same s view true = (record { locked = refl; highest = refl; slots = (refl, refl) }, refl)
  await-Same s view false = (
    record { locked = ground arith; highest = ground arith; slots = (ground arith, ground arith) },
    ground arith,
  )

  pub enter_view-Rises :
      (s : ConsensusState) (view : ℕ) (trigger : ViewEntryTrigger)
      → Rises s (enter_view sign s view trigger).after
        × SameSlots s (enter_view sign s view trigger).after
        × (requests (enter_view sign s view trigger).effects ≡ [])
  unfolding enter_view triggered at_view update_highest_qc
  enter_view-Rises s view from_genesis = (Rises-same refl refl, (refl, refl), refl)
  enter_view-Rises s view (from_double_cert dc) = elim (Bool-cases (leb view s.current_view)) [
    | inl stale ↦ rw (enter_view, stale) (Rises-same refl refl, (refl, refl), refl)
    | inr fresh ↦
        let u : ConsensusState = record (update_highest_qc (at_view sign s view) dc.inner_qc) {
          highest_double_cert = some dc;
        } in
        let (same, silent) = await-Same u view (is_leader s.validator_set view s.validator_id) in
        rw (enter_view, fresh)
          (
            Rises-trans (certified-Rises s u dc.inner_qc refl refl)
                (Rises-same same.locked same.highest),
            same.slots,
            silent,
          )
  ]
  enter_view-Rises s view (from_timeout_cert tc) = elim (Bool-cases (leb view s.current_view)) [
    | inl stale ↦ rw (enter_view, stale) (Rises-same refl refl, (refl, refl), refl)
    | inr fresh ↦ elim (Option-cases (highest_qc tc)) [
      | inl nothing_carried ↦
          let (same, silent) =
            await-Same (at_view sign s view) view (is_leader s.validator_set view s.validator_id) in
          rw (enter_view, fresh, triggered, nothing_carried)
            (Rises-same same.locked same.highest, same.slots, silent)
      | inr (qc, carried) ↦
          let u : ConsensusState = update_highest_qc (at_view sign s view) qc in
          let (same, silent) = await-Same u view (is_leader s.validator_set view s.validator_id) in
          rw (enter_view, fresh, triggered, carried)
            (
              Rises-trans (certified-Rises s u qc refl refl) (Rises-same same.locked same.highest),
              same.slots,
              silent,
            )
    ]
  ]

-- The guard reads the slots alone.
ask-slots :
    (s u : ConsensusState) (kind : VoteType) (view block_hash : ℕ)
    → SameSlots s u
    → ((check_and_record_vote u kind view block_hash).1
        ≡ (check_and_record_vote s kind view block_hash).1)
      × SameSlots
          (check_and_record_vote s kind view block_hash).0
          (check_and_record_vote u kind view block_hash).0
unfolding check_and_record_vote
ask-slots s u vote view block_hash (one, two) = rw (one, two) (refl, (refl, refl))
ask-slots s u vote2 view block_hash (one, two) = rw (one, two) (refl, (refl, refl))

pub Guarded-from :
    (s u t : ConsensusState) (o : List Request) → SameSlots s u → Guarded u t o → Guarded s t o
Guarded-from s u t o (one, two) (inl (same, silent)) = inl ((same.0 ∙ one, same.1 ∙ two), silent)
Guarded-from s u t o same (inr (r, asked, cast)) =
    let (answer, slots) = ask-slots s u r.kind r.view r.block_hash same in
    inr (
      r,
      (asked.0 ∙ slots.0, asked.1 ∙ slots.1),
      elim cast [ inl silent ↦ inl silent | inr (sent, yes_) ↦ inr (sent, sym answer ∙ yes_) ],
    )

pub ask-certificates :
    (s : ConsensusState) (kind : VoteType) (view block_hash : ℕ)
    → let t = (check_and_record_vote s kind view block_hash).0 in
      (t.locked_qc ≡ s.locked_qc)
      × (t.highest_qc ≡ s.highest_qc)
      × (t.current_view ≡ s.current_view)
unfolding check_and_record_vote
ask-certificates s vote view block_hash = (refl, refl, refl)
ask-certificates s vote2 view block_hash = (refl, refl, refl)
