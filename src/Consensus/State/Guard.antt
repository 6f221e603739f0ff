-- ===== src/Consensus/State/Guard.antt =====
-- The double-sign guard over any sequence of requests.
use hotmint.Base.{
  if◌then◌else◌, Bool-cases, All, All-imp, ℕ, ◌≤◌, ◌≡◌, refl, sym, ap, ◌∙◌, subst, inl, inr, Bool,
  true, Option, none, some, List, [], ◌∷◌, arith,
}
use hotmint.Consensus.State.{ConsensusState, record_vote, check_and_record_vote}
use hotmint.Types.Vote.{VoteType, vote, vote2}

pub record Request : Type 0 where
  pub kind : VoteType
  pub view : ℕ
  pub block_hash : ℕ

abbrev pub ask : ConsensusState → Request → ConsensusState × Bool
ask s r = check_and_record_vote s r.kind r.view r.block_hash

-- The requests that the guard lets through, in order.
abbrev pub signed : ConsensusState → List Request → List Request
signed s [] = []
signed s (r ∷ rs) = let rest = signed (ask s r).0 rs in if (ask s r).1 then r ∷ rest else rest

abbrev pub slot_of : ConsensusState → VoteType → Option (ℕ × ℕ)
slot_of s vote = s.last_vote1
slot_of s vote2 = s.last_vote2

-- What a slot rules out: an earlier view, and another block at its view.
abbrev pub Permits : Option (ℕ × ℕ) → Request → Type 0
Permits none r = Unit
Permits (some (v, h)) r = (v ≤ r.view) × (v ≡ r.view → h ≡ r.block_hash)

abbrev pub Allowed : ConsensusState → Request → Type 0
Allowed s r = Permits (slot_of s r.kind) r

record_vote-Permits :
    (slot : Option (ℕ × ℕ)) (view block_hash : ℕ) (q : Request)
    → Permits (record_vote slot view block_hash).0 q
    → Permits slot q
unfolding record_vote
record_vote-Permits none view block_hash q h = tt
record_vote-Permits (some (v, g)) view block_hash q h = ground arith

record_vote_self :
    (slot : Option (ℕ × ℕ)) (r : Request)
    → (record_vote slot r.view r.block_hash).1 ≡ true
    → Permits slot r × ((record_vote slot r.view r.block_hash).0 ≡ some (r.view, r.block_hash))
unfolding record_vote
record_vote_self none r h = (tt, refl)
record_vote_self (some (v, g)) r h = (ground arith, ground arith)

-- A request allowed after another was allowed before it.
pub ask-Allowed :
    (s : ConsensusState) (k k' : VoteType) (v h w g : ℕ)
    → Permits
        (slot_of (check_and_record_vote s k v h).0 k')
        (record { kind = k'; view = w; block_hash = g })
    → Permits (slot_of s k') (record { kind = k'; view = w; block_hash = g })
unfolding check_and_record_vote
ask-Allowed s vote vote v h w g p = record_vote-Permits s.last_vote1 v h _ p
ask-Allowed s vote vote2 v h w g p = p
ask-Allowed s vote2 vote v h w g p = p
ask-Allowed s vote2 vote2 v h w g p = record_vote-Permits s.last_vote2 v h _ p

-- A later vote of the same type is not of an earlier view, and at the same view it is for the same
-- block.
abbrev pub Follows : Request → Request → Type 0
Follows r q = r.kind ≡ q.kind → (r.view ≤ q.view) × (r.view ≡ q.view → r.block_hash ≡ q.block_hash)

pub accepted :
    (s : ConsensusState) (k : VoteType) (v h : ℕ)
    → (check_and_record_vote s k v h).1 ≡ true
    → Permits (slot_of s k) (record { kind = k; view = v; block_hash = h })
      × (slot_of (check_and_record_vote s k v h).0 k ≡ some (v, h))
unfolding check_and_record_vote
accepted s vote v h e = record_vote_self s.last_vote1 _ e
accepted s vote2 v h e = record_vote_self s.last_vote2 _ e

pub accepted-Follows :
    (s : ConsensusState) (r q : Request) → (ask s r).1 ≡ true → Allowed (ask s r).0 q → Follows r q
accepted-Follows s r q yes_ allowed same =
    let (_, now) = accepted s r.kind r.view r.block_hash yes_ in
    subst (λ slot. Permits slot q) (ap (slot_of (ask s r).0) (sym same) ∙ now) allowed

signed-Allowed : (s : ConsensusState) (rs : List Request) → All (Allowed s) (signed s rs)
signed-Allowed s [] = tt
signed-Allowed s (r ∷ rs) =
    let later =
      All-imp (Allowed (ask s r).0) (Allowed s) (signed (ask s r).0 rs)
        (λ q p. ask-Allowed s r.kind q.kind r.view r.block_hash q.view q.block_hash p)
        (signed-Allowed (ask s r).0 rs) in
    elim (Bool-cases (ask s r).1) [
      | inl e ↦ rw e ((accepted s r.kind r.view r.block_hash e).0, later)
      | inr e ↦ rw e later
    ]

abbrev pub Consistent : List Request → Type 0
Consistent [] = Unit
Consistent (r ∷ rs) = All (Follows r) rs × Consistent rs

-- Whatever votes are asked for, the guard never lets two votes of one type at one view be signed for
-- different blocks, nor a vote after one of a later view.
pub signed-Consistent : (s : ConsensusState) (rs : List Request) → Consistent (signed s rs)
signed-Consistent s [] = tt
signed-Consistent s (r ∷ rs) =
    let rest = signed-Consistent (ask s r).0 rs in
    elim (Bool-cases (ask s r).1) [
      | inl e ↦ rw e (
        All-imp (Allowed (ask s r).0) (Follows r) (signed (ask s r).0 rs)
            (λ q p. accepted-Follows s r q e p) (signed-Allowed (ask s r).0 rs),
        rest,
      )
      | inr e ↦ rw e rest
    ]

-- The same request may be signed again: the guard lets it through and changes nothing.
pub ask_again :
    (s : ConsensusState) (r : Request)
    → (ask s r).1 ≡ true
    → ask (ask s r).0 r ≡ ((ask s r).0, true)
unfolding check_and_record_vote record_vote
ask_again s r e = ground arith
