-- ===== src/Types/Crypto.antt =====
-- crates/hotmint-types/src/crypto.rs: aggregate signatures.
use hotmint.Base.{
  if◌then◌else◌, length, get_elem?, set, take, replicate, Result, ok, err, ℕ, zero, suc, ◌≡◌, refl,
  ap, ◌↔◌, Bool, true, false, Option, none, some, List, [], ◌∷◌, arith,
}
use hotmint.Base.Bytes.{Bytes}

-- One flag for each member of the validator set, and the signatures of the flagged ones in order.
pub record AggregateSignature : Type 0 where
  pub signers : List Bool
  pub signatures : List Bytes

pub data AddError : Type 0 where
  out_of_bounds duplicate_signature : AddError

unfoldable pub new : ℕ → AggregateSignature
new n = record { signers = replicate n false; signatures = [] }

abbrev pub count_signed : List Bool → ℕ
count_signed [] = 0
count_signed (true ∷ bs) = suc (count_signed bs)
count_signed (false ∷ bs) = count_signed bs

-- `Vec::insert`; past the end, where it panics, the entry goes to the end.
unfoldable pub insert_at : ℕ → Bytes → List Bytes → List Bytes
insert_at zero s ss = s ∷ ss
insert_at (suc n) s [] = s ∷ []
insert_at (suc n) s (r ∷ ss) = r ∷ insert_at n s ss

unfoldable pub add : AggregateSignature → ℕ → Bytes → Result AddError AggregateSignature
unfolding insert_at
add agg index sig = elim (get_elem? agg.signers index) [
  | none ↦ err out_of_bounds
  | some signed ↦
      if signed
      then err duplicate_signature
      else ok (record {
        signers = set agg.signers index true;
        signatures = insert_at (count_signed (take index agg.signers)) sig agg.signatures;
      })
]

unfoldable pub count : AggregateSignature → ℕ
count agg = count_signed agg.signers

-- As many signatures as flags.
abbrev pub IsAligned : AggregateSignature → Type 0
IsAligned agg = length agg.signatures ≡ count_signed agg.signers

-- Which member gave which signature: what the two lists together say.
abbrev pub attributed : List Bool → List Bytes → List (Option Bytes)
attributed [] ss = []
attributed (false ∷ bs) ss = none ∷ attributed bs ss
attributed (true ∷ bs) [] = none ∷ attributed bs []
attributed (true ∷ bs) (s ∷ ss) = some s ∷ attributed bs ss

abbrev pub signature_list : AggregateSignature → List (Option Bytes)
signature_list agg = attributed agg.signers agg.signatures

pub new-IsAligned : (n : ℕ) → IsAligned (new n)
unfolding new
new-IsAligned zero = refl
new-IsAligned (suc n) = new-IsAligned n

attributed-insert :
    (bs : List Bool) (ss : List Bytes) (i : ℕ) (s : Bytes)
    → length ss ≡ count_signed bs
    → get_elem? bs i ≡ some false
    → (attributed (set bs i true) (insert_at (count_signed (take i bs)) s ss)
        ≡ set (attributed bs ss) i (some s))
      × (length (insert_at (count_signed (take i bs)) s ss) ≡ count_signed (set bs i true))
unfolding insert_at
attributed-insert [] ss i s l h = cc
attributed-insert (false ∷ bs) ss zero s l h = (refl, ap suc l)
attributed-insert (true ∷ bs) ss zero s l h = cc
attributed-insert (false ∷ bs) ss (suc i) s l h =
    let (a, b) = attributed-insert bs ss i s l h in (ap (◌∷◌ none) a, b)
attributed-insert (true ∷ bs) [] (suc i) s l h = absurd (omega arith)
attributed-insert (true ∷ bs) (r ∷ ss) (suc i) s l h =
    let (a, b) = attributed-insert bs ss i s (omega arith) h in (ap (◌∷◌ (some r)) a, ap suc b)

-- Adding a signature records it for its member and changes no other member's, and keeps as many
-- signatures as flags.
pub add_lem :
    (agg agg' : AggregateSignature) (i : ℕ) (s : Bytes)
    → IsAligned agg
    → add agg i s ≡ ok agg'
    → (signature_list agg' ≡ set (signature_list agg) i (some s)) × IsAligned agg'
unfolding add
add_lem agg agg' i s l h =
    ground (arith, unsigned, attributed-insert agg.signers agg.signatures i s l)
  where
    unsigned : get_elem? agg.signers i ≡ some false
    unsigned = ground arith

added : AggregateSignature → ℕ → Bytes → AggregateSignature
added agg i s = record {
  signers = set agg.signers i true;
  signatures = insert_at (count_signed (take i agg.signers)) s agg.signatures;
}

-- A signature is refused exactly for an index out of range and for a member that has signed.
pub add_ok_iff :
    (agg : AggregateSignature) (i : ℕ) (s : Bytes)
    → ((agg' : AggregateSignature) × (add agg i s ≡ ok agg'))
      ↔ (get_elem? agg.signers i ≡ some false)
unfolding add added
add_ok_iff agg i s = ((λ (agg', h). ground arith), (λ h. (added agg i s, rw (h, add))))
