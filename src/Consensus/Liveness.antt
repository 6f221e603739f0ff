-- ===== src/Consensus/Liveness.antt =====
-- crates/hotmint-consensus/src/liveness.rs: the tracker of missed commits. Its counters are `u64`s
-- that grow by one for each commit.
pub mod Counts
use hotmint.Base.Map
use hotmint.Base.{
  ltb, leb, ◌==◌, if◌then◌else◌, retain, ℕ, suc, ◌*◌, Bool, true, false, none, some, List, [], ◌∷◌,
  map,
}
use hotmint.Base.Map.{nat_eq, text_eq}
use hotmint.Base.Sort.{sort}
use hotmint.Consensus.VoteCollector.{vote_key_eq}
use hotmint.Staking.Store.{stake_key_eq}
use hotmint.Types.Validator.{get, ValidatorInfo, ValidatorSet}

pub record LivenessTracker : Type 0 where
  pub missed : List (ℕ × ℕ)
  pub total_commits : ℕ
  pub threshold_num : ℕ
  pub threshold_den : ℕ

abbrev pub new_tracker : LivenessTracker
new_tracker = record { missed = []; total_commits = 0; threshold_num = 50; threshold_den = 100 }

abbrev pub missed_of : ℕ → List (ℕ × ℕ) → ℕ
missed_of id m = elim (Map.get id m) [ none ↦ 0 | some n ↦ n ]

-- The loop over the members, with the flags that are left; a missing flag reads as unsigned.
unfoldable pub record_misses : List ValidatorInfo → List Bool → List (ℕ × ℕ) → List (ℕ × ℕ)
record_misses [] signers m = m
record_misses (v ∷ vs) [] m = record_misses vs [] (Map.insert v.id (suc (missed_of v.id m)) m)
record_misses (v ∷ vs) (true ∷ bs) m = record_misses vs bs m
record_misses (v ∷ vs) (false ∷ bs) m =
    record_misses vs bs (Map.insert v.id (suc (missed_of v.id m)) m)

unfoldable pub record_commit : LivenessTracker → ValidatorSet → List Bool → LivenessTracker
record_commit t s signers = record t {
  total_commits = suc t.total_commits;
  missed = record_misses s.validators signers t.missed;
}

pub record Offline : Type 0 where
  pub id : ℕ
  pub misses : ℕ
  pub commits : ℕ

abbrev pub is_offline : LivenessTracker → ℕ × ℕ → Bool
is_offline t kv = ltb (t.threshold_num * t.total_commits) (kv.1 * t.threshold_den)

abbrev pub offline_entry : LivenessTracker → ℕ × ℕ → Offline
offline_entry t kv = record { id = kv.0; misses = kv.1; commits = t.total_commits }

unfoldable pub offline_validators : LivenessTracker → List Offline
offline_validators t =
    if t.total_commits == 0
    then []
    else sort (λ a b. leb a.id b.id) (map (offline_entry t) (retain (is_offline t) t.missed))

unfoldable pub reset : LivenessTracker → LivenessTracker
reset t = record t { missed = []; total_commits = 0 }

unfoldable pub stats : LivenessTracker → ℕ → ℕ × ℕ
stats t id = (missed_of id t.missed, t.total_commits)
