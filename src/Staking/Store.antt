-- ===== src/Staking/Store.antt =====
-- crates/hotmint-staking/src/store.rs: the in-memory staking store.
use hotmint.Base.Map
use hotmint.Base.{
  leb, ◌==◌, if◌then◌else◌, retain, ℕ, ◌≡◌, ◌↔◌, Bool, true, not, ◌&&◌, Option, List, [], ◌∷◌, ◌++◌,
  map, arith,
}
use hotmint.Base.Bytes.{Bytes, bytes_eq, bytes_eq_iff}
use hotmint.Base.Map.{Eq, nat_eq, text_eq}
use hotmint.Consensus.VoteCollector.{vote_key_eq}
use hotmint.Staking.{ValidatorState, StakeEntry, UnbondingEntry}

-- The key of a delegation, a pair in the source.
pub record StakeKey : Type 0 where
  pub addr : Bytes
  pub vid : ℕ

abbrev pub stake_key_beq : StakeKey → StakeKey → Bool
stake_key_beq a b = bytes_eq a.addr b.addr && a.vid == b.vid

pub stake_key_beq_iff : (a b : StakeKey) → (stake_key_beq a b ≡ true) ↔ (a ≡ b)
stake_key_beq_iff a b = ground (arith, bytes_eq_iff a.addr b.addr)

instance abbrev pub stake_key_eq : Eq StakeKey
stake_key_eq = record { beq = stake_key_beq; beq_iff = stake_key_beq_iff }

pub record StakingStore : Type 0 where
  pub validators : List (ℕ × ValidatorState)
  pub stakes : List (StakeKey × StakeEntry)
  pub unbondings : List UnbondingEntry

abbrev pub empty_store : StakingStore
empty_store = record { validators = []; stakes = []; unbondings = [] }

unfoldable pub get_validator : StakingStore → ℕ → Option ValidatorState
get_validator s id = Map.get id s.validators

unfoldable pub set_validator : StakingStore → ℕ → ValidatorState → StakingStore
set_validator s id v = record s { validators = Map.insert id v s.validators }

unfoldable pub remove_validator : StakingStore → ℕ → StakingStore
remove_validator s id = record s { validators = Map.remove id s.validators }

unfoldable pub all_validator_ids : StakingStore → List ℕ
all_validator_ids s = map (λ kv. kv.0) s.validators

unfoldable pub get_stake : StakingStore → Bytes → ℕ → Option StakeEntry
get_stake s who v = Map.get (record { addr = who; vid = v }) s.stakes

unfoldable pub set_stake : StakingStore → Bytes → ℕ → StakeEntry → StakingStore
set_stake s who v e = record s { stakes = Map.insert (record { addr = who; vid = v }) e s.stakes }

unfoldable pub remove_stake : StakingStore → Bytes → ℕ → StakingStore
remove_stake s who v = record s { stakes = Map.remove (record { addr = who; vid = v }) s.stakes }

abbrev pub stakers_in : ℕ → List (StakeKey × StakeEntry) → List (Bytes × StakeEntry)
stakers_in v [] = []
stakers_in v ((k, e) ∷ m) = if k.vid == v then (k.addr, e) ∷ stakers_in v m else stakers_in v m

unfoldable pub stakers_of : StakingStore → ℕ → List (Bytes × StakeEntry)
stakers_of s v = stakers_in v s.stakes

unfoldable pub push_unbonding : StakingStore → UnbondingEntry → StakingStore
push_unbonding s e = record s { unbondings = s.unbondings ++ e ∷ [] }

-- The entries drained, and the store that keeps the others.
unfoldable pub drain_mature_unbondings : StakingStore → ℕ → List UnbondingEntry × StakingStore
drain_mature_unbondings s height = (
  retain (λ e. leb e.completion_height height) s.unbondings,
  record s { unbondings = retain (λ e. not (leb e.completion_height height)) s.unbondings },
)

unfoldable pub all_unbondings : StakingStore → List UnbondingEntry
all_unbondings s = s.unbondings

unfoldable pub replace_unbondings : StakingStore → List UnbondingEntry → StakingStore
replace_unbondings s es = record s { unbondings = es }
