-- ===== src/Staking.antt =====
-- crates/hotmint-staking/src: types.rs, the data of the staking system, and rewards.rs.
pub mod Store
pub mod Manager
pub mod Slash
pub mod Formal
pub mod Shares
pub mod Backed
pub mod Run
pub mod Tokens
pub mod Punish
pub mod Registered
use hotmint.Base.{
  leb, ◌==◌, if◌then◌else◌, u64_limit, saturating_add, Result, ensure, ℕ, Bool, not, ◌||◌, List,
  ◌>>=◌, ◌>>◌,
}
use hotmint.Base.Bytes.{Bytes}

pub data SlashReason : Type 0 where
  double_sign downtime : SlashReason

pub record AppliedSlash : Type 0 where
  pub evidence_id : Bytes
  pub reason : SlashReason

pub record ValidatorState : Type 0 where
  pub id : ℕ
  pub public_key : Bytes
  pub self_stake : ℕ
  pub delegated_stake : ℕ
  pub score : ℕ
  pub jailed : Bool
  pub jail_until_height : ℕ
  pub tombstoned : Bool
  pub applied_slashes : List AppliedSlash

pub record StakeEntry : Type 0 where
  pub amount : ℕ

pub record SlashResult : Type 0 where
  pub self_slashed : ℕ
  pub delegated_slashed : ℕ
  pub jailed : Bool

pub record UnbondingEntry : Type 0 where
  pub staker : Bytes
  pub validator : ℕ
  pub amount : ℕ
  pub completion_height : ℕ

pub record StakingConfig : Type 0 where
  pub max_validators : ℕ
  pub min_self_stake : ℕ
  pub slash_rate_double_sign : ℕ
  pub slash_rate_downtime : ℕ
  pub jail_duration : ℕ
  pub initial_score : ℕ
  pub max_score : ℕ
  pub block_reward : ℕ
  pub unbonding_period : ℕ

pub data ConfigError : Type 0 where
  no_validators double_sign_rate downtime_rate score_above_max : ConfigError

unfoldable pub validate : StakingConfig → Result ConfigError (Unit {0})
validate c = do
  ensure (not (c.max_validators == 0)) no_validators
  ensure (leb c.slash_rate_double_sign 10000) double_sign_rate
  ensure (leb c.slash_rate_downtime 10000) downtime_rate
  ensure (leb c.initial_score c.max_score) score_above_max

abbrev pub default_config : StakingConfig
default_config = record {
  max_validators = 100;
  min_self_stake = 1000;
  slash_rate_double_sign = 500;
  slash_rate_downtime = 100;
  jail_duration = 1000;
  initial_score = 10000;
  max_score = 10000;
  block_reward = 100;
  unbonding_period = 1000;
}

unfoldable pub total_stake : ValidatorState → ℕ
total_stake s = saturating_add u64_limit s.self_stake s.delegated_stake

unfoldable pub voting_power : ValidatorState → ℕ
voting_power s = if s.jailed || s.tombstoned then 0 else total_stake s

unfoldable pub proposer_reward : StakingConfig → ℕ
proposer_reward c = c.block_reward
