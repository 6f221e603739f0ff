-- ===== src/Staking/Run.antt =====
-- crates/hotmint-staking/src/manager.rs: the state-changing operations of a manager as the steps of
-- one machine, and what holds of every state it reaches.
use hotmint.Base.Map
use hotmint.Base.{All, u64_limit, ℕ, ◌<◌, refl, List, [], ◌∷◌}
use hotmint.Base.Bytes.{Bytes}
use hotmint.Base.Map.{nat_eq, text_eq}
use hotmint.Consensus.VoteCollector.{vote_key_eq}
use hotmint.Staking.{SlashReason, StakingConfig}
use hotmint.Staking.Backed.{IsBacked}
use hotmint.Staking.Backed.Delegation.{delegate-IsBacked}
use hotmint.Staking.Backed.Evidence.{slash_with_evidence-IsBacked}
use hotmint.Staking.Backed.Operations.{
  register_validator-IsBacked, unregister_validator-IsBacked, unjail-IsBacked,
  increment_score-IsBacked, decrement_score-IsBacked, reward_proposer-IsBacked,
}
use hotmint.Staking.Backed.Slashing.{process_unbonding-IsBacked}
use hotmint.Staking.Backed.Undelegation.{undelegate-IsBacked}
use hotmint.Staking.Manager.{
  StakingManager, register_validator, unregister_validator, delegate, undelegate, process_unbonding,
  unjail, increment_score, decrement_score, reward_proposer,
}
use hotmint.Staking.Slash.{slash_with_evidence}
use hotmint.Staking.Store.{empty_store, get_validator, stake_key_eq}

pub data Operation : Type 0 where
  register_op : (id : ℕ) (key : Bytes) (stake : ℕ) → Operation
  unregister_op : (id : ℕ) → Operation
  delegate_op : (who : Bytes) (id amount : ℕ) → Operation
  undelegate_op : (who : Bytes) (id amount height : ℕ) → Operation
  process_op : (height : ℕ) → Operation
  slash_op : (id : ℕ) (evidence : Bytes) (reason : SlashReason) (height : ℕ) → Operation
  unjail_op : (id height : ℕ) → Operation
  increment_op : (id delta : ℕ) → Operation
  decrement_op : (id delta : ℕ) → Operation
  reward_op : (id : ℕ) → Operation

unfoldable pub apply_op : StakingManager → Operation → StakingManager
apply_op m (register_op id key stake) = (register_validator m id key stake).1
apply_op m (unregister_op id) = (unregister_validator m id).1
apply_op m (delegate_op who id amount) = (delegate m who id amount).1
apply_op m (undelegate_op who id amount height) = (undelegate m who id amount height).1
apply_op m (process_op height) = (process_unbonding m height).1
apply_op m (slash_op id evidence reason height) =
    (slash_with_evidence m id evidence reason height).1
apply_op m (unjail_op id height) = (unjail m id height).1
apply_op m (increment_op id delta) = increment_score m id delta
apply_op m (decrement_op id delta) = decrement_score m id delta
apply_op m (reward_op id) = (reward_proposer m id).1

-- The argument of a registration is a `u64`.
abbrev pub IsWord : Operation → Type 0
IsWord (register_op id key stake) = stake < u64_limit
IsWord _ = Unit

unfoldable pub run_all : StakingManager → List Operation → StakingManager
run_all m [] = m
run_all m (op ∷ ops) = run_all (apply_op m op) ops

abbrev pub fresh_manager : StakingConfig → StakingManager
fresh_manager c = record { store = empty_store; config = c }

pub fresh_manager-IsBacked : (c : StakingConfig) → IsBacked (fresh_manager c).store
unfolding get_validator Map.get
fresh_manager-IsBacked c = record { backed = λ id. refl; distinct = tt; ranged = tt }

pub apply_op-IsBacked :
    (m : StakingManager) (op : Operation)
    → IsWord op
    → IsBacked m.store
    → IsBacked (apply_op m op).store
unfolding apply_op
apply_op-IsBacked m (register_op id key stake) w b = register_validator-IsBacked m id key stake b w
apply_op-IsBacked m (unregister_op id) w b = unregister_validator-IsBacked m id b
apply_op-IsBacked m (delegate_op who id amount) w b = (delegate-IsBacked m who id amount b).0
apply_op-IsBacked m (undelegate_op who id amount height) w b =
    undelegate-IsBacked m who id amount height b
apply_op-IsBacked m (process_op height) w b = process_unbonding-IsBacked m height b
apply_op-IsBacked m (slash_op id evidence reason height) w b =
    slash_with_evidence-IsBacked m id evidence reason height b
apply_op-IsBacked m (unjail_op id height) w b = unjail-IsBacked m id height b
apply_op-IsBacked m (increment_op id delta) w b = increment_score-IsBacked m id delta b
apply_op-IsBacked m (decrement_op id delta) w b = decrement_score-IsBacked m id delta b
apply_op-IsBacked m (reward_op id) w b = reward_proposer-IsBacked m id b

-- After any sequence of operations, accepted or refused, from an empty store: for every validator
-- the delegators' entries add up to its recorded delegated stake, which fits a `u64`, and no
-- delegator has two entries.
pub run_all-IsBacked :
    (m : StakingManager) (ops : List Operation)
    → All IsWord ops
    → IsBacked m.store
    → IsBacked (run_all m ops).store
unfolding run_all
run_all-IsBacked m [] w b = b
run_all-IsBacked m (op ∷ ops) w b =
    run_all-IsBacked (apply_op m op) ops w.1 (apply_op-IsBacked m op w.0 b)
