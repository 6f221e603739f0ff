-- ===== src/Staking/Registered/Stakes.antt =====
-- crates/hotmint-staking/src/manager.rs: delegations, releases and slashes keep the registry in
-- order, and so does every sequence of operations.
use hotmint.Base.Map
use hotmint.Base.{
  ltb, ◌==◌, Bool-cases, Option-cases, if_cases, length, All, u64_limit, ℕ, ◌+◌, ◌-◌, ◌≡◌, refl, ap,
  inl, inr, none, some, List, [], ◌∷◌,
}
use hotmint.Base.Bytes.{Bytes}
use hotmint.Base.Map.{nat_eq, text_eq}
use hotmint.Consensus.VoteCollector.{vote_key_eq}
use hotmint.Staking.{SlashReason, ValidatorState}
use hotmint.Staking.Backed.{IsBacked}
use hotmint.Staking.Backed.Evidence.{slash_amount_lt, slash_delegations_lem}
use hotmint.Staking.Backed.Slashing.{lower_stake-validators}
use hotmint.Staking.Formal.Listing.{same_id}
use hotmint.Staking.Manager.{
  StakingManager, with_store, add_to_stake, delegate, lower_stake, undelegate, is_prunable,
  prune_ids, prune_tombstoned_validators, process_unbonding,
}
use hotmint.Staking.Registered.{
  IsRegistered, update_validator-IsRegistered, remove_validator-IsRegistered,
  same_validators-IsRegistered,
}
use hotmint.Staking.Registered.Operations.{
  register_validator-IsRegistered, known_cases, Keeps, unregister_validator-IsRegistered,
  unjail-IsRegistered, increment_score-IsRegistered, decrement_score-IsRegistered,
  reward_proposer-IsRegistered,
}
use hotmint.Staking.Run.{
  Operation, register_op, unregister_op, delegate_op, undelegate_op, process_op, slash_op,
  unjail_op, increment_op, decrement_op, reward_op, apply_op, IsWord, run_all, apply_op-IsBacked,
}
use hotmint.Staking.Slash.{
  slash_rate, slash_amount, slash_delegations, slashed_state, is_applied, slash_store,
  slash_with_evidence,
}
use hotmint.Staking.Store.{
  StakingStore, get_validator, set_validator, get_stake, set_stake, push_unbonding,
  drain_mature_unbondings, replace_unbondings, stake_key_eq,
}
use hotmint.Types.Validator.Valid.{ids}

-- A write of a known validator that leaves its id and key, in a store with the same validators.
written-IsRegistered :
    (s t : StakingStore) (id : ℕ) (v w : ValidatorState)
    → IsRegistered s
    → t.validators ≡ s.validators
    → get_validator s id ≡ some v
    → w.id ≡ v.id
    → w.public_key ≡ v.public_key
    → IsRegistered (set_validator t id w)
unfolding get_validator set_validator
written-IsRegistered s t id v w r same known same_id same_key =
    same_validators-IsRegistered (set_validator s id w) (set_validator t id w)
      (ap (λ l. Map.insert id w l) same)
      (update_validator-IsRegistered s id v w r known same_id same_key)

add_to_stake-IsRegistered :
    (m : StakingManager) (who : Bytes) (id amount : ℕ)
    → IsRegistered m.store
    → IsRegistered (add_to_stake m who id amount).1.store
unfolding set_stake
add_to_stake-IsRegistered m who id amount r =
    let old : ℕ = elim (get_stake m.store who id) [ none ↦ 0 | some e ↦ e.amount ] in
    elim (Bool-cases (ltb (old + amount) u64_limit)) [
      | inl fits ↦ rw (fits, add_to_stake) (same_validators-IsRegistered m.store _ refl r)
      | inr over ↦ rw (over, add_to_stake) r
    ]

delegate-IsRegistered :
    (m : StakingManager) (who : Bytes) (id amount : ℕ)
    → IsRegistered m.store
    → IsRegistered (delegate m who id amount).1.store
unfolding delegate set_stake
delegate-IsRegistered m who id amount r =
    if_cases Keeps (amount == 0) (λ _. r)
      (λ _. known_cases m id _ _ Keeps r (λ v known.
        if_cases Keeps v.tombstoned (λ _. r)
          (λ _. (elim (Bool-cases (ltb (v.delegated_stake + amount) u64_limit)) [
            | inr over ↦ rw over r
            | inl fits ↦ rw fits (
                add_to_stake-IsRegistered (with_store m _) who id amount (
                  update_validator-IsRegistered m.store id v
                    (record v { delegated_stake = v.delegated_stake + amount }) r known refl refl))
          ]))))

undelegate-IsRegistered :
    (m : StakingManager) (who : Bytes) (id amount height : ℕ)
    → IsRegistered m.store
    → IsRegistered (undelegate m who id amount height).1.store
unfolding undelegate push_unbonding
undelegate-IsRegistered m who id amount height r =
    if_cases Keeps (amount == 0) (λ _. r)
      (λ _. known_cases m id _ _ Keeps r (λ v known.
        (elim (Option-cases (get_stake m.store who id)) [
          | inl fresh ↦ rw fresh r
          | inr (e, old) ↦ rw old (
              if_cases Keeps (ltb e.amount amount) (λ _. r)
                (λ _. same_validators-IsRegistered _ _ refl (
                  written-IsRegistered m.store (lower_stake m.store who id (e.amount - amount)) id v
                    (record v { delegated_stake = v.delegated_stake - amount }) r
                    (lower_stake-validators m.store who id (e.amount - amount)) known refl refl)))
        ])))

prune_ids-IsRegistered :
    (pending ids : List ℕ) (s : StakingStore)
    → IsRegistered s
    → IsRegistered (prune_ids pending ids s)
unfolding prune_ids
prune_ids-IsRegistered pending [] s r = r
prune_ids-IsRegistered pending (id ∷ ids) s r =
    prune_ids-IsRegistered pending ids _ (elim (Option-cases (get_validator s id)) [
      | inl unknown ↦ rw unknown r
      | inr (v, known) ↦ rw known (
          if_cases (λ t. IsRegistered t) (is_prunable pending id v)
            (λ _. remove_validator-IsRegistered s id r) (λ _. r))
    ])

process_unbonding-IsRegistered :
    (m : StakingManager) (height : ℕ)
    → IsRegistered m.store
    → IsRegistered (process_unbonding m height).1.store
unfolding process_unbonding prune_tombstoned_validators drain_mature_unbondings
process_unbonding-IsRegistered m height r =
    prune_ids-IsRegistered _ _ _ (same_validators-IsRegistered m.store _ refl r)

slash_with_evidence-IsRegistered :
    (m : StakingManager) (id : ℕ) (evidence : Bytes) (reason : SlashReason) (height : ℕ)
    → IsBacked m.store
    → IsRegistered m.store
    → IsRegistered (slash_with_evidence m id evidence reason height).1.store
unfolding slash_with_evidence slash_store replace_unbondings
slash_with_evidence-IsRegistered m id evidence reason height b r =
    if_cases Keeps (length evidence == 0) (λ _. r)
      (λ _. known_cases m id _ _ Keeps r (λ v known.
        if_cases Keeps (is_applied evidence v) (λ _. r)
          (λ _.
            let cut = slash_amount (slash_rate m.config reason) v.delegated_stake in
            let below = slash_amount_lt (slash_rate m.config reason) v.delegated_stake in
            same_validators-IsRegistered _ _ refl (
              written-IsRegistered m.store (slash_delegations m.store id cut) id v
                (slashed_state m.config v evidence reason height) r
                (slash_delegations_lem m.store id cut b.distinct below).same known refl refl))))

apply_op-IsRegistered :
    (m : StakingManager) (op : Operation)
    → IsBacked m.store
    → IsRegistered m.store
    → IsRegistered (apply_op m op).store
unfolding apply_op
apply_op-IsRegistered m (register_op id key stake) b r =
    register_validator-IsRegistered m id key stake r
apply_op-IsRegistered m (unregister_op id) b r = unregister_validator-IsRegistered m id r
apply_op-IsRegistered m (delegate_op who id amount) b r = delegate-IsRegistered m who id amount r
apply_op-IsRegistered m (undelegate_op who id amount height) b r =
    undelegate-IsRegistered m who id amount height r
apply_op-IsRegistered m (process_op height) b r = process_unbonding-IsRegistered m height r
apply_op-IsRegistered m (slash_op id evidence reason height) b r =
    slash_with_evidence-IsRegistered m id evidence reason height b r
apply_op-IsRegistered m (unjail_op id height) b r = unjail-IsRegistered m id height r
apply_op-IsRegistered m (increment_op id delta) b r = increment_score-IsRegistered m id delta r
apply_op-IsRegistered m (decrement_op id delta) b r = decrement_score-IsRegistered m id delta r
apply_op-IsRegistered m (reward_op id) b r = reward_proposer-IsRegistered m id r

-- After any sequence of operations, accepted or refused: every validator stands under its own id,
-- its key has 32 bytes, and no two validators have the same key.
pub run_all-IsRegistered :
    (m : StakingManager) (ops : List Operation)
    → All IsWord ops
    → IsBacked m.store
    → IsRegistered m.store
    → IsRegistered (run_all m ops).store
unfolding run_all
run_all-IsRegistered m [] w b r = r
run_all-IsRegistered m (op ∷ ops) w b r =
    run_all-IsRegistered (apply_op m op) ops w.1 (apply_op-IsBacked m op w.0 b)
      (apply_op-IsRegistered m op b r)
