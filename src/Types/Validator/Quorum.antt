-- ===== src/Types/Validator/Quorum.antt =====
-- The arithmetic of the quorum threshold.
use hotmint.Base.{u64_limit, ◌+◌, ◌-◌, ◌*◌, ◌≤◌, ◌<◌, ◌≡◌, arith}
use hotmint.Types.Validator.{ValidatorSet, quorum_threshold, max_faulty_power}
use hotmint.Types.Validator.Valid.{IsValid}

-- The threshold is the least number above two thirds of the total power, and it does not wrap.
pub quorum_threshold_lem :
    (s : ValidatorSet)
    → IsValid s
    → (2 * s.total_power < 3 * quorum_threshold s)
      × (3 * (quorum_threshold s - 1) ≤ 2 * s.total_power)
      × (quorum_threshold s < u64_limit)
unfolding quorum_threshold
quorum_threshold_lem s v = omega (arith, v.totalled, v.admissible.bounded)

-- A member set with any power can meet its threshold, and the power it may lose is under a third.
pub max_faulty_power_lem :
    (s : ValidatorSet)
    → IsValid s
    → 0 < s.total_power
    → (quorum_threshold s + max_faulty_power s ≡ s.total_power)
      × (3 * max_faulty_power s < s.total_power)
unfolding quorum_threshold max_faulty_power
max_faulty_power_lem s v p = omega (arith, v.totalled, v.admissible.bounded)
