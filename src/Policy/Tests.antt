-- ===== src/Policy/Tests.antt =====
-- The theorems on the operating reserve at concrete policies.
use juice_rail.Base.{◌≡◌, refl, ◌↔◌, ◌≤◌, ◌<◌, ◌*◌, ◌+◌, ℕ, some, arith}
use juice_rail.Base.Int.{pos, ◌+ℤ◌, ◌-ℤ◌, ◌*ℤ◌, div_ℤ}
use juice_rail.Base.Error.{ok}
use juice_rail.Policy.{validate, decide, Decision, execute, refill, with_slippage}
use juice_rail.Policy.Valid.{Bounds, policy_validate_iff}
use juice_rail.Policy.Outcomes.{Rule, decide_iff}
use juice_rail.Policy.Refill.{refill_enables, after_refill}
use juice_rail.Policy.Slippage.{with_slippage_exact}
use juice_rail.Samples.{sample_policy, low_reserve}

sample_policy-accepted : validate sample_policy ≡ ok tt
unfolding validate
sample_policy-accepted = refl

low_reserve-refilled : decide sample_policy low_reserve ≡ ok (refill (pos 970) (pos 2_010))
unfolding decide with_slippage ◌+ℤ◌ ◌-ℤ◌ ◌*ℤ◌ div_ℤ
low_reserve-refilled = refl

policy_validate_iff_example : (validate sample_policy ≡ ok tt) ↔ Bounds sample_policy
policy_validate_iff_example = policy_validate_iff sample_policy

decide_iff_example :
    (b : Bounds sample_policy) × ((d : Decision) × (decide sample_policy low_reserve ≡ ok d))
    × ((d : Decision)
        → (decide sample_policy low_reserve ≡ ok d) ↔ Rule sample_policy b low_reserve d)
decide_iff_example = decide_iff sample_policy low_reserve sample_policy-accepted

refill_enables_example :
    decide sample_policy (after_refill low_reserve (pos 970) (pos 50) (pos 1_990)) ≡ ok execute
refill_enables_example =
    refill_enables sample_policy low_reserve (pos 970) (pos 2_010) (pos 50) (pos 1_990)
      sample_policy-accepted low_reserve-refilled (omega arith) (omega arith)

with_slippage_exact_example :
    (m : ℕ) × (with_slippage (some (pos 2_001)) 50 ≡ pos (2_001 + m))
    × (2_001 * 50 ≤ 10_000 * m)
    × (10_000 * m < 2_001 * 50 + 10_000)
    × (m ≤ 2_001)
with_slippage_exact_example = with_slippage_exact 2_001 50 (omega arith)
