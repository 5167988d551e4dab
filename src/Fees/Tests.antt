-- ===== src/Fees/Tests.antt =====
-- The theorem on the fee of a retry, at concrete fees.
use juice_rail.Base.{◌≡◌, ◌⊎◌, ◌<◌, ◌≤◌, ◌*◌, ◌+◌, ℕ, some}
use juice_rail.Base.Int.{pos}
use juice_rail.Fees.{bump, max_int}
use juice_rail.Fees.Replacement.{retry_fee}

retry_fee_example :
    (n : ℕ) × (max_int (some (pos 17)) (some (bump (some (pos 16)))) ≡ pos n)
    × (9 * 16 < 8 * n)
    × (17 ≤ n)
    × ((n ≡ 17) ⊎ (8 * n ≤ 9 * 16 + 8))
retry_fee_example = retry_fee 17 16
