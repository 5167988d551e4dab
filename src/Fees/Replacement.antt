-- ===== src/Fees/Replacement.antt =====
-- `bump` and `maxInt` of go/rail/rail.go, as `Retry` uses them.
use juice_rail.Base.{ℕ, ◌+◌, ◌*◌, ◌/◌, ◌≤◌, ◌<◌, ◌≡◌, ◌⊎◌, inl, inr, refl, some, arith}
use native.Mathlib.Decide.{dec_le}
use juice_rail.Base.Int.{pos, div_ℤ, +ℤ_pos, *ℤ_pos}
use juice_rail.Fees.{bump, max_int}

bump_pos : (v : ℕ) → bump (some (pos v)) ≡ pos (v * 9 / 8 + 1)
unfolding bump div_ℤ
bump_pos v = rw (*ℤ_pos, +ℤ_pos)

-- The greater of a suggested fee and the last fee bumped, neither negative, is more than an eighth
-- above the last fee and at least what is suggested. It is what is suggested, or at most an eighth
-- and one above the last fee.
pub retry_fee :
    (suggested v : ℕ)
    → (n : ℕ) × (max_int (some (pos suggested)) (some (bump (some (pos v)))) ≡ pos n)
      × (9 * v < 8 * n)
      × (suggested ≤ n)
      × ((n ≡ suggested) ⊎ (8 * n ≤ 9 * v + 8))
unfolding max_int
retry_fee suggested v = rw bump_pos (elim (dec_le (v * 9 / 8 + 1) suggested) [
  | yes h ↦ (suggested, ground arith, omega arith, omega arith, inl refl)
  | no h ↦ (v * 9 / 8 + 1, ground arith, omega arith, omega arith, inr (omega arith))
])
