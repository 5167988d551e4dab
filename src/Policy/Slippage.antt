-- ===== src/Policy/Slippage.antt =====
-- `withSlippage` of go/rail/gas.go: the quote and a margin, rounded up.
use juice_rail.Base.{ℕ, ◌+◌, ◌*◌, ◌/◌, ◌≤◌, ◌<◌, ◌≡◌, some, arith}
use juice_rail.Base.Int.{pos, div_ℤ, +ℤ_pos, *ℤ_pos}
use juice_rail.Policy.{with_slippage}

-- On a quote that is not negative the bound is a sum of natural numbers.
with_slippage_pos :
    (q bps : ℕ) → with_slippage (some (pos q)) bps ≡ pos (q + (q * bps + 9_999) / 10_000)
unfolding with_slippage div_ℤ
with_slippage_pos q bps = rw (*ℤ_pos, +ℤ_pos, +ℤ_pos)

at_most_double : (q bps : ℕ) → bps ≤ 10_000 → (q * bps + 9_999) / 10_000 ≤ q
at_most_double q bps h = let e : q * bps ≤ q * 10_000 = grind arith in omega arith

-- For a quote q >= 0 and slippage of s basis points, s at most 10000, the bound is x = q + m, where
-- m is the least number with q * s <= 10000 * m: the margin is the exact share of the quote,
-- rounded up. The bound is at most twice the quote.
pub with_slippage_exact :
    (q bps : ℕ)
    → bps ≤ 10_000
    → (m : ℕ) × (with_slippage (some (pos q)) bps ≡ pos (q + m))
      × (q * bps ≤ 10_000 * m)
      × (10_000 * m < q * bps + 10_000)
      × (m ≤ q)
with_slippage_exact q bps h = (
  (q * bps + 9_999) / 10_000,
  with_slippage_pos q bps,
  omega arith,
  omega arith,
  at_most_double q bps h,
)
