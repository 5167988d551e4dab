-- ===== src/Sql/Word.antt =====
-- Go's conversions between `uint64` and `int64`, by which numbers pass through a column.
use juice_rail.Base.{ℕ, ◌-◌, ◌^◌, ◌<◌, ◌≡◌, arith, ltb, if◌then◌else◌}
use juice_rail.Base.Int.{ℤ, pos, negsuc}

abbrev pub word : ℕ
word = 2 ^ 64

-- `int64(x)` of a `uint64`
unfoldable pub int64 : ℕ → ℤ
int64 n = if ltb n 9223372036854775808 then pos n else negsuc (18446744073709551615 - n)

-- `uint64(x)` of an `int64`
unfoldable pub uint64 : ℤ → ℕ
uint64 (pos n) = n
uint64 (negsuc n) = 18446744073709551615 - n

pub uint64-int64 : (n : ℕ) → n < word → uint64 (int64 n) ≡ n
unfolding uint64 int64
uint64-int64 n h = ground arith
