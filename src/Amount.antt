-- ===== src/Amount.antt =====
-- Amounts as people write them: `parseUnits` and `formatUnits` of go/rail/types.go. A text is the
-- list of its bytes, and is taken to be ASCII, so `TrimSpace` cuts the six ASCII spaces.
pub mod Text
pub mod RoundTrip
pub mod Accepts
mod Tests
use juice_rail.Base.{
  ℕ, zero, suc, ◌-◌, ◌/◌, ◌%◌, ◌^◌, Bool, true, false, not, ◌&&◌, ◌||◌, Option, none, some, [], ◌∷◌,
  ◌++◌, ltb, leb, ◌==◌, if◌then◌else◌,
}
use juice_rail.Base.Int.{ℤ, pos, negsuc, sub_ℕ, or_zero}
use juice_rail.Base.Lists.{Bytes, length, replicate}
use juice_rail.Base.Decimal.{is_digit, print_ℤ, read_ℤ}
use juice_rail.Base.Error.{bad_input, Result, ok, err, ◌>>=◌, ◌>>◌, refuse_if}

unfoldable is_space : ℕ → Bool
is_space c = c == 32 || leb 9 c && leb c 13

unfoldable trim_left : (ℕ → Bool) → Bytes → Bytes
trim_left p [] = []
trim_left p (c ∷ s) = let rest = trim_left p s in if p c then rest else c ∷ s

-- What is left of a byte in front of a trimmed rest.
unfoldable trim_cons : (ℕ → Bool) → ℕ → Bytes → Bytes
trim_cons p c [] = if p c then [] else c ∷ []
trim_cons p c (d ∷ s) = c ∷ d ∷ s

unfoldable trim_right : (ℕ → Bool) → Bytes → Bytes
unfolding trim_cons
trim_right p [] = []
trim_right p (c ∷ s) = trim_cons p c (trim_right p s)

unfoldable pub trim_space : Bytes → Bytes
unfolding is_space trim_left trim_right
trim_space s = trim_right is_space (trim_left is_space s)

-- `strings.Cut`: what stands before the first separator, and after it.
unfoldable cut : ℕ → Bytes → Bytes × Bytes
cut sep [] = ([], [])
cut sep (c ∷ s) = let rest = cut sep s in if c == sep then ([], s) else (c ∷ rest.0, rest.1)

unfoldable all_digits : Bytes → Bool
all_digits [] = true
all_digits (c ∷ s) = is_digit c && all_digits s

unfoldable is_empty : Bytes → Bool
is_empty [] = true
is_empty (c ∷ s) = false

unfoldable or_bad_input : Option ℤ → Result ℤ
or_bad_input none = err bad_input
or_bad_input (some v) = ok v

-- `parseUnits`. `0` stands for an empty whole part.
unfoldable pub parse_units : Bytes → ℕ → Result ℤ
unfolding trim_space cut all_digits is_empty or_bad_input
parse_units s decimals = do
  let text = trim_space s
  refuse_if (is_empty text) bad_input
  let parts = cut b'.' text
  let whole = if is_empty parts.0 then b'0' ∷ [] else parts.0
  let frac = parts.1
  refuse_if (ltb decimals (length frac)) bad_input
  let digits = whole ++ frac ++ replicate (decimals - length frac) b'0'
  refuse_if (not (all_digits digits)) bad_input
  or_bad_input (read_ℤ digits)

-- `QuoRem` rounds towards zero, and the remainder has the sign of the amount.
unfoldable quo_ℤ : ℤ → ℕ → ℤ
quo_ℤ (pos n) d = pos (n / d)
quo_ℤ (negsuc n) d = sub_ℕ 0 (suc n / d)

unfoldable rem_ℤ : ℤ → ℕ → ℤ
rem_ℤ (pos n) d = pos (n % d)
rem_ℤ (negsuc n) d = sub_ℕ 0 (suc n % d)

-- `%0*s`: zeros in front, up to the width.
unfoldable pad_left : ℕ → Bytes → Bytes
pad_left width s = replicate (width - length s) b'0' ++ s

-- `for len(digits) < 2 { digits += "0" }`, which makes two rounds at most.
unfoldable fill_to_two : ℕ → Bytes → Bytes
fill_to_two zero s = s
fill_to_two (suc fuel) s =
    let longer = fill_to_two fuel (s ++ b'0' ∷ []) in if ltb (length s) 2 then longer else s

unfoldable is_zero_digit : ℕ → Bool
is_zero_digit c = c == b'0'

-- `formatUnits`
unfoldable format_units : Option ℤ → ℕ → Bytes
unfolding quo_ℤ rem_ℤ pad_left trim_right is_zero_digit fill_to_two
format_units v decimals =
    let amount = or_zero v in
    let scale = 10 ^ decimals in
    let whole = quo_ℤ amount scale in
    let frac = rem_ℤ amount scale in
    let digits = trim_right is_zero_digit (pad_left decimals (print_ℤ frac)) in
    print_ℤ whole ++ b'.' ∷ fill_to_two 2 digits

abbrev native_decimals : ℕ
native_decimals = 18

-- `FormatNative`
unfoldable pub format_native : Option ℤ → Bytes
unfolding format_units
format_native v = format_units v native_decimals
