-- ===== src/Amount/Accepts.antt =====
-- What `parseUnits` accepts, and what it refuses of `formatUnits`.
use juice_rail.Base.{
  ℕ, ◌-◌, ◌/◌, ◌%◌, ◌^◌, ◌≤◌, ◌<◌, ◌≡◌, ◌≢◌, inl, inr, true, some, if◌then◌else◌, [], ◌∷◌, ◌++◌,
  ltb, arith, Option-cases,
}
use juice_rail.Base.Int.{ℤ, pos}
use juice_rail.Base.Lists.{
  Bytes, length, replicate, All, All-append, length-append, length-replicate,
}
use juice_rail.Base.Decimal.{IsDigit, format, format-ne-nil, All-format, print_ℤ, read_ℤ, parse}
use juice_rail.Base.Error.{ok, err, bad_input}
use juice_rail.Amount.{
  trim_space, trim_right, is_zero_digit, cut, all_digits, is_empty, pad_left, fill_to_two,
  parse_units, format_units, or_bad_input,
}
use juice_rail.Amount.Text.{cut-append, trim_right-Shortens, pad_left-IsDigit, fill_to_two_lem}
use juice_rail.Amount.RoundTrip.{
  All-left, All-map, trim_space-NotSpace, is_empty_ne, text_NotSpace, zeros-IsDigit, no_dot,
}

-- A text of digits has no sign, so its value is not negative.
read_ℤ-digits :
    (s : Bytes) (v : ℤ)
    → all_digits s ≡ true
    → read_ℤ s ≡ some v
    → (n : ℕ) × (v ≡ pos n) × (parse s ≡ some n)
unfolding read_ℤ all_digits
read_ℤ-digits [] v h e = cc
read_ℤ-digits (c ∷ s) v h e = elim (Option-cases (parse (c ∷ s))) [
  | inl fails ↦ absurd (ground (arith, fails))
  | inr (n, reads) ↦ (n, ground (arith, reads), reads)
]

-- What `parseUnits` takes apart, and puts together.
pub filled : Bytes → ℕ → Bytes
filled s decimals =
    let parts = cut b'.' (trim_space s) in
    (if is_empty parts.0 then b'0' ∷ [] else parts.0)
    ++ parts.1
    ++ replicate (decimals - length parts.1) b'0'

parse_blank :
    (s : Bytes) (decimals : ℕ) → trim_space s ≡ [] → parse_units s decimals ≡ err bad_input
unfolding parse_units is_empty
parse_blank s decimals e = rw e

-- An accepted text is not blank and has at most `decimals` digits behind its point, and its digits
-- on both sides of the point, filled up with zeros, are a decimal number: the amount, which is so
-- never negative.
parse_units_sound :
    (s : Bytes) (decimals : ℕ) (v : ℤ)
    → parse_units s decimals ≡ ok v
    → (trim_space s ≢ [])
      × (length (cut b'.' (trim_space s)).1 ≤ decimals)
      × ((n : ℕ) × (v ≡ pos n) × (parse (filled s decimals) ≡ some n))
unfolding parse_units filled or_bad_input is_empty
parse_units_sound s decimals v h = (
  λ e. cc (h, parse_blank s decimals e),
  ground arith,
  read_ℤ-digits (filled s decimals) v (ground arith) (ground arith),
)

fill_digits : (t : Bytes) → All IsDigit t → All IsDigit (fill_to_two 2 t)
fill_digits t h =
    rw (fill_to_two_lem t)
      (All-append IsDigit t (replicate (2 - length t) b'0') h (zeros-IsDigit (2 - length t)))

two-le-fill : (t : Bytes) → 2 ≤ length (fill_to_two 2 t)
two-le-fill t = rw (fill_to_two_lem t) (
    omega (
      arith,
      length-append t (replicate (2 - length t) b'0'),
      length-replicate {A = ℕ} (2 - length t) b'0',
    ))

refused_text :
    (whole frac : Bytes) (d : ℕ)
    → All IsDigit whole
    → All IsDigit frac
    → whole ≢ []
    → d < length frac
    → parse_units (whole ++ b'.' ∷ frac) d ≡ err bad_input
unfolding parse_units
refused_text whole frac d hw hf ne long =
    let out_of_range : ltb d (length frac) ≡ true = ground arith in
    rw (
      trim_space-NotSpace (whole ++ b'.' ∷ frac) (text_NotSpace whole frac hw hf),
      is_empty_ne whole (b'.' ∷ frac) ne,
      cut-append b'.' whole frac (All-map no_dot whole hw),
      out_of_range,
    )

trimmed_digits : (d n : ℕ) → All IsDigit (trim_right is_zero_digit (pad_left d (format n)))
trimmed_digits d n =
    let (k, e) = trim_right-Shortens (pad_left d (format n)) in
    All-left IsDigit (trim_right is_zero_digit (pad_left d (format n))) (replicate k b'0')
      (rw e (pad_left-IsDigit d n))

-- With one decimal place, which `Domain.Validate` allows, no amount of at least zero that
-- `formatUnits` prints is accepted by `parseUnits`: the print always has two decimals.
pub one_decimal_refused : (v : ℕ) → parse_units (format_units (some (pos v)) 1) 1 ≡ err bad_input
unfolding format_units print_ℤ
one_decimal_refused v =
    refused_text (format (v / 10 ^ 1)) _ 1 (All-format (v / 10 ^ 1))
      (fill_digits _ (trimmed_digits 1 (v % 10 ^ 1))) (format-ne-nil (v / 10 ^ 1))
      (two-le-fill (trim_right is_zero_digit (pad_left 1 (format (v % 10 ^ 1)))))
