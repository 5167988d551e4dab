-- ===== src/Amount/RoundTrip.antt =====
-- `parseUnits` reads back what `formatUnits` prints, from two decimals on.
use native.Mathlib.Nat.{add-zero, mod-lt, one-le-pow, div-add-mod'}
use mathlib.Core.List.{cons-ne-nil}
use juice_rail.Base.{
  ℕ, zero, suc, ◌+◌, ◌-◌, ◌*◌, ◌/◌, ◌%◌, ◌^◌, ◌≤◌, ◌<◌, ◌≡◌, ◌≢◌, refl, ap, ◌∙◌, false, some, [],
  ◌∷◌, ◌++◌, append_assoc, append-nil, arith, ltb, true, ◌==◌,
}
use juice_rail.Base.Int.{pos}
use juice_rail.Base.Lists.{Bytes, length, replicate, All, All-append}
use juice_rail.Base.Decimal.{
  IsDigit, format, format-ne-nil, All-format, scan-format, print_ℤ, read_ℤ, read_ℤ-parse, scan,
  parse-eq-scan,
}
use juice_rail.Base.Error.{ok}
use juice_rail.Amount.{
  trim_space, is_space, trim_right, is_zero_digit, all_digits, is_empty, pad_left, fill_to_two,
  or_bad_input, parse_units, format_units,
}
use juice_rail.Amount.Text.{
  Fails, trim_left-Fails, trim_right-Fails, cut-append, all_digits-All, trim_right-Shortens,
  fill_shortened, length-fill, scan-append, scan_shift, length-pad_left, scan-pad_left,
  pad_left-IsDigit,
}

-- The decimals that are printed of a fraction `n`.
decimals_text : ℕ → ℕ → Bytes
decimals_text d n = fill_to_two 2 (trim_right is_zero_digit (pad_left d (format n)))

module _ (d n : ℕ) (wide : 2 ≤ d) (fits : n < 10 ^ d) where
  decimals_text_fits : length (decimals_text d n) ≤ d
  unfolding decimals_text
  decimals_text_fits = rw (length-pad_left d n (omega arith) fits) at filled
    where
      filled : length (decimals_text d n) ≤ length (pad_left d (format n))
      filled =
          length-fill (pad_left d (format n)) _ (trim_right-Shortens (pad_left d (format n)))
            (rw (length-pad_left d n (omega arith) fits) wide)

  decimals_text_filled :
      decimals_text d n ++ replicate (d - length (decimals_text d n)) b'0' ≡ pad_left d (format n)
  unfolding decimals_text
  decimals_text_filled = rw (length-pad_left d n (omega arith) fits) at filled
    where
      filled :
          decimals_text d n
            ++ replicate (length (pad_left d (format n)) - length (decimals_text d n)) b'0'
          ≡ pad_left d (format n)
      filled =
          fill_shortened (pad_left d (format n)) _ (trim_right-Shortens (pad_left d (format n)))
            (rw (length-pad_left d n (omega arith) fits) wide)

abbrev NotSpace : ℕ → Type 0
NotSpace = Fails is_space

NotSpace-of_digit : (c : ℕ) → IsDigit c → NotSpace c
unfolding is_space
NotSpace-of_digit c h = ground arith

pub no_dot : (c : ℕ) → IsDigit c → Fails (λ x. x == b'.') c
no_dot c h = ground arith

pub All-map : {P Q : ℕ → Type 0} → ((c : ℕ) → P c → Q c) → (s : Bytes) → All P s → All Q s
All-map f [] h = tt
All-map f (c ∷ s) h = (f c h.0, All-map f s h.1)

pub trim_space-NotSpace : (s : Bytes) → All NotSpace s → trim_space s ≡ s
unfolding trim_space
trim_space-NotSpace s h = rw (trim_left-Fails is_space s h) (trim_right-Fails is_space s h)

pub is_empty_ne : (s t : Bytes) → s ≢ [] → is_empty (s ++ t) ≡ false
unfolding is_empty
is_empty_ne [] t h = absurd (h refl)
is_empty_ne (c ∷ s) t h = refl

pub text_NotSpace :
    (whole frac : Bytes)
    → All IsDigit whole
    → All IsDigit frac
    → All NotSpace (whole ++ b'.' ∷ frac)
unfolding is_space
text_NotSpace whole frac hw hf =
    All-append NotSpace whole (b'.' ∷ frac) (All-map NotSpace-of_digit whole hw)
      (refl, All-map NotSpace-of_digit frac hf)

append-ne-nil : (s t : Bytes) → s ≢ [] → s ++ t ≢ []
append-ne-nil [] t h = absurd (h refl)
append-ne-nil (c ∷ s) t h = cons-ne-nil c (s ++ t)

pub zeros-IsDigit : (n : ℕ) → All IsDigit (replicate n b'0')
zeros-IsDigit zero = tt
zeros-IsDigit (suc n) = (refl, zeros-IsDigit n)

-- A text `whole.frac` of digits is read as the digits of both, filled up with zeros.
parse_units_digits :
    (whole frac : Bytes) (d v : ℕ)
    → All IsDigit whole
    → All IsDigit frac
    → whole ≢ []
    → length frac ≤ d
    → scan (whole ++ frac ++ replicate (d - length frac) b'0') 0 ≡ some v
    → parse_units (whole ++ b'.' ∷ frac) d ≡ ok (pos v)
unfolding parse_units or_bad_input
parse_units_digits whole frac d v hw hf ne fits h =
    let zeros : Bytes = replicate (d - length frac) b'0' in
    let some_whole : is_empty whole ≡ false = rw (append-nil whole) at (is_empty_ne whole [] ne) in
    let in_range : ltb d (length frac) ≡ false = ground arith in
    let digits : all_digits (whole ++ frac ++ zeros) ≡ true =
      all_digits-All (whole ++ frac ++ zeros) (
        All-append IsDigit (whole ++ frac) zeros (All-append IsDigit whole frac hw hf)
          (zeros-IsDigit (d - length frac))) in
    let value : read_ℤ (whole ++ frac ++ zeros) ≡ some (pos v) =
      read_ℤ-parse (whole ++ frac ++ zeros) v (
        parse-eq-scan (whole ++ frac ++ zeros) v h
          (append-ne-nil (whole ++ frac) zeros (append-ne-nil whole frac ne))) in
    rw (
      trim_space-NotSpace (whole ++ b'.' ∷ frac) (text_NotSpace whole frac hw hf),
      is_empty_ne whole (b'.' ∷ frac) ne,
      cut-append b'.' whole frac (All-map no_dot whole hw),
      some_whole,
      in_range,
      digits,
      value,
    )

pub All-left : (P : ℕ → Type 0) (s t : Bytes) → All P (s ++ t) → All P s
All-left P [] t h = tt
All-left P (c ∷ s) t h = (h.0, All-left P s t h.1)

decimals_text-IsDigit : (d n : ℕ) → 2 ≤ d → n < 10 ^ d → All IsDigit (decimals_text d n)
decimals_text-IsDigit d n wide fits =
    All-left IsDigit (decimals_text d n) (replicate (d - length (decimals_text d n)) b'0')
      (rw (decimals_text_filled d n wide fits) (pad_left-IsDigit d n))

-- The whole part in front of the padded fraction.
scan_joined :
    (w d n : ℕ)
    → 0 < d
    → n < 10 ^ d
    → scan (format w ++ pad_left d (format n)) 0 ≡ some (w * 10 ^ d + n)
scan_joined w d n positive fits =
    let shifted : scan (pad_left d (format n)) (w + 0)
        ≡ some (w * 10 ^ length (pad_left d (format n)) + n) =
      scan_shift (pad_left d (format n)) w 0 n (scan-pad_left d n) in
    scan-append (format w) (pad_left d (format n)) 0 w (scan-format w)
    ∙ (rw (add-zero, length-pad_left d n positive fits) at shifted)

printed_value :
    (v d : ℕ)
    → 2 ≤ d
    → v % 10 ^ d < 10 ^ d
    → parse_units (format (v / 10 ^ d) ++ b'.' ∷ decimals_text d (v % 10 ^ d)) d ≡ ok (pos v)
printed_value v d wide fits =
    let n = v % 10 ^ d in
    parse_units_digits (format (v / 10 ^ d)) (decimals_text d n) d v (All-format (v / 10 ^ d))
      (decimals_text-IsDigit d n wide fits) (format-ne-nil (v / 10 ^ d))
      (decimals_text_fits d n wide fits)
      (rw (append_assoc, decimals_text_filled d n wide fits)
        (scan_joined (v / 10 ^ d) d n (omega arith) fits ∙ ap some (div-add-mod' v (10 ^ d))))

-- An amount of at least zero that is printed with `d` decimals, 2 <= d, is read back exactly.
pub parse_units-format_units :
    (v d : ℕ) → 2 ≤ d → parse_units (format_units (some (pos v)) d) d ≡ ok (pos v)
unfolding format_units print_ℤ decimals_text
parse_units-format_units v d wide =
    printed_value v d wide (mod-lt v (one-le-pow d 10 (omega arith)))
