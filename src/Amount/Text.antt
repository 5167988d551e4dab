-- ===== src/Amount/Text.antt =====
-- Laws of the text operations that amounts go through.
use native.Mathlib.Nat.{pow-suc}
use juice_rail.Base.{
  ℕ, zero, suc, ◌+◌, ◌-◌, ◌*◌, ◌^◌, ◌≤◌, ◌<◌, ◌≡◌, refl, ap, ◌∙◌, Bool, true, false, some, [], ◌∷◌,
  ◌++◌, append_assoc, append-nil, arith, ◌==◌, ==_iff, Bool-cases, inl, inr,
}
use juice_rail.Base.Lists.{
  Bytes, length, replicate, All, All-append, length-append, length-replicate,
}
use juice_rail.Base.Decimal.{IsDigit, scan, format, length-format, scan-format, All-format}
use juice_rail.Amount.{
  trim_left, trim_right, trim_cons, cut, all_digits, pad_left, fill_to_two, is_zero_digit,
}

abbrev pub Fails : (ℕ → Bool) → ℕ → Type 0
Fails p c = p c ≡ false

pub trim_left-Fails : (p : ℕ → Bool) (s : Bytes) → All (Fails p) s → trim_left p s ≡ s
unfolding trim_left
trim_left-Fails p [] h = refl
trim_left-Fails p (c ∷ s) h = rw (h.0)

trim_cons_kept : (p : ℕ → Bool) (c : ℕ) (s : Bytes) → p c ≡ false → trim_cons p c s ≡ c ∷ s
unfolding trim_cons
trim_cons_kept p c [] h = rw h
trim_cons_kept p c (d ∷ s) h = refl

pub trim_right-Fails : (p : ℕ → Bool) (s : Bytes) → All (Fails p) s → trim_right p s ≡ s
unfolding trim_right
trim_right-Fails p [] h = refl
trim_right-Fails p (c ∷ s) h = rw (trim_right-Fails p s h.1) (trim_cons_kept p c s h.0)

-- A cut at the first separator gives back both sides.
pub cut-append :
    (sep : ℕ) (s t : Bytes) → All (Fails (λ c. c == sep)) s → cut sep (s ++ sep ∷ t) ≡ (s, t)
unfolding cut
cut-append sep [] t h = ground arith
cut-append sep (c ∷ s) t h = rw (h.0, cut-append sep s t h.1)

pub all_digits-All : (s : Bytes) → All IsDigit s → all_digits s ≡ true
unfolding all_digits
all_digits-All [] h = refl
all_digits-All (c ∷ s) h = rw (h.0) (all_digits-All s h.1)

zeros-IsDigit : (n : ℕ) → All IsDigit (replicate n b'0')
zeros-IsDigit zero = tt
zeros-IsDigit (suc n) = (refl, zeros-IsDigit n)

replicate-append : (m n : ℕ) (c : ℕ) → replicate m c ++ replicate n c ≡ replicate (m + n) c
replicate-append zero n c = ground arith
replicate-append (suc m) n c =
    let e : suc m + n ≡ suc (m + n) = omega arith in rw e (ap (λ s. c ∷ s) (replicate-append m n c))

-- `t` is `s` without some zeros at its end.
abbrev Shortens : Bytes → Bytes → Type 0
Shortens t s = (k : ℕ) × (t ++ replicate k b'0' ≡ s)

trim_cons-Shortens :
    (c : ℕ) (t s : Bytes) → Shortens t s → Shortens (trim_cons is_zero_digit c t) (c ∷ s)
unfolding trim_cons is_zero_digit
trim_cons-Shortens c [] s (k, e) = elim (Bool-cases (c == b'0')) [
  | inl z ↦ (suc k, rw z (rw ((==_iff c b'0').0 z) (ap (λ r. b'0' ∷ r) e)))
  | inr z ↦ (k, rw z (ap (λ r. c ∷ r) e))
]
trim_cons-Shortens c (d ∷ t) s (k, e) = (k, ap (λ r. c ∷ r) e)

-- `TrimRight` takes off zeros only.
pub trim_right-Shortens : (s : Bytes) → Shortens (trim_right is_zero_digit s) s
unfolding trim_right
trim_right-Shortens [] = (0, refl)
trim_right-Shortens (c ∷ s) =
    trim_cons-Shortens c (trim_right is_zero_digit s) s (trim_right-Shortens s)

pub fill_to_two_lem : (s : Bytes) → fill_to_two 2 s ≡ s ++ replicate (2 - length s) b'0'
unfolding fill_to_two
fill_to_two_lem [] = refl
fill_to_two_lem (c ∷ []) = refl
fill_to_two_lem (c ∷ d ∷ s) =
    let e : 2 - suc (suc (length s)) ≡ 0 = omega arith in rw e (ground (arith, append-nil s))

-- Cut down to its significant digits, filled up to two and filled up again, a text of two digits or
-- more is what it was.
pub fill_shortened :
    (s t : Bytes)
    → Shortens t s
    → 2 ≤ length s
    → fill_to_two 2 t ++ replicate (length s - length (fill_to_two 2 t)) b'0' ≡ s
fill_shortened s t (k, e) h =
    let n : length t + k ≡ length s =
      omega
        (arith, ap length e, length-append t (replicate k b'0'), length-replicate {A = ℕ} k b'0') in
    let m : length (t ++ replicate (2 - length t) b'0') ≡ length t + (2 - length t) = omega (
      arith,
      length-append t (replicate (2 - length t) b'0'),
      length-replicate {A = ℕ} (2 - length t) b'0',
    ) in
    let z : 2 - length t + (length s - (length t + (2 - length t))) ≡ k = omega arith in
    rw (fill_to_two_lem t, m, append_assoc, replicate-append, z) e

pub length-fill : (s t : Bytes) → Shortens t s → 2 ≤ length s → length (fill_to_two 2 t) ≤ length s
length-fill s t (k, e) h = rw (fill_to_two_lem t) (
    omega (
      arith,
      ap length e,
      length-append t (replicate k b'0'),
      length-append t (replicate (2 - length t) b'0'),
      length-replicate {A = ℕ} k b'0',
      length-replicate {A = ℕ} (2 - length t) b'0',
    ))

pub scan-append : (s t : Bytes) (n m : ℕ) → scan s n ≡ some m → scan (s ++ t) n ≡ scan t m
unfolding scan
scan-append [] t n m h = ground arith
scan-append (c ∷ s) t n m h = ground (arith, scan-append s t (n * 10 + (c - b'0')) m)

-- Digits in front of which a number `m` has been read count as `m` shifted by their number.
pub scan_shift :
    (s : Bytes) (m n v : ℕ) → scan s n ≡ some v → scan s (m + n) ≡ some (m * 10 ^ length s + v)
unfolding scan
scan_shift [] m n v h = ground arith
scan_shift (c ∷ s) m n v h =
    let e : (m + n) * 10 + (c - b'0') ≡ m * 10 + (n * 10 + (c - b'0')) = omega arith in
    let p : m * 10 ^ suc (length s) ≡ m * 10 * 10 ^ length s =
      rw (pow-suc 10 (length s)) (omega arith) in
    rw (p, e) (ground (arith, scan_shift s (m * 10) (n * 10 + (c - b'0')) v))

scan_zeros : (k : ℕ) (s : Bytes) → scan (replicate k b'0' ++ s) 0 ≡ scan s 0
unfolding scan
scan_zeros zero s = refl
scan_zeros (suc k) s = scan_zeros k s

-- The fraction, padded to `d` digits.
pub length-pad_left : (d n : ℕ) → 0 < d → n < 10 ^ d → length (pad_left d (format n)) ≡ d
unfolding pad_left
length-pad_left zero n h p = absurd (omega arith)
length-pad_left (suc d) n h p = omega (
  arith,
  length-format d n p,
  length-append (replicate (suc d - length (format n)) b'0') (format n),
  length-replicate {A = ℕ} (suc d - length (format n)) b'0',
)

pub scan-pad_left : (d n : ℕ) → scan (pad_left d (format n)) 0 ≡ some n
unfolding pad_left
scan-pad_left d n = scan_zeros (d - length (format n)) (format n) ∙ scan-format n

pub pad_left-IsDigit : (d n : ℕ) → All IsDigit (pad_left d (format n))
unfolding pad_left
pad_left-IsDigit d n =
    All-append IsDigit (replicate (d - length (format n)) b'0') (format n)
      (zeros-IsDigit (d - length (format n))) (All-format n)
