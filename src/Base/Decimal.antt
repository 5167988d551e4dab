-- ===== src/Base/Decimal.antt =====
-- Decimal text, as `big.Int` prints and reads it: `String` and `SetString(s, 10)`.
use Prim.Native.Nat.{ℕ, zero, suc, ◌+◌, ◌-◌, ◌*◌, ◌/◌, ◌%◌, ◌^◌, ◌≤◌, ◌<◌}
use mathlib.Core.Path.{◌≡◌, refl, sym, ap, ◌∙◌}
use mathlib.Core.List.{[], ◌∷◌, cons-ne-nil}
use mathlib.Core.Logic.{◌≢◌, ◌⊎◌, inl, inr}
use mathlib.Core.Option
use mathlib.Core.Option.{Option, none, some}
use mathlib.Core.Bool.{Bool, true, false}
use native.Mathlib.Omega.{arith}
use native.Mathlib.Nat.{pow-suc}
use juice_rail.Base.Tests.{ltb, leb, ◌==◌, if◌then◌else◌, Bool-cases}
use juice_rail.Base.Lists.{Bytes, length, All}
use juice_rail.Base.Int.{ℤ, pos, negsuc, sub_ℕ}

abbrev pub is_digit : ℕ → Bool
is_digit c = elim (ltb c b'0') [ true ↦ false | false ↦ leb c b'9' ]

-- Digits in front of `out`, the last one first. The fuel is above the number.
emit : ℕ → ℕ → Bytes → Bytes
emit zero n out = out
emit (suc f) n out =
    let rest = emit f (n / 10) ((b'0' + n % 10) ∷ out) in
    if ltb n 10 then (b'0' + n % 10) ∷ out else rest

unfoldable pub format : ℕ → Bytes
unfolding emit
format n = emit (suc n) n []

unfoldable pub scan : Bytes → ℕ → Option ℕ
scan [] n = some n
scan (c ∷ s) n = let rest = scan s (n * 10 + (c - b'0')) in if is_digit c then rest else none

unfoldable pub parse : Bytes → Option ℕ
unfolding scan
parse [] = none
parse (c ∷ s) = scan (c ∷ s) 0

unfoldable pub print_ℤ : ℤ → Bytes
unfolding format
print_ℤ (pos n) = format n
print_ℤ (negsuc n) = b'-' ∷ format (suc n)

-- One sign may stand in front.
unfoldable pub read_ℤ : Bytes → Option ℤ
unfolding parse
read_ℤ [] = none
read_ℤ (c ∷ s) =
    if c == b'-'
    then Option.map (λ n. sub_ℕ 0 n) (parse s)
    else if c == b'+'
    then Option.map pos (parse s)
    else Option.map pos (parse (c ∷ s))

scan-emit : (f n : ℕ) (out : Bytes) → n < f → scan (emit f n out) 0 ≡ scan out n
unfolding emit scan
scan-emit zero n out h = absurd (omega arith)
scan-emit (suc f) n out h = ground (arith, scan-emit f (n / 10) ((b'0' + n % 10) ∷ out))

pub scan-format : (n : ℕ) → scan (format n) 0 ≡ some n
unfolding format scan
scan-format n = scan-emit (suc n) n [] (omega arith)

abbrev pub IsDigit : ℕ → Type 0
IsDigit c = is_digit c ≡ true

All-emit : (f n : ℕ) (out : Bytes) → All IsDigit out → All IsDigit (emit f n out)
unfolding emit
All-emit zero n out h = h
All-emit (suc f) n out h = elim (Bool-cases (ltb n 10)) [
  | inl small ↦ rw small (ground arith, h)
  | inr large ↦ rw large (All-emit f (n / 10) ((b'0' + n % 10) ∷ out) (ground arith, h))
]

pub All-format : (n : ℕ) → All IsDigit (format n)
unfolding format
All-format n = All-emit (suc n) n [] tt

-- A number below 10 ^ (k + 1) has at most k + 1 digits.
length-emit :
    (k f n : ℕ) (out : Bytes) → n < f → n < 10 ^ suc k → length (emit f n out) ≤ suc k + length out
unfolding emit
length-emit k zero n out h p = absurd (omega arith)
length-emit zero (suc f) n out h p = elim (Bool-cases (ltb n 10)) [
  | inl small ↦ rw small (omega arith)
  | inr large ↦ absurd (ground (arith, large))
]
length-emit (suc k) (suc f) n out h p = elim (Bool-cases (ltb n 10)) [
  | inl small ↦ rw small (omega arith)
  | inr large ↦ rw large (
      omega (
        arith,
        length-emit k f (n / 10) ((b'0' + n % 10) ∷ out) (ground arith)
            (omega (arith, pow-suc 10 (suc k))),
      ))
]

pub length-format : (k n : ℕ) → n < 10 ^ suc k → length (format n) ≤ suc k
unfolding format
length-format k n p = omega (arith, length-emit k (suc n) n [] (omega arith) p)

pub parse-eq-scan : (s : Bytes) (n : ℕ) → scan s 0 ≡ some n → s ≢ [] → parse s ≡ some n
unfolding parse
parse-eq-scan [] n h e = absurd (e refl)
parse-eq-scan (c ∷ s) n h e = h

-- What is read as a bare number is read as that number with a sign allowed.
pub read_ℤ-parse : (s : Bytes) (n : ℕ) → parse s ≡ some n → read_ℤ s ≡ some (pos n)
unfolding read_ℤ parse scan
read_ℤ-parse [] n h = cc
read_ℤ-parse (c ∷ s) n h = ground arith

emit-ne-nil : (f n : ℕ) (out : Bytes) → (out ≢ []) ⊎ (0 < f) → emit f n out ≢ []
unfolding emit
emit-ne-nil zero n out (inl h) = h
emit-ne-nil zero n out (inr h) = absurd (omega arith)
emit-ne-nil (suc f) n out h = elim (Bool-cases (ltb n 10)) [
  | inl small ↦ rw small (cons-ne-nil _ _)
  | inr large ↦ rw large (emit-ne-nil f (n / 10) ((b'0' + n % 10) ∷ out) (inl (cons-ne-nil _ _)))
]

pub format-ne-nil : (n : ℕ) → format n ≢ []
unfolding format
format-ne-nil n = emit-ne-nil (suc n) n [] (inr (omega arith))

parse-format : (n : ℕ) → parse (format n) ≡ some n
parse-format n = parse-eq-scan (format n) n (scan-format n) (format-ne-nil n)

-- Every integer is read back from its text.
pub read_ℤ-print_ℤ : (z : ℤ) → read_ℤ (print_ℤ z) ≡ some z
unfolding print_ℤ
read_ℤ-print_ℤ (pos n) = read_ℤ-parse (format n) n (parse-format n)
read_ℤ-print_ℤ (negsuc n) = unfold read_ℤ in rw (parse-format (suc n)) (ground arith)

pub format-injective : (m n : ℕ) → format m ≡ format n → m ≡ n
format-injective m n h =
    let same : some m ≡ some n = sym (scan-format m) ∙ ap (λ s. scan s 0) h ∙ scan-format n in cc
