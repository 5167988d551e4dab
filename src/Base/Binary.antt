-- ===== src/Base/Binary.antt =====
-- Numbers as big-endian bytes: `SetBytes` and `Bytes` of `big.Int`, and `LeftPadBytes`.
use Prim.Native.Nat.{ℕ, zero, suc, ◌+◌, ◌-◌, ◌*◌, ◌/◌, ◌%◌, ◌^◌, ◌≤◌, ◌<◌}
use mathlib.Core.Path.{◌≡◌, refl, ap, ◌∙◌}
use mathlib.Core.List.{[], ◌∷◌, ◌++◌}
use native.Mathlib.Omega.{arith}
use native.Mathlib.Nat.{pow-suc}
use juice_rail.Base.Tests.{◌==◌, if◌then◌else◌, Bool-cases}
use mathlib.Core.Logic.{inl, inr}
use juice_rail.Base.Lists.{
  Bytes, All, All-append, length, length-append, length-replicate, replicate,
}

-- The number that bytes spell behind `n`, the first byte highest.
unfoldable pub set_bytes : ℕ → Bytes → ℕ
set_bytes n [] = n
set_bytes n (b ∷ s) = set_bytes (n * 256 + b) s

-- The bytes of a number in front of `out`, the last one first. The fuel is above the number.
emit_bytes : ℕ → ℕ → Bytes → Bytes
emit_bytes zero n out = out
emit_bytes (suc f) n out =
    let rest = emit_bytes f (n / 256) ((n % 256) ∷ out) in if n == 0 then out else rest

unfoldable pub to_bytes : ℕ → Bytes
unfolding emit_bytes
to_bytes n = emit_bytes (suc n) n []

unfoldable pub left_pad : ℕ → Bytes → Bytes
left_pad width s = replicate (width - length s) 0 ++ s

set_bytes-emit_bytes :
    (f n : ℕ) (out : Bytes) → n < f → set_bytes 0 (emit_bytes f n out) ≡ set_bytes n out
unfolding set_bytes emit_bytes
set_bytes-emit_bytes zero n out h = absurd (omega arith)
set_bytes-emit_bytes (suc f) n out h = elim (Bool-cases (n == 0)) [
  | inl e ↦ rw e (ap (λ k. set_bytes k out) (ground arith))
  | inr e ↦ rw e (
      set_bytes-emit_bytes f (n / 256) ((n % 256) ∷ out) (ground arith)
      ∙ ap (λ k. set_bytes k out) (omega arith))
]

set_bytes-to_bytes : (n : ℕ) → set_bytes 0 (to_bytes n) ≡ n
unfolding to_bytes
set_bytes-to_bytes n = set_bytes-emit_bytes (suc n) n [] (omega arith) ∙ unfold set_bytes in refl

set_bytes-zeros : (k : ℕ) (s : Bytes) → set_bytes 0 (replicate k 0 ++ s) ≡ set_bytes 0 s
unfolding set_bytes
set_bytes-zeros zero s = refl
set_bytes-zeros (suc k) s = set_bytes-zeros k s

set_bytes-left_pad : (k : ℕ) (s : Bytes) → set_bytes 0 (left_pad k s) ≡ set_bytes 0 s
unfolding left_pad
set_bytes-left_pad k s = set_bytes-zeros (k - length s) s

length-emit_bytes :
    (k f n : ℕ) (out : Bytes) → n < 256 ^ k → length (emit_bytes f n out) ≤ k + length out
unfolding emit_bytes
length-emit_bytes k zero n out h = omega arith
length-emit_bytes zero (suc f) n out h = let z : n ≡ 0 = omega arith in rw z (omega arith)
length-emit_bytes (suc k) (suc f) n out h = elim (Bool-cases (n == 0)) [
  | inl e ↦ rw e (omega arith)
  | inr e ↦ rw e (
      omega
        (arith, length-emit_bytes k f (n / 256) ((n % 256) ∷ out) (omega (arith, pow-suc 256 k))))
]

zeros_long : (n : ℕ) → length (replicate {A = ℕ} n 0) ≡ n
zeros_long n = length-replicate {A = ℕ} n 0

length-to_bytes : (k n : ℕ) → n < 256 ^ k → length (to_bytes n) ≤ k
unfolding to_bytes
length-to_bytes k n h = omega (arith, length-emit_bytes k (suc n) n [] h)

length-left_pad : (k : ℕ) (s : Bytes) → length s ≤ k → length (left_pad k s) ≡ k
unfolding left_pad
length-left_pad k s h =
    omega (arith, length-append (replicate (k - length s) 0) s, zeros_long (k - length s))

-- A 32-byte word.
unfoldable pub word_bytes : ℕ → Bytes
word_bytes n = left_pad 32 (to_bytes n)

pub length-word_bytes : (n : ℕ) → n < 2 ^ 256 → length (word_bytes n) ≡ 32
length-word_bytes n h =
    unfold word_bytes in length-left_pad 32 (to_bytes n) (length-to_bytes 32 n h)

pub set_bytes-word_bytes : (n : ℕ) → set_bytes 0 (word_bytes n) ≡ n
set_bytes-word_bytes n =
    unfold word_bytes in (set_bytes-left_pad 32 (to_bytes n) ∙ set_bytes-to_bytes n)

abbrev pub IsByte : ℕ → Type 0
IsByte b = b < 256

All-emit_bytes : (f n : ℕ) (out : Bytes) → All IsByte out → All IsByte (emit_bytes f n out)
unfolding emit_bytes
All-emit_bytes zero n out a = a
All-emit_bytes (suc f) n out a = elim (Bool-cases (n == 0)) [
  | inl e ↦ rw e a
  | inr e ↦ rw e (All-emit_bytes f (n / 256) ((n % 256) ∷ out) (omega arith, a))
]

All-zeros : (k : ℕ) → All IsByte (replicate k 0)
All-zeros zero = tt
All-zeros (suc k) = (omega arith, All-zeros k)

pub All-word_bytes : (n : ℕ) → All IsByte (word_bytes n)
unfolding word_bytes left_pad to_bytes
All-word_bytes n =
    All-append IsByte (replicate (32 - length (to_bytes n)) 0) (to_bytes n)
      (All-zeros (32 - length (to_bytes n))) (All-emit_bytes (suc n) n [] tt)

-- The 20 bytes of an address.
unfoldable pub address_bytes : ℕ → Bytes
address_bytes n = left_pad 20 (to_bytes n)

pub set_bytes-address_bytes : (n : ℕ) → set_bytes 0 (address_bytes n) ≡ n
set_bytes-address_bytes n =
    unfold address_bytes in (set_bytes-left_pad 20 (to_bytes n) ∙ set_bytes-to_bytes n)

pub All-address_bytes : (n : ℕ) → All IsByte (address_bytes n)
unfolding address_bytes left_pad to_bytes
All-address_bytes n =
    All-append IsByte (replicate (20 - length (to_bytes n)) 0) (to_bytes n)
      (All-zeros (20 - length (to_bytes n))) (All-emit_bytes (suc n) n [] tt)
