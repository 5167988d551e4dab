-- ===== src/Base/Lists.antt =====
-- Lists measured by native numbers, under the library's names.
use Prim.Native.Nat.{ℕ, zero, suc, ◌+◌}
use mathlib.Core.Path.{◌≡◌, refl, sym, ap, ◌∙◌}
use mathlib.Core.List.{List, [], ◌∷◌, ◌++◌, append_assoc, append-nil, reverse, reverse-cons}
use mathlib.Core.Path.{subst}
use mathlib.Core.Logic.{◌⊎◌, inl, inr}
use mathlib.Core.Option.{Option, none, some}
use mathlib.Core.Bool.{Bool, true, false, ◌&&◌}
use native.Mathlib.Omega.{arith}
use juice_rail.Base.Tests.{◌==◌, ==_refl, if◌then◌else◌}

abbrev pub Bytes : Type 0
Bytes = List ℕ

module _ {ℓ} {A : Type ℓ} where
  abbrev pub length : List A → ℕ
  length [] = 0
  length (x ∷ xs) = suc (length xs)

  abbrev pub take : ℕ → List A → List A
  take zero xs = []
  take (suc n) [] = []
  take (suc n) (x ∷ xs) = x ∷ take n xs

  abbrev pub drop : ℕ → List A → List A
  drop zero xs = xs
  drop (suc n) [] = []
  drop (suc n) (x ∷ xs) = drop n xs

  abbrev pub replicate : ℕ → A → List A
  replicate zero a = []
  replicate (suc n) a = a ∷ replicate n a

  abbrev pub get_or : List A → ℕ → A → A
  get_or [] i d = d
  get_or (x ∷ xs) zero d = x
  get_or (x ∷ xs) (suc i) d = get_or xs i d

  pub length-append : (xs ys : List A) → length (xs ++ ys) ≡ length xs + length ys
  length-append [] ys = omega arith
  length-append (x ∷ xs) ys = omega (arith, length-append xs ys)

  pub length-replicate : (n : ℕ) (a : A) → length (replicate n a) ≡ n
  length-replicate zero a = refl
  length-replicate (suc n) a = ap suc (length-replicate n a)

  -- The first element that passes a test, and all that do.
  abbrev pub find : (A → Bool) → List A → Option A
  find p [] = none
  find p (x ∷ xs) = if p x then some x else find p xs

  abbrev pub select : (A → Bool) → List A → List A
  select p [] = []
  select p (x ∷ xs) = let rest = select p xs in if p x then x ∷ rest else rest

  abbrev pub last? : List A → Option A
  last? [] = none
  last? (x ∷ []) = some x
  last? (x ∷ y ∷ xs) = last? (y ∷ xs)

  module _ {κ} (P : A → Type κ) where
    abbrev pub All : List A → Type κ
    All [] = Unit
    All (x ∷ xs) = P x × All xs

    pub All-append : (xs ys : List A) → All xs → All ys → All (xs ++ ys)
    All-append [] ys hx hy = hy
    All-append (x ∷ xs) ys hx hy = (hx.0, All-append xs ys hx.1 hy)

module _ {ℓ} {A : Type ℓ} (P : A → Type 0) where
  -- One of the elements has the property.
  abbrev pub Any : List A → Type 0
  Any [] = ⊥
  Any (x ∷ xs) = P x ⊎ Any xs

  pub Any-concat : (xs : List A) (x : A) → P x → Any (xs ++ x ∷ [])
  Any-concat [] x h = inl h
  Any-concat (y ∷ xs) x h = inr (Any-concat xs x h)

  Any-parts : (xs ys : List A) → Any (xs ++ ys) → Any xs ⊎ Any ys
  Any-parts [] ys h = inr h
  Any-parts (x ∷ xs) ys (inl h) = inl (inl h)
  Any-parts (x ∷ xs) ys (inr h) = elim (Any-parts xs ys h) [
    | inl there ↦ inl (inr there)
    | inr there ↦ inr there
  ]

  pub Any-reverse : (xs : List A) → Any (reverse xs) → Any xs
  Any-reverse [] h = h
  Any-reverse (x ∷ xs) h =
      elim (Any-parts (reverse xs) (x ∷ []) (subst Any (reverse-cons x xs) h)) [
        | inl there ↦ inr (Any-reverse xs there)
        | inr (inl here) ↦ inl here
        | inr (inr nowhere) ↦ absurd nowhere
      ]

abbrev pub eq_bytes : Bytes → Bytes → Bool
eq_bytes [] [] = true
eq_bytes (x ∷ xs) (y ∷ ys) = (x == y) && eq_bytes xs ys
eq_bytes _ _ = false

pub eq_bytes_refl : (s : Bytes) → eq_bytes s s ≡ true
eq_bytes_refl [] = refl
eq_bytes_refl (c ∷ s) = rw (==_refl c, eq_bytes_refl s)

pub eq_of_eq_bytes : (s t : Bytes) → eq_bytes s t ≡ true → s ≡ t
eq_of_eq_bytes [] [] h = refl
eq_of_eq_bytes [] (d ∷ t) h = cc
eq_of_eq_bytes (c ∷ s) [] h = cc
eq_of_eq_bytes (c ∷ s) (d ∷ t) h =
    let e : c ≡ d = ground arith in let k : s ≡ t = eq_of_eq_bytes s t (ground arith) in rw (e, k)

pub some-injective {ℓ} : {A : Type ℓ} {a b : A} → some a ≡ some b → a ≡ b
some-injective h = cc

module _ {ℓ} {A : Type ℓ} where
  -- A list that has come to be longer at its end.
  abbrev pub Grows : List A → List A → Type ℓ
  Grows old new = (more : List A) × (new ≡ old ++ more)

  pub Grows-refl : (xs : List A) → Grows xs xs
  Grows-refl xs = ([], sym (append-nil xs))

  pub Grows-trans : (xs ys zs : List A) → Grows xs ys → Grows ys zs → Grows xs zs
  Grows-trans xs ys zs (p, e) (q, f) = (p ++ q, f ∙ ap (λ rows. rows ++ q) e ∙ append_assoc xs p q)

  find-append :
      (p : A → Bool) (xs more : List A) {x : A} → find p xs ≡ some x → find p (xs ++ more) ≡ some x
  find-append p [] more h = cc
  find-append p (y ∷ xs) more {x} h = ground (arith, find-append p xs more {x = x})

  -- What was found first is found first.
  pub find-Grows :
      (p : A → Bool) (xs ys : List A) {x : A}
      → Grows xs ys
      → find p xs ≡ some x
      → find p ys ≡ some x
  find-Grows p xs ys {x} (more, e) h = rw e (find-append p xs more h)
