-- ===== src/Base/Error.antt =====
-- Go's `(value, error)` results. The sentinels are those of go/rail/types.go; an error is told
-- apart by `errors.Is` alone, so what a message adds to a sentinel is left out.
use mathlib.Core.Path.{◌≡◌, refl}
use mathlib.Core.Bool.{Bool, true, false}
use mathlib.Core.Option.{Option, none, some}
use juice_rail.Base.Lists.{Bytes}

-- `node` is an error of a chain endpoint, with the text of it; `storage` an error of the database;
-- `plain` an error that this code makes and that wraps no sentinel; `panics` a nil dereference.
pub data Error : Type 0 where
  bad_input intent_conflict no_intent wrong_domain in_flight need_refill no_refill_needed : Error
  insufficient_stablecoin insufficient_native fees_above_bound unreconciled : Error
  not_found storage plain panics : Error
  node : Bytes → Error

pub data Result {ℓ} (A : Type ℓ) : Type ℓ where
  ok : A → Result A
  err : Error → Result A

module _ {ℓ κ} {A : Type ℓ} {B : Type κ} where
  -- What follows a call, unless the call returned an error.
  infixl 5 ◌>>=◌
  abbrev pub ◌>>=◌ : Result A → (A → Result B) → Result B
  err failed >>= next = err failed
  ok value >>= next = next value

module _ {ℓ} {B : Type ℓ} where
  infixl 5 ◌>>◌
  abbrev pub ◌>>◌ : Result (Unit {0}) → Result B → Result B
  first >> second = first >>= λ u. second

-- `if b { return e }`
abbrev pub refuse_if : Bool → Error → Result (Unit {0})
refuse_if true e = err e
refuse_if false e = ok tt

-- A read through a pointer.
abbrev pub deref {ℓ} : {A : Type ℓ} → Option A → Result A
deref none = err panics
deref (some a) = ok a

pub ok-injective {ℓ} : {A : Type ℓ} {a b : A} → ok a ≡ ok b → a ≡ b
ok-injective h = cc

-- A chain that succeeds has succeeded at its first call.
module _ {ℓ κ} {A : Type ℓ} {B : Type κ} {result : B} where
  pub chained :
      (first : Result A) (next : A → Result B)
      → (first >>= next) ≡ ok result
      → (value : A) × (first ≡ ok value) × (next value ≡ ok result)
  chained (err failed) next done = cc
  chained (ok value) next done = (value, refl, done)
