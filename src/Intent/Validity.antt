-- ===== src/Intent/Validity.antt =====
-- What `Intent.Validate` accepts.
use juice_rail.Base.{
  ℕ, ◌^◌, ◌<◌, ◌≡◌, ◌≢◌, ◌↔◌, ◌⊎◌, inl, inr, refl, Option, none, some, [], ◌∷◌, arith,
}
use juice_rail.Base.Int.{ℤ, pos}
use juice_rail.Base.Error.{ok}
use juice_rail.Intent.{Intent, validate, kind_transfer, kind_withdraw, kind_refill, is_positive}
use juice_rail.Base.{Bool, true, false, ◌==◌}
use juice_rail.Base.Lists.{Bytes}

-- A record that can stand for a transaction: a known kind, a destination, an amount from 1 to
-- 2 ^ 256 - 1, calldata, and for a refill a positive purchase.
pub record IsValid (i : Intent) : Type 0 where
  pub known : (i.kind ≡ kind_transfer) ⊎ ((i.kind ≡ kind_withdraw) ⊎ (i.kind ≡ kind_refill))
  pub destination : i.to ≢ 0
  pub amount : ℕ
  pub amount_set : i.amount ≡ some (pos amount)
  pub amount_positive : 0 < amount
  pub amount_fits : amount < 2 ^ 256
  pub buys : (i.kind ≢ kind_refill) ⊎ ((n : ℕ) × (i.delta ≡ some (pos n)) × (0 < n))
  pub calls : i.calldata ≢ []

pub positive_cases : (o : Option ℤ) → is_positive o ≡ true → (n : ℕ) × (o ≡ some (pos n)) × (0 < n)
positive_cases none h = cc
positive_cases (some (ℤ.pos n)) h = (n, refl, ground arith)
positive_cases (some (ℤ.negsuc n)) h = absurd (ground arith)

delta_cases :
    (i : Intent)
    → validate i ≡ ok tt
    → (k : Bool) → (i.kind == kind_refill) ≡ k
    → (i.kind ≢ kind_refill) ⊎ ((n : ℕ) × (i.delta ≡ some (pos n)) × (0 < n))
unfolding validate
delta_cases i h true e = inr (positive_cases i.delta (ground arith))
delta_cases i h false e = inl (λ z. ground (arith, e))

pub IsValid-validate : (i : Intent) → validate i ≡ ok tt → IsValid i
unfolding validate
IsValid-validate i h =
    let (n, e, p) = positive_cases i.amount (ground arith) in
    record {
      known = ground arith;
      destination = ground arith;
      amount = n;
      amount_set = e;
      amount_positive = p;
      amount_fits = ground (arith, e);
      buys = delta_cases i h (i.kind == kind_refill) refl;
      calls = λ z. ground (arith, z);
    }

validate_of :
    (i : Intent)
    → (i.kind ≢ kind_refill) ⊎ ((n : ℕ) × (i.delta ≡ some (pos n)) × (0 < n))
    → IsValid i
    → (c : Bytes) → i.calldata ≡ c
    → validate i ≡ ok tt
unfolding validate
validate_of i b v [] e = absurd (v.calls e)
validate_of i (inl b) v (x ∷ c) e =
    ground (arith, v.known, v.destination, v.amount_set, v.amount_positive, v.amount_fits)
validate_of i (inr (n, d, p)) v (x ∷ c) e =
    ground (arith, v.known, v.destination, v.amount_set, v.amount_positive, v.amount_fits)

validate-IsValid : (i : Intent) → IsValid i → validate i ≡ ok tt
validate-IsValid i v = validate_of i v.buys v i.calldata refl

-- An intent is accepted exactly when its kind is known, its destination is set, its amount lies
-- between 1 and 2 ^ 256 - 1, a refill buys a positive amount, and there is calldata.
pub intent_validate_iff : (i : Intent) → (validate i ≡ ok tt) ↔ IsValid i
intent_validate_iff i = (IsValid-validate i, validate-IsValid i)
