-- ===== src/Policy/Valid.antt =====
-- What `GasPolicy.Validate` accepts.
use juice_rail.Base.{◌≤◌, ◌≡◌, Option, none, some, ◌↔◌, arith}
use juice_rail.Base.Int.{ℤ, pos, ◌≤ℤ◌}
use juice_rail.Base.Error.{ok}
use juice_rail.Policy.{GasPolicy, validate}

-- The bounds of an accepted policy: 0 < bound <= min < max, and slippage of at most the price.
pub record Bounds (p : GasPolicy) : Type 0 where
  pub min : ℤ
  pub max : ℤ
  pub bound : ℤ
  pub min_set : p.min ≡ some min
  pub max_set : p.max ≡ some max
  pub bound_set : p.fee_bound ≡ some bound
  pub bound_positive : pos 1 ≤ℤ bound
  pub bound_fits : bound ≤ℤ min
  pub min_below_max : ¬ (max ≤ℤ min)
  pub slippage_fits : p.slippage_bps ≤ 10_000

Bounds-of :
    (p : GasPolicy) (min max bound : Option ℤ)
    → p.min ≡ min
    → p.max ≡ max
    → p.fee_bound ≡ bound
    → validate p ≡ ok tt
    → Bounds p
unfolding validate
Bounds-of p none max bound a b c h = ground arith
Bounds-of p (some m) none bound a b c h = ground arith
Bounds-of p (some m) (some x) none a b c h = ground arith
Bounds-of p (some m) (some x) (some f) a b c h = record {
  min = m;
  max = x;
  bound = f;
  min_set = a;
  max_set = b;
  bound_set = c;
  bound_positive = ground arith;
  bound_fits = ground arith;
  min_below_max = ground arith;
  slippage_fits = ground arith;
}

pub Bounds-validate : (p : GasPolicy) → validate p ≡ ok tt → Bounds p
Bounds-validate p h =
    Bounds-of p p.min p.max p.fee_bound (λ i. p.min) (λ i. p.max) (λ i. p.fee_bound) h

pub validate-Bounds : (p : GasPolicy) → Bounds p → validate p ≡ ok tt
unfolding validate
validate-Bounds p b = ground (arith, b.min_set, b.max_set, b.bound_set)

-- A policy is accepted exactly when its three amounts are there, the fee bound is positive and at
-- most the minimum, the minimum is below the maximum, and the slippage is at most 10000.
pub policy_validate_iff : (p : GasPolicy) → (validate p ≡ ok tt) ↔ Bounds p
policy_validate_iff p = (Bounds-validate p, validate-Bounds p)
