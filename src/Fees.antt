-- ===== src/Fees.antt =====
-- How transactions are priced and fees are raised: `fees`, `bump`, `maxInt` of go/rail/rail.go.
pub mod Replacement
mod Tests
use juice_rail.Base.{Option, none, some, if◌then◌else◌}
use juice_rail.Base.Int.{ℤ, pos, ◌+ℤ◌, ◌*ℤ◌, div_ℤ, eqb_ℤ, leb_ℤ, or_zero}
use juice_rail.Base.Error.{deref}
use juice_rail.Chain.{Chain, Header}
use juice_rail.Machine.{M, ask, lift, pure, ◌>>=◌}

-- `bump`: by an eighth, rounded down, and one.
unfoldable pub bump : Option ℤ → ℤ
bump none = pos 1
bump (some v) = div_ℤ (v *ℤ pos 9) 8 +ℤ pos 1

-- `maxInt`
unfoldable pub max_int : Option ℤ → Option ℤ → ℤ
max_int a b = if leb_ℤ (or_zero b) (or_zero a) then or_zero a else or_zero b

-- No tip, or a tip of nothing, is made one.
unfoldable least_tip : Option ℤ → ℤ
least_tip none = pos 1
least_tip (some v) = if eqb_ℤ v (pos 0) then pos 1 else v

-- The tip, and twice the base fee where there is one.
unfoldable pub fee_cap : ℤ → Option ℤ → ℤ
fee_cap tip none = tip
fee_cap tip (some base) = tip +ℤ base *ℤ pos 2

pub record Price : Type 0 where
  pub head : Header
  pub tip : ℤ
  pub cap : ℤ

-- `fees`. A head that is nil panics where its base fee is read.
unfoldable pub fees : (c : Chain) → M c.Node Price
unfolding least_tip fee_cap
fees c = do
  found ← ask (c.header none)
  suggested ← ask c.suggest_tip
  head ← lift (deref found)
  pure (record {
    head = head;
    tip = least_tip suggested;
    cap = fee_cap (least_tip suggested) head.base_fee;
  })
