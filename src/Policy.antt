-- ===== src/Policy.antt =====
-- The operating reserve: `GasPolicy` of go/rail/types.go and the decision of go/rail/gas.go.
-- Amounts are Go's `*big.Int`, an `Option ℤ`. Reading a missing bound of the policy panics in Go,
-- so the decision is a result; the missing amounts of its input are zero, as `orZero` has it.
pub mod Slippage
pub mod Refill
pub mod Outcomes
pub mod Valid
mod Tests
use juice_rail.Base.{ℕ, Option, none, some, ltb, ◌==◌, if◌then◌else◌}
use juice_rail.Base.Int.{ℤ, pos, ◌+ℤ◌, ◌-ℤ◌, ◌*ℤ◌, div_ℤ, ltb_ℤ, leb_ℤ, or_zero}
use juice_rail.Base.Error.{
  Error, bad_input, insufficient_stablecoin, insufficient_native, fees_above_bound, Result, ok, err,
  ◌>>=◌, ◌>>◌, refuse_if, deref,
}

pub record GasPolicy : Type 0 where
  pub min : Option ℤ
  pub max : Option ℤ
  pub slippage_bps : ℕ
  pub fee_bound : Option ℤ
  pub payment_gas : ℕ
  pub swap_gas : ℕ

abbrev default_payment_gas : ℕ
default_payment_gas = 200_000

abbrev default_swap_gas : ℕ
default_swap_gas = 600_000

-- The bounds of a payment and of a refill, zero meaning the default.
unfoldable pub limits : GasPolicy → ℕ × ℕ
limits p = (
  if p.payment_gas == 0 then default_payment_gas else p.payment_gas,
  if p.swap_gas == 0 then default_swap_gas else p.swap_gas,
)

-- `v == nil || v.Sign() <= 0` is refused.
unfoldable pub positive : Option ℤ → Result ℤ
positive none = err bad_input
positive (some v) = if leb_ℤ v (pos 0) then err bad_input else ok v

unfoldable pub present : Option ℤ → Result ℤ
present none = err bad_input
present (some v) = ok v

-- `GasPolicy.Validate`
unfoldable pub validate : GasPolicy → Result (Unit {0})
unfolding positive present
validate p = do
  min ← positive p.min
  max ← present p.max
  refuse_if (leb_ℤ max min) bad_input
  bound ← positive p.fee_bound
  refuse_if (ltb_ℤ min bound) bad_input
  refuse_if (ltb 10_000 p.slippage_bps) bad_input

pub data Reason : Type 0 where
  no_reason need_token need_native fees_above : Reason

-- `Reason.Err`
unfoldable reason_err : Reason → Option Error
reason_err need_token = some insufficient_stablecoin
reason_err need_native = some insufficient_native
reason_err fees_above = some fees_above_bound
reason_err no_reason = none

pub record PolicyInput : Type 0 where
  pub gas : Option ℤ
  pub token : Option ℤ
  pub swap_cost : Option ℤ
  pub quote : Option ℤ
  pub pending_amount : Option ℤ

-- `Decision`, with the fields that each action sets.
pub data Decision : Type 0 where
  execute : Decision
  ask_quote : ℤ → Decision
  refill : ℤ → ℤ → Decision
  wait : Reason → Decision

-- `withSlippage`: the input bound x = q + ceil(q * s / 10000).
unfoldable pub with_slippage : Option ℤ → ℕ → ℤ
with_slippage quote bps = or_zero quote +ℤ div_ℤ (or_zero quote *ℤ pos bps +ℤ pos 9_999) 10_000

-- The last part of `Decide`, from `if in.Quote == nil` on.
unfoldable pub price : Option ℤ → ℕ → ℤ → ℤ → ℤ → Decision
price none bps token pending delta = ask_quote delta
price (some q) bps token pending delta =
    let max_input = with_slippage (some q) bps in
    if ltb_ℤ token (max_input +ℤ pending) then wait need_token else refill delta max_input

-- `Decide`
unfoldable pub decide : GasPolicy → PolicyInput → Result Decision
unfolding price
decide p input =
    let gas = or_zero input.gas in
    let token = or_zero input.token in
    let swap_cost = or_zero input.swap_cost in
    let pending = or_zero input.pending_amount in
    if ltb_ℤ token pending then ok (wait need_token) else do
      min ← deref p.min
      if leb_ℤ min gas then ok execute else do
        bound ← deref p.fee_bound
        if ltb_ℤ bound swap_cost
            then ok (wait fees_above)
            else if ltb_ℤ gas swap_cost
            then ok (wait need_native)
            else do
              max ← deref p.max
              ok (price input.quote p.slippage_bps token pending (max -ℤ (gas -ℤ swap_cost)))
