-- ===== src/Policy/Refill.antt =====
-- What a decision to refill guarantees: the size of the refill, and what is left after it.
use juice_rail.Base.{◌≡◌, refl, Option, none, some, arith}
use juice_rail.Base.Int.{ℤ, ◌+ℤ◌, ◌-ℤ◌, ◌≤ℤ◌, or_zero, int_laws}
use juice_rail.Base.Error.{ok}
use juice_rail.Policy.{GasPolicy, PolicyInput, execute, refill, validate, with_slippage, decide}
use juice_rail.Policy.Valid.{Bounds, Bounds-validate}

abbrev pub gas_of : PolicyInput → ℤ
gas_of input = or_zero input.gas

abbrev pub token_of : PolicyInput → ℤ
token_of input = or_zero input.token

abbrev pub cost_of : PolicyInput → ℤ
cost_of input = or_zero input.swap_cost

abbrev pub pending_of : PolicyInput → ℤ
pending_of input = or_zero input.pending_amount

-- What is known when a refill of `delta` for at most `max_input` is decided under bounds `b`.
record Funded (p : GasPolicy) (b : Bounds p) (input : PolicyInput) (delta max_input : ℤ)
    : Type 0 where
  pub quote : ℤ
  pub quoted : input.quote ≡ some quote
  pub limit : max_input ≡ with_slippage (some quote) p.slippage_bps
  pub below_min : ¬ (b.min ≤ℤ gas_of input)
  pub cost_bounded : cost_of input ≤ℤ b.bound
  pub cost_payable : cost_of input ≤ℤ gas_of input
  pub fills : delta ≡ b.max -ℤ (gas_of input -ℤ cost_of input)
  pub payment_kept : max_input +ℤ pending_of input ≤ℤ token_of input

module _ (p : GasPolicy) (input : PolicyInput) where
  -- The decision with the policy's bounds read, by cases on the quote.
  decided :
      (b : Bounds p) (delta max_input : ℤ)
      → decide p input ≡ ok (refill delta max_input)
      → (q : Option ℤ) → input.quote ≡ q
      → Funded p b input delta max_input
  unfolding decide
  decided b delta max_input h none e = ground (arith, b.min_set, b.max_set, b.bound_set)
  decided b delta max_input h (some q) e = record {
    quote = q;
    quoted = e;
    limit = ground (arith, b.min_set, b.max_set, b.bound_set);
    below_min = ground (arith, b.min_set, b.max_set, b.bound_set);
    cost_bounded = ground (arith, b.min_set, b.max_set, b.bound_set);
    cost_payable = ground (arith, b.min_set, b.max_set, b.bound_set);
    fills = ground (arith, b.min_set, b.max_set, b.bound_set);
    payment_kept = ground (arith, b.min_set, b.max_set, b.bound_set);
  }

-- A refill that an accepted policy decides on was quoted, is capped by the quote with its slippage,
-- is made only below the minimum and only where its own transaction costs at most the fee bound and
-- at most the reserve, buys exactly what brings the reserve less that cost to the maximum, and
-- leaves the pending payment in stablecoin.
refill-Funded :
    (p : GasPolicy) (input : PolicyInput) (delta max_input : ℤ)
    → validate p ≡ ok tt
    → decide p input ≡ ok (refill delta max_input)
    → (b : Bounds p) × Funded p b input delta max_input
refill-Funded p input delta max_input valid h =
    let b = Bounds-validate p valid in (b, decided p input b delta max_input h input.quote refl)

-- The balances after a refill whose transaction cost `fee` and whose swap took `paid`.
unfoldable pub after_refill : PolicyInput → ℤ → ℤ → ℤ → PolicyInput
after_refill input delta fee paid = record input {
  gas = some (gas_of input -ℤ fee +ℤ delta);
  token = some (token_of input -ℤ paid);
}

execute_when :
    (p : GasPolicy) (b : Bounds p) (input : PolicyInput)
    → pending_of input ≤ℤ token_of input
    → b.min ≤ℤ gas_of input
    → decide p input ≡ ok execute
unfolding decide
execute_when p b input h k = ground (arith, b.min_set)

fills_up :
    (input : PolicyInput) (delta fee max : ℤ)
    → delta ≡ max -ℤ (gas_of input -ℤ cost_of input)
    → fee ≤ℤ cost_of input
    → max ≤ℤ gas_of input -ℤ fee +ℤ delta
fills_up input delta fee max e h = rw e (omega int_laws)

-- One refill is enough. If an accepted policy decides on a refill, and the refill's transaction
-- costs at most what it was reckoned at and its swap takes at most its bound, then the decision for
-- the same payment on the balances afterwards is to send it.
pub refill_enables :
    (p : GasPolicy) (input : PolicyInput) (delta max_input fee paid : ℤ)
    → validate p ≡ ok tt
    → decide p input ≡ ok (refill delta max_input)
    → fee ≤ℤ cost_of input
    → paid ≤ℤ max_input
    → decide p (after_refill input delta fee paid) ≡ ok execute
unfolding after_refill
refill_enables p input delta max_input fee paid valid h cheap within =
    let (b, f) = refill-Funded p input delta max_input valid h in
    let full = fills_up input delta fee b.max f.fills cheap in
    execute_when p b _ (omega (int_laws, f.payment_kept)) (omega (arith, full, b.min_below_max))
