-- ===== src/Pay.antt =====
-- Payments: go/rail/rail.go, from the guards of `Prepare` to the broadcast of an attempt. A refill
-- is prepared by other code, which is not modelled here; it is sent and retried like a payment.
pub mod Quiet
use juice_rail.Base.{
  ℕ, ◌%◌, true, ◌||◌, not, Option, none, some, List, [], ◌∷◌, ◌==◌, if◌then◌else◌,
}
use juice_rail.Base.Int.{ℤ, pos, ◌*ℤ◌, leb_ℤ, ltb_ℤ, or_zero, eqb_ℤ}
use juice_rail.Base.Lists.{Bytes}
use juice_rail.Base.Error.{
  Error, Result, ok, err, bad_input, intent_conflict, in_flight, need_refill, unreconciled,
  insufficient_stablecoin, insufficient_native, fees_above_bound, refuse_if,
}
use juice_rail.Intent.{Intent, kind_transfer, kind_withdraw}
use juice_rail.Policy.{
  PolicyInput, Decision, execute, ask_quote, refill, wait, Reason, need_token, need_native,
  fees_above, no_reason, limits, decide,
}
use juice_rail.Store
use juice_rail.Chain.{balance_of, address_value}
use juice_rail.Check.{check_chain}
use juice_rail.Venue.{token_uint, transfer_calldata}
use juice_rail.Settle.{settled_header, reconcile, settle}
use juice_rail.Fees.{fees}
use juice_rail.Sql.Word.{word}
use juice_rail.Attempt.{gas_limit, submit}
use juice_rail.Machine.{Rail, M, sql, ask, lift, pure, fail, on_option, ◌>>=◌, ◌>>◌}

-- `nextNonce`
unfoldable pub next_nonce : (r : Rail) → M r.chain.Node ℕ
next_nonce r = do
  pending ← ask (r.chain.pending_nonce_at r.address)
  head ← settled_header r
  settled ← ask (r.chain.nonce_at r.address head.number)
  if pending == settled then pure pending else fail unreconciled

-- `simulate`
unfoldable pub simulate : (r : Rail) → ℕ → Bytes → ℕ → M r.chain.Node (Unit {0})
simulate r to payload gas = do
  answer ← ask (
      r.chain.call_contract (record { sender = r.address; to = to; payload = payload; gas = gas })
        none)
  pure tt

-- `record`
unfoldable pub record_payment : (r : Rail) → ℕ → ℕ → ℕ → ℤ → ℕ → M r.chain.Node (Unit {0})
unfolding gas_limit simulate next_nonce transfer_calldata
record_payment r id kind to amount head = do
  payload ← lift (transfer_calldata r.chain to amount)
  simulate r r.domain.token payload (gas_limit r kind)
  nonce ← next_nonce r
  sql (
      Store.put_intent r.address (record {
        id = id;
        kind = kind;
        to = to;
        amount = some amount;
        delta = none;
        nonce = nonce;
        calldata = payload;
        from_block = head % word;
      }))

-- `Balances`
unfoldable pub balances : (r : Rail) → M r.chain.Node (ℤ × ℤ)
unfolding token_uint
balances r = do
  token ← token_uint r.chain none r.domain.token balance_of (address_value r.address ∷ [])
  gas ← ask (r.chain.balance_at r.address none)
  pure (token, gas)

-- `policyInput`
unfoldable pub policy_input : (r : Rail) → ℤ → Option ℤ → M r.chain.Node PolicyInput
unfolding balances
policy_input r cap pending = do
  held ← balances r
  let (payment, swap) = limits r.domain.gas
  pure (record {
    gas = some held.1;
    token = some held.0;
    swap_cost = some (cap *ℤ pos swap);
    quote = none;
    pending_amount = pending;
  })

-- `shortage`
unfoldable pub shortage : Reason → Error
shortage need_token = insufficient_stablecoin
shortage need_native = insufficient_native
shortage fees_above = fees_above_bound
shortage no_reason = bad_input

-- `ready`, the check of the endpoint first.
unfoldable mark_checked : {N : Type 0} → M N (Unit {0})
mark_checked w = (ok tt, record w { chain_checked = true })

unfoldable check_once : (r : Rail) → M r.chain.Node (Unit {0})
unfolding check_chain mark_checked
check_once r w =
    let check = (check_chain r.chain r.domain >> mark_checked) w in
    if w.chain_checked then (ok tt, w) else check

unfoldable none_in_flight : List Intent → Result (Unit {0})
none_in_flight [] = ok tt
none_in_flight (i ∷ rest) = err in_flight

unfoldable pub ready : (r : Rail) → M r.chain.Node (Unit {0})
unfolding check_once none_in_flight
ready r = do
  check_once r
  reconcile r
  settle r
  waiting ← sql (Store.pending r.address)
  lift (none_in_flight waiting)

-- The arguments that `Prepare` refuses.
unfoldable check_terms : ℕ → ℕ → Option ℤ → Result ℤ
check_terms kind to none = err bad_input
check_terms kind to (some amount) =
    if not (kind == kind_transfer || kind == kind_withdraw) || (to == 0 || leb_ℤ amount (pos 0))
    then err bad_input
    else ok amount

-- What the decision on a payment comes to.
unfoldable may_execute : Decision → Result (Unit {0})
may_execute execute = ok tt
may_execute (ask_quote delta) = err need_refill
may_execute (refill delta max_input) = err need_refill
may_execute (wait reason) = err (shortage reason)

-- A payment under an identifier that is not recorded.
unfoldable prepare_new : (r : Rail) → ℕ → ℕ → ℕ → ℤ → M r.chain.Node (Unit {0})
unfolding may_execute shortage policy_input
prepare_new r id kind to amount = do
  ready r
  price ← fees r.chain
  input ← policy_input r price.cap (some amount)
  d ← lift (decide r.domain.gas input)
  lift (may_execute d)
  record_payment r id kind to amount price.head.number

-- A payment under an identifier that is recorded: the terms must be the same.
unfoldable check_recorded : ℕ → ℕ → ℤ → Intent → Result (Unit {0})
check_recorded kind to amount i =
    refuse_if (not (i.kind == kind) || (not (i.to == to) || not (eqb_ℤ (or_zero i.amount) amount)))
      intent_conflict

-- `Prepare`
unfoldable pub prepare : (r : Rail) → ℕ → ℕ → ℕ → Option ℤ → M r.chain.Node (Unit {0})
unfolding check_terms check_recorded prepare_new
prepare r id kind to amount = do
  v ← lift (check_terms kind to amount)
  found ← sql (Store.intent r.address id)
  on_option found (prepare_new r id kind to v) (λ i. lift (check_recorded kind to v i))

-- The reserve must pay for the one transfer.
unfoldable covers : ℤ → ℤ → ℕ → Result (Unit {0})
covers gas cap limit = refuse_if (ltb_ℤ gas (cap *ℤ pos limit)) insufficient_native

-- What a store returns beside `false`, which is not looked at.
abbrev zero_intent : Intent
zero_intent = record {
  id = 0;
  kind = 0;
  to = 0;
  amount = none;
  delta = none;
  nonce = 0;
  calldata = [];
  from_block = 0;
}

unfoldable or_zero_intent : Option Intent → Intent
or_zero_intent none = zero_intent
or_zero_intent (some i) = i

-- `WithdrawAll`
unfoldable pub withdraw_all : (r : Rail) → ℕ → ℕ → M r.chain.Node ℕ
unfolding covers gas_limit or_zero_intent
withdraw_all r id to = do
  lift (refuse_if (to == 0) bad_input)
  ready r
  price ← fees r.chain
  held ← balances r
  lift (refuse_if (leb_ℤ held.0 (pos 0)) bad_input)
  lift (covers held.1 price.cap (gas_limit r kind_withdraw))
  record_payment r id kind_withdraw to held.0 price.head.number
  found ← sql (Store.intent r.address id)
  submit r (or_zero_intent found) (record {
    tx_hash = 0;
    gas = gas_limit r kind_withdraw;
    tip = some price.tip;
    fee_cap = some price.cap;
  })
