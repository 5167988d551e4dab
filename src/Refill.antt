-- ===== src/Refill.antt =====
-- Buying gas, and payments that buy it first: `Refill` and `Pay` of go/rail/rail.go.
pub mod Quiet
use juice_rail.Base.{ℕ, ◌+◌, ◌%◌, Bool, not, Option, some, ◌++◌, ◌==◌}
use juice_rail.Base.Int.{ℤ}
use juice_rail.Base.Lists.{Bytes}
use juice_rail.Base.Binary.{to_bytes, left_pad}
use juice_rail.Base.Error.{Result, ok, err, need_refill, no_refill_needed}
use juice_rail.Intent.{Intent, kind_refill, codes}
use juice_rail.Policy.{PolicyInput, Decision, execute, ask_quote, refill, wait, no_reason, decide}
use juice_rail.Chain.{Chain}
use juice_rail.Venue.{quote_refill, refill_calldata}
use juice_rail.Store
use juice_rail.Sql.Word.{word}
use juice_rail.Fees.{Price, fees}
use juice_rail.Attempt.{gas_limit, submit, send}
use juice_rail.Pay.{ready, policy_input, shortage, simulate, next_nonce, prepare}
use juice_rail.Machine.{Rail, M, sql, lift, pure, fail, caught, ◌>>=◌, ◌>>◌}

-- `refillID`: the hash of a name, the account and the nonce.
unfoldable refill_id : Chain → ℕ → ℕ → ℕ
unfolding to_bytes left_pad
refill_id c account nonce =
    c.keccak
      (codes "juice-rail/refill" ++ (left_pad 20 (to_bytes account) ++ left_pad 8 (to_bytes nonce)))

-- The first decision, and the second one where the first asks for a quote.
unfoldable requote : (r : Rail) → PolicyInput → Decision → M r.chain.Node Decision
requote r input execute = fail no_refill_needed
requote r input (ask_quote delta) = do
  quote ← quote_refill r.chain r.domain (some delta)
  lift (decide r.domain.gas (record input { quote = some quote }))
requote r input (refill delta max_input) = pure (refill delta max_input)
requote r input (wait reason) = pure (wait reason)

-- What is to be bought, and for how much at most.
unfoldable must_refill : Decision → Result (ℤ × ℤ)
must_refill (refill delta max_input) = ok (delta, max_input)
must_refill (wait reason) = err (shortage reason)
must_refill execute = err (shortage no_reason)
must_refill (ask_quote delta) = err (shortage no_reason)

-- `refillWindow`, in seconds
abbrev refill_window : ℕ
refill_window = 3_600

unfoldable refill_intent : Rail → ℤ → ℤ → ℕ → Bytes → ℕ → Intent
unfolding refill_id
refill_intent r delta max_input nonce payload head = record {
  id = refill_id r.chain r.address nonce;
  kind = kind_refill;
  to = r.domain.venue.router;
  amount = some max_input;
  delta = some delta;
  nonce = nonce;
  calldata = payload;
  from_block = head % word;
}

-- The refill that was decided on: it is built, tried, and recorded.
unfoldable record_refill : (r : Rail) → Price → ℤ → ℤ → M r.chain.Node Intent
unfolding refill_intent
record_refill r price delta max_input = do
  payload ←
      refill_calldata r.chain r.domain r.address delta max_input
        ((price.head.time + refill_window) % word)
  simulate r r.domain.venue.router payload (gas_limit r kind_refill)
  nonce ← next_nonce r
  sql (Store.put_intent r.address (refill_intent r delta max_input nonce payload price.head.number))
  pure (refill_intent r delta max_input nonce payload price.head.number)

-- `Refill`, from the reading of the balances to the record.
unfoldable prepare_refill : (r : Rail) → Price → Option ℤ → M r.chain.Node Intent
unfolding requote must_refill record_refill
prepare_refill r price reserve = do
  input ← policy_input r price.cap reserve
  first ← lift (decide r.domain.gas input)
  d ← requote r input first
  bought ← lift (must_refill d)
  record_refill r price bought.0 bought.1

-- `Refill`
unfoldable pub refill_gas : (r : Rail) → Option ℤ → M r.chain.Node (ℕ × ℕ)
unfolding prepare_refill
refill_gas r reserve = do
  ready r
  price ← fees r.chain
  i ← prepare_refill r price reserve
  hash ← submit r i (record {
    tx_hash = 0;
    gas = gas_limit r kind_refill;
    tip = some price.tip;
    fee_cap = some price.cap;
  })
  pure (i.id, hash)

-- `Outcome` of rail.go
pub record Paid : Type 0 where
  pub tx_hash : ℕ
  pub refill_id : ℕ
  pub refill_tx : ℕ

-- `Outcome.Refilled`
unfoldable pub is_refilled : Paid → Bool
is_refilled p = not (p.refill_tx == 0)

-- What `Pay` does once `Prepare` has answered.
unfoldable pub pay_after : (r : Rail) → ℕ → Option ℤ → Result (Unit {0}) → M r.chain.Node Paid
pay_after r id amount (err need_refill) = do
  bought ← refill_gas r amount
  pure (record { tx_hash = 0; refill_id = bought.0; refill_tx = bought.1 })
pay_after r id amount (err e) = fail e
pay_after r id amount (ok u) = do
  hash ← send r id
  pure (record { tx_hash = hash; refill_id = 0; refill_tx = 0 })

-- `Pay`
unfoldable pub pay : (r : Rail) → ℕ → ℕ → ℕ → Option ℤ → M r.chain.Node Paid
unfolding pay_after
pay r id kind to amount = do
  prepared ← caught (prepare r id kind to amount)
  pay_after r id amount prepared
