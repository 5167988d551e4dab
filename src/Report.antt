-- ===== src/Report.antt =====
-- What a host asks about settled operations: `RefillCost`, `SettledBalances`, `Outcome` and
-- `DepositsScannedTo` of go/rail/status.go.
pub mod Quiet
use juice_rail.Base.{ℕ, ◌%◌, not, Option, none, some, List, [], ◌∷◌, ◌==◌, if◌then◌else◌}
use juice_rail.Base.Int.{ℤ, pos}
use juice_rail.Base.Error.{
  Result, ok, err, plain, bad_input, no_intent, in_flight, unreconciled, refuse_if,
}
use juice_rail.Intent.{Intent, Fact, kind_refill}
use juice_rail.Chain.{Receipt, topic_transfer, balance_of, address_value}
use juice_rail.Logs.{sent_transfer_values}
use juice_rail.Venue.{token_uint}
use juice_rail.Store
use juice_rail.Observed
use juice_rail.Sql.Word.{word}
use juice_rail.Settle.{Status, unknown, pending, confirmed, failed, status, settled_header}
use juice_rail.Machine.{Rail, M, sql, ask, lift, pure, fail, ◌>>=◌, ◌>>◌}

unfoldable found_or : Option Intent → Result Intent
found_or none = err no_intent
found_or (some i) = ok i

-- The transaction that carried a confirmed refill out.
unfoldable carried_by : Option Fact → Result ℕ
carried_by none = err unreconciled
carried_by (some f) = if f.tx_hash == 0 then err unreconciled else ok f.tx_hash

unfoldable receipt_or : Option Receipt → Result Receipt
receipt_or none = err plain
receipt_or (some receipt) = ok receipt

-- Exactly one transfer is expected.
unfoldable one_value : List ℕ → Result ℤ
one_value (n ∷ []) = ok (pos n)
one_value _ = err bad_input

-- What a confirmed refill spent.
unfoldable confirmed_cost : (r : Rail) → ℕ → M r.chain.Node ℤ
unfolding carried_by receipt_or one_value
confirmed_cost r id = do
  f ← sql (Store.fact r.address id)
  hash ← lift (carried_by f)
  found ← ask (r.chain.transaction_receipt hash)
  receipt ← lift (receipt_or found)
  lift (
      one_value
        (sent_transfer_values (topic_transfer r.chain) receipt.logs r.domain.token r.address))

unfoldable cost_by : (r : Rail) → ℕ → Status → M r.chain.Node ℤ
cost_by r id confirmed = confirmed_cost r id
cost_by r id pending = fail in_flight
cost_by r id failed = pure (pos 0)
cost_by r id unknown = fail bad_input

-- `RefillCost`
unfoldable pub refill_cost : (r : Rail) → ℕ → M r.chain.Node ℤ
unfolding found_or cost_by confirmed_cost
refill_cost r id = do
  found ← sql (Store.intent r.address id)
  i ← lift (found_or found)
  lift (refuse_if (not (i.kind == kind_refill)) bad_input)
  s ← status r i
  cost_by r id s

-- `SettledBalances`: the money, the reserve and the block.
unfoldable pub settled_balances : (r : Rail) → M r.chain.Node (ℤ × ℤ × ℕ)
settled_balances r = do
  head ← settled_header r
  token ←
      token_uint r.chain (some head.number) r.domain.token balance_of (address_value r.address ∷ [])
  gas ← ask (r.chain.balance_at r.address (some head.number))
  pure (token, gas, head.number % word)

unfoldable pub recorded_fact : Option Fact → Result (Option Fact)
recorded_fact none = err unreconciled
recorded_fact (some f) = ok (some f)

-- The fact that a status was just derived from.
unfoldable read_fact : (r : Rail) → ℕ → M r.chain.Node (Option Fact)
unfolding recorded_fact
read_fact r id = do f ← sql (Store.fact r.address id); lift (recorded_fact f)

unfoldable outcome_by : (r : Rail) → ℕ → Status → M r.chain.Node (Option Fact)
unfolding read_fact
outcome_by r id pending = pure none
outcome_by r id confirmed = read_fact r id
outcome_by r id failed = read_fact r id
outcome_by r id unknown = read_fact r id

-- `Outcome`: nothing, while the operation may still execute.
unfoldable pub outcome_of : (r : Rail) → ℕ → M r.chain.Node (Option Fact)
unfolding found_or outcome_by
outcome_of r id = do
  found ← sql (Store.intent r.address id)
  i ← lift (found_or found)
  s ← status r i
  outcome_by r id s

-- `DepositsScannedTo`
unfoldable pub deposits_scanned_to : (r : Rail) → M r.chain.Node (Option ℕ)
deposits_scanned_to r = sql (Observed.cursor r.address)
