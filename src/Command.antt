-- ===== src/Command.antt =====
-- The commands of cmd/railctl/main.go on an open account. What a command prints is a value here, before it
-- is formatted as text or JSON.
pub mod Moves
pub mod Steps
pub mod Open
pub mod Session
mod Tests
use juice_rail.Base.{
  ℕ, Bool, not, ◌&&◌, ◌||◌, Option, none, some, List, [], ◌∷◌, ◌==◌, if◌then◌else◌,
}
use juice_rail.Base.Int.{ℤ}
use juice_rail.Base.Lists.{Bytes, eq_bytes}
use juice_rail.Base.Error.{plain}
use juice_rail.Intent.{Intent, Fact, Deposit, kind_transfer, kind_withdraw, kind_refill, codes}
use juice_rail.Ident.{parse_id}
use juice_rail.Keys.{Eth, parse_address}
use juice_rail.Amount.{parse_units}
use juice_rail.Store
use juice_rail.Machine.{Rail, M, sql, lift, pure, fail, ◌>>=◌}
use juice_rail.Settle.{Status, unknown, status_of}
use juice_rail.Attempt.{send, retry}
use juice_rail.Pay.{balances, prepare, withdraw_all}
use juice_rail.Refill.{Paid, is_refilled, pay}
use juice_rail.Report.{settled_balances, refill_cost, outcome_of, deposits_scanned_to}
use juice_rail.Observed
use juice_rail.Scan.{Scanned, scan_deposits}

-- The flags that a payment depends on, the rail, and what go-ethereum makes of an address.
pub record App : Type 1 where
  pub rail : Rail
  pub halt_after : Bytes
  pub no_refill : Bool
  pub eth : Eth

-- `validHaltPoint`
unfoldable valid_halt_point : Bytes → Bool
valid_halt_point s = eq_bytes s [] || (eq_bytes s (codes "intent") || eq_bytes s (codes "submit"))

pub data Note : Type 0 where
  intent_recorded already_settled nothing_to_retry : Note
  submitted_as resubmitted_as : ℕ → Note

pub data Output : Type 0 where
  account_shown : ℕ → Output
  balance_shown : ℤ × ℤ → ℤ × ℤ × ℕ → Output
  refill_started : (refill tx : ℕ) → Output
  attempt_shown : (id tx : ℕ) → Output
  reported : (id : ℕ) → Status → Note → Output
  deposits_shown : List Deposit → (reached : ℕ) → Output
  detailed : (id : ℕ) → Status → Option (Fact × Option ℤ) → Output

-- A cursor that is not there is 0.
abbrev or_start : Option ℕ → ℕ
or_start none = 0
or_start (some block) = block

-- `submitted`
unfoldable submitted : ℕ → Note
submitted hash = if hash == 0 then already_settled else submitted_as hash

-- `report`
unfoldable report : (r : Rail) → ℕ → Note → M r.chain.Node Output
report r id note = do s ← status_of r id; pure (reported id s note)

module _ (a : App) where
  -- The rest of `steps`, once the hash is there.
  unfoldable after_send : ℕ → ℕ → M a.rail.chain.Node Output
  unfolding report submitted
  after_send id hash =
      if eq_bytes a.halt_after (codes "submit")
      then pure (attempt_shown id hash)
      else report a.rail id (submitted hash)

  unfoldable after_prepare : ℕ → M a.rail.chain.Node Output
  unfolding after_send
  after_prepare id =
      if eq_bytes a.halt_after (codes "intent")
      then report a.rail id intent_recorded
      else send a.rail id >>= λ hash. after_send id hash

  -- `steps`
  unfoldable steps : ℕ → ℕ → ℕ → Option ℤ → M a.rail.chain.Node Output
  unfolding after_prepare
  steps id kind to amount = do u ← prepare a.rail id kind to amount; after_prepare id

  unfoldable after_pay : ℕ → Paid → M a.rail.chain.Node Output
  unfolding submitted
  after_pay id out =
      if is_refilled out
      then pure (refill_started out.refill_id out.refill_tx)
      else report a.rail id (submitted out.tx_hash)

  -- `pay`, of a payment that is read
  unfoldable pay_amount : ℕ → ℕ → ℕ → Option ℤ → M a.rail.chain.Node Output
  unfolding after_pay
  pay_amount id kind to amount =
      if not (eq_bytes a.halt_after []) || a.no_refill
      then steps id kind to amount
      else pay a.rail id kind to amount >>= λ out. after_pay id out

  unfoldable withdraw_everything : ℕ → ℕ → M a.rail.chain.Node Output
  withdraw_everything id to = do hash ← withdraw_all a.rail id to; report a.rail id (submitted hash)

  -- `pay`
  unfoldable pay_command : ℕ → List Bytes → M a.rail.chain.Node Output
  unfolding withdraw_everything pay_amount
  pay_command kind (first ∷ second ∷ third ∷ []) = do
    id ← lift (parse_id first)
    to ← lift (parse_address a.eth second)
    if kind == kind_withdraw && eq_bytes third (codes "all")
        then withdraw_everything id to
        else (lift (parse_units third a.rail.domain.decimals) >>= λ amount.
            pay_amount id kind to (some amount))
  pay_command kind _ = fail plain

  unfoldable retry_note : ℕ → Note
  retry_note hash = if hash == 0 then nothing_to_retry else resubmitted_as hash

  -- `retry`
  unfoldable retry_command : List Bytes → M a.rail.chain.Node Output
  unfolding retry_note report
  retry_command (text ∷ []) = do
    id ← lift (parse_id text)
    hash ← retry a.rail id
    report a.rail id (retry_note hash)
  retry_command _ = fail plain

  -- `refillCost`
  unfoldable pub cost_of : ℕ → Fact → Option Intent → M a.rail.chain.Node (Option ℤ)
  cost_of id f none = pure none
  cost_of id f (some i) =
      if not (i.kind == kind_refill) || not f.executed
      then pure none
      else refill_cost a.rail id >>= λ cost. pure (some cost)

  unfoldable with_cost : ℕ → Status → Option Fact → M a.rail.chain.Node Output
  unfolding cost_of
  with_cost id s none = pure (detailed id s none)
  with_cost id s (some f) = do
    i ← sql (Store.intent a.rail.address id)
    cost ← cost_of id f i
    pure (detailed id s (some (f, cost)))

  unfoldable details_of : ℕ → Status → M a.rail.chain.Node Output
  unfolding with_cost
  details_of id unknown = pure (detailed id unknown none)
  details_of id s = outcome_of a.rail id >>= λ f. with_cost id s f

  -- `status`
  unfoldable status_command : List Bytes → M a.rail.chain.Node Output
  unfolding details_of
  status_command (text ∷ []) = do
    id ← lift (parse_id text)
    s ← status_of a.rail id
    details_of id s
  status_command _ = fail plain

  -- `balance`
  unfoldable balance_command : M a.rail.chain.Node Output
  balance_command = do
    now ← balances a.rail
    settled ← settled_balances a.rail
    pure (balance_shown now settled)

  unfoldable list_deposits : Option Scanned → M a.rail.chain.Node (Option Output)
  list_deposits none = pure none
  list_deposits (some s) = do
    u ← lift s.ended
    all ← sql (Observed.deposits a.rail.address)
    reached ← deposits_scanned_to a.rail
    pure (some (deposits_shown all (or_start reached)))

  -- `deposits`, with the fuel of its scan. `none` says that the scan has no end.
  unfoldable deposits_command : ℕ → M a.rail.chain.Node (Option Output)
  unfolding list_deposits
  deposits_command fuel = scan_deposits a.rail fuel >>= λ found. list_deposits found

  abbrev pub shown : M a.rail.chain.Node Output → M a.rail.chain.Node (Option Output)
  shown m = m >>= λ out. pure (some out)

  -- The commands that `run` calls once the account is open.
  unfoldable run_command : ℕ → List Bytes → M a.rail.chain.Node (Option Output)
  unfolding pay_command retry_command status_command balance_command deposits_command
  run_command fuel [] = fail plain
  run_command fuel (name ∷ args) =
      if eq_bytes name (codes "account")
      then pure (some (account_shown a.rail.address))
      else if eq_bytes name (codes "balance")
      then shown balance_command
      else if eq_bytes name (codes "deposits")
      then deposits_command fuel
      else if eq_bytes name (codes "transfer")
      then shown (pay_command kind_transfer args)
      else if eq_bytes name (codes "withdraw")
      then shown (pay_command kind_withdraw args)
      else if eq_bytes name (codes "retry")
      then shown (retry_command args)
      else if eq_bytes name (codes "status")
      then shown (status_command args)
      else fail plain
