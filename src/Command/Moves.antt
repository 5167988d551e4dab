-- ===== src/Command/Moves.antt =====
-- What a command of cmd/railctl/main.go does to the world.
use juice_rail.Base.{
  ℕ, ◌≡◌, ◌⊎◌, Bool, true, false, Option, none, some, List, [], ◌∷◌, ◌++◌, if◌then◌else◌,
}
use juice_rail.Base.Int.{ℤ}
use juice_rail.Base.Lists.{Bytes}
use juice_rail.Base.Error.{Result, ok, err}
use juice_rail.Intent.{Intent, Fact}
use juice_rail.Chain.{Tx}
use juice_rail.Quiet.{Quiet}
use juice_rail.Quiet.Rules.{quiet_rules}
use juice_rail.Quiet.Writes.{safe_rules}
use juice_rail.Machine.{Rail, World, M, continue, ◌>>=◌}
use juice_rail.Pay.Quiet.{Quiet-prepare, Quiet-balances}
use juice_rail.Settle.{Status, unknown}
use juice_rail.Settle.Quiet.{Quiet-status_of}
use juice_rail.Report.Quiet.{Quiet-refill_cost, Quiet-settled_balances, Quiet-outcome_of}
use juice_rail.Refill.{Paid}
use juice_rail.Report.{deposits_scanned_to}
use juice_rail.Scan.{Scanned}
use juice_rail.Scan.Quiet.{Quiet-scan_deposits}
use juice_rail.Command.{
  App, Note, report, after_send, after_prepare, steps, after_pay, pay_amount, withdraw_everything,
  pay_command, retry_command, cost_of, with_cost, details_of, status_command, balance_command,
  list_deposits, deposits_command, run_command,
}
use juice_rail.Trace.{Moves, Moves-then}
use juice_rail.Trace.Methods.{
  Active, Active-Quiet, Active-bind, Active-send, Active-retry, Active-pay, Active-withdraw_all,
}

module _ {A B : Type 0} (r : Rail) where
  ended :
      (u v : World r.chain.Node) (res : Result A) (f : A → M r.chain.Node B)
      → Moves r u v
      → ((a : A) → Quiet (f a))
      → Moves r u (continue res f v).1
  ended u v (ok a) f m q = Moves-then r u v (f a v).1 m ((q a).at v)
  ended u v (err e) f m q = m

  -- An action that moves, and then a quiet one.
  Active-then :
      (m : M r.chain.Node A) (f : A → M r.chain.Node B)
      → Active r m
      → ((a : A) → Quiet (f a))
      → Active r (m >>= f)
  Active-then m f h q = record { at = λ w. ended w (m w).1 (m w).0 f (h.at w) q }

Active-if :
    {A : Type 0} (r : Rail) (b : Bool) (m n : M r.chain.Node A)
    → Active r m
    → Active r n
    → Active r (if b then m else n)
Active-if r true m n p q = p
Active-if r false m n p q = q

ruleset command_rules = (Active-then, Active-if, Active-bind, Active-Quiet)

Quiet-report : (r : Rail) (id : ℕ) (note : Note) → Quiet (report r id note)
unfolding report
Quiet-report r id note = search (quiet_rules, Quiet-status_of)

module _ (a : App) where
  Quiet-after_send : (id hash : ℕ) → Quiet (after_send a id hash)
  unfolding after_send
  Quiet-after_send id hash = search (quiet_rules, Quiet-report)

  Active-after_prepare : (id : ℕ) → Active a.rail (after_prepare a id)
  unfolding after_prepare
  Active-after_prepare id =
      search (command_rules, Quiet-report, Quiet-after_send, Active-send) depth 9

  Active-steps : (id kind to : ℕ) (amount : Option ℤ) → Active a.rail (steps a id kind to amount)
  unfolding steps
  Active-steps id kind to amount =
      search (command_rules, Quiet-prepare, Active-after_prepare) depth 9

  Quiet-after_pay : (id : ℕ) (out : Paid) → Quiet (after_pay a id out)
  unfolding after_pay
  Quiet-after_pay id out = search (quiet_rules, Quiet-report)

  Active-pay_amount :
      (id kind to : ℕ) (amount : Option ℤ) → Active a.rail (pay_amount a id kind to amount)
  unfolding pay_amount
  Active-pay_amount id kind to amount =
      search (command_rules, Active-steps, Active-pay, Quiet-after_pay) depth 9

  Active-withdraw_everything : (id to : ℕ) → Active a.rail (withdraw_everything a id to)
  unfolding withdraw_everything
  Active-withdraw_everything id to =
      search (command_rules, Active-withdraw_all, Quiet-report) depth 9

  Active-pay_command : (kind : ℕ) (args : List Bytes) → Active a.rail (pay_command a kind args)
  unfolding pay_command
  Active-pay_command kind (first ∷ second ∷ third ∷ []) =
      search (command_rules, quiet_rules, Active-withdraw_everything, Active-pay_amount) depth 12
  Active-pay_command kind _ = Active-Quiet a.rail _ (search quiet_rules)

  Active-retry_command : (args : List Bytes) → Active a.rail (retry_command a args)
  unfolding retry_command
  Active-retry_command (text ∷ []) =
      search (command_rules, quiet_rules, Active-retry, Quiet-report) depth 12
  Active-retry_command _ = Active-Quiet a.rail _ (search quiet_rules)

  Quiet-cost_of : (id : ℕ) (f : Fact) (o : Option Intent) → Quiet (cost_of a id f o)
  unfolding cost_of
  Quiet-cost_of id f none = search quiet_rules
  Quiet-cost_of id f (some i) = search (quiet_rules, Quiet-refill_cost) depth 9

  Quiet-with_cost : (id : ℕ) (s : Status) (o : Option Fact) → Quiet (with_cost a id s o)
  unfolding with_cost
  Quiet-with_cost id s none = search quiet_rules
  Quiet-with_cost id s (some f) = search (quiet_rules, safe_rules, Quiet-cost_of) depth 9

  Quiet-details_of : (id : ℕ) (s : Status) → Quiet (details_of a id s)
  unfolding details_of
  Quiet-details_of id unknown = search quiet_rules
  Quiet-details_of id s = search (quiet_rules, Quiet-outcome_of, Quiet-with_cost) depth 9

  Quiet-status_command : (args : List Bytes) → Quiet (status_command a args)
  unfolding status_command
  Quiet-status_command (text ∷ []) = search (quiet_rules, Quiet-status_of, Quiet-details_of) depth 9
  Quiet-status_command _ = search quiet_rules

  Quiet-balance_command : Quiet (balance_command a)
  unfolding balance_command
  Quiet-balance_command = search (quiet_rules, Quiet-balances, Quiet-settled_balances) depth 9

  Quiet-list_deposits : (o : Option Scanned) → Quiet (list_deposits a o)
  unfolding list_deposits deposits_scanned_to
  Quiet-list_deposits none = search quiet_rules
  Quiet-list_deposits (some s) = search (quiet_rules, safe_rules) depth 12

  Quiet-deposits_command : (fuel : ℕ) → Quiet (deposits_command a fuel)
  unfolding deposits_command
  Quiet-deposits_command fuel =
      search (quiet_rules, Quiet-scan_deposits, Quiet-list_deposits) depth 9

  pub Active-run_command : (fuel : ℕ) (args : List Bytes) → Active a.rail (run_command a fuel args)
  unfolding run_command
  Active-run_command fuel [] = Active-Quiet a.rail _ (search quiet_rules)
  Active-run_command fuel (name ∷ args) =
      search
        (
          command_rules, quiet_rules, Active-pay_command, Active-retry_command,
          Quiet-status_command, Quiet-balance_command, Quiet-deposits_command,
        )
        depth 24

-- Whatever its words are, a command hands at most one transaction to the node: a payment that has to buy
-- gas first does not send in the same run, and a payment is not sent twice.
command_sends_at_most_one :
    (a : App) (fuel : ℕ) (args : List Bytes) (w : World a.rail.chain.Node)
    → ((run_command a fuel args w).1.sent ≡ w.sent)
      ⊎ ((tx : Tx) × ((run_command a fuel args w).1.sent ≡ w.sent ++ tx ∷ []))
command_sends_at_most_one a fuel args w = ((Active-run_command a fuel args).at w).once
