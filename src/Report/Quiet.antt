-- ===== src/Report/Quiet.antt =====
-- What the questions of go/rail/status.go leave alone.
use juice_rail.Base.{ℕ}
use juice_rail.Machine.{Rail}
use juice_rail.Quiet.{Quiet}
use juice_rail.Quiet.Rules.{quiet_rules}
use juice_rail.Quiet.Writes.{safe_rules}
use juice_rail.Venue.Quiet.{venue_rules}
use juice_rail.Settle.{Status, unknown, pending, confirmed, failed}
use juice_rail.Settle.Quiet.{Quiet-settled_header, Quiet-status}
use juice_rail.Report.{
  confirmed_cost, cost_by, refill_cost, settled_balances, read_fact, outcome_by, outcome_of,
}

module _ (r : Rail) where
  Quiet-confirmed_cost : (id : ℕ) → Quiet (confirmed_cost r id)
  unfolding confirmed_cost
  Quiet-confirmed_cost id = search (quiet_rules, safe_rules) depth 12

  Quiet-cost_by : (id : ℕ) (s : Status) → Quiet (cost_by r id s)
  unfolding cost_by
  Quiet-cost_by id confirmed = Quiet-confirmed_cost id
  Quiet-cost_by id pending = search quiet_rules
  Quiet-cost_by id failed = search quiet_rules
  Quiet-cost_by id unknown = search quiet_rules

  pub Quiet-refill_cost : (id : ℕ) → Quiet (refill_cost r id)
  unfolding refill_cost
  Quiet-refill_cost id = search (quiet_rules, safe_rules, Quiet-status, Quiet-cost_by) depth 12

  pub Quiet-settled_balances : Quiet (settled_balances r)
  unfolding settled_balances
  Quiet-settled_balances = search (quiet_rules, venue_rules, Quiet-settled_header) depth 12

  Quiet-read_fact : (id : ℕ) → Quiet (read_fact r id)
  unfolding read_fact
  Quiet-read_fact id = search (quiet_rules, safe_rules)

  Quiet-outcome_by : (id : ℕ) (s : Status) → Quiet (outcome_by r id s)
  unfolding outcome_by
  Quiet-outcome_by id confirmed = Quiet-read_fact id
  Quiet-outcome_by id pending = search quiet_rules
  Quiet-outcome_by id failed = Quiet-read_fact id
  Quiet-outcome_by id unknown = Quiet-read_fact id

  pub Quiet-outcome_of : (id : ℕ) → Quiet (outcome_of r id)
  unfolding outcome_of
  Quiet-outcome_of id = search (quiet_rules, safe_rules, Quiet-status, Quiet-outcome_by) depth 12
