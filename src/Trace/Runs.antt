-- ===== src/Trace/Runs.antt =====
-- Sequences of calls of the methods of go/rail/rail.go and go/rail/status.go on one account, with
-- whatever happens to the node, the disk and the process between two calls.
use juice_rail.Base.{ℕ, ◌≡◌, ◌⊎◌, Bool, false, Option, List, [], ◌∷◌, ◌++◌}
use juice_rail.Base.Int.{ℤ}
use juice_rail.Chain.{Tx}
use juice_rail.Quiet.{Quiet, History, History-refl, History-trans}
use juice_rail.Quiet.Rules.{quiet_rules}
use juice_rail.Quiet.Writes.{safe_rules}
use juice_rail.Store
use juice_rail.Observed
use juice_rail.Check.Quiet.{Quiet-check_domain}
use juice_rail.Pay.Quiet.{Quiet-prepare, Quiet-balances}
use juice_rail.Settle.Quiet.{Quiet-status_of, Quiet-reconcile}
use juice_rail.Report.Quiet.{Quiet-refill_cost, Quiet-settled_balances, Quiet-outcome_of}
use juice_rail.Scan.Quiet.{Quiet-scan_deposits}
use juice_rail.Machine.{Rail, World, M, sql}
use juice_rail.Check.{check_domain}
use juice_rail.Settle.{status_of, reconcile}
use juice_rail.Attempt.{send, retry}
use juice_rail.Pay.{balances, prepare, withdraw_all}
use juice_rail.Refill.{refill_gas, pay}
use juice_rail.Report.{refill_cost, settled_balances, outcome_of, deposits_scanned_to}
use juice_rail.Scan.{scan_deposits}
use juice_rail.Trace.{NeverZero, Accounted, Moves}
use juice_rail.Trace.Methods.{
  Active-Quiet, Active-send, Active-retry, Active-refill_gas, Active-pay, Active-withdraw_all,
}

-- The calls of the methods, with their arguments. `scans` has the fuel of the scan too.
pub data Call : Type 0 where
  checks reads_balances reconciles reads_settled lists_pending lists_deposits reads_cursor : Call
  prepares pays : (id kind to : ℕ) → Option ℤ → Call
  withdraws : (id to : ℕ) → Call
  refills : Option ℤ → Call
  sends retries asks_status asks_cost asks_outcome reads_intent : (id : ℕ) → Call
  scans : (fuel : ℕ) → Call

-- The world after a call.
unfoldable pub perform : (r : Rail) → Call → World r.chain.Node → World r.chain.Node
perform r checks w = (check_domain r.chain r.domain r.address w).1
perform r reads_balances w = (balances r w).1
perform r reconciles w = (reconcile r w).1
perform r reads_settled w = (settled_balances r w).1
perform r lists_pending w = (sql (Store.pending r.address) w).1
perform r lists_deposits w = (sql (Observed.deposits r.address) w).1
perform r reads_cursor w = (deposits_scanned_to r w).1
perform r (reads_intent id) w = (sql (Store.intent r.address id) w).1
perform r (prepares id kind to amount) w = (prepare r id kind to amount w).1
perform r (pays id kind to amount) w = (pay r id kind to amount w).1
perform r (withdraws id to) w = (withdraw_all r id to w).1
perform r (refills reserve) w = (refill_gas r reserve w).1
perform r (sends id) w = (send r id w).1
perform r (retries id) w = (retry r id w).1
perform r (asks_status id) w = (status_of r id w).1
perform r (asks_cost id) w = (refill_cost r id w).1
perform r (asks_outcome id) w = (outcome_of r id w).1
perform r (scans fuel) w = (scan_deposits r fuel w).1

-- A call; or the node moves on, the faults to come change, or the process starts anew.
pub data Step (r : Rail) : World r.chain.Node → World r.chain.Node → Type 0 where
  called : (w : World r.chain.Node) (c : Call) → Step r w (perform r c w)
  mined : (w : World r.chain.Node) (n : r.chain.Node) → Step r w (record w { node = n })
  faulted :
      (w : World r.chain.Node) (faults : List Bool)
      → Step r w (record w { store = record { tables = w.store.tables; faults = faults } })
  restarted : (w : World r.chain.Node) → Step r w (record w { chain_checked = false })

pub data Run (r : Rail) (u : World r.chain.Node) : World r.chain.Node → Type 0 where
  here : Run r u u
  then : {v w : World r.chain.Node} → Run r u v → Step r v w → Run r u w

module _ (r : Rail) where
  Moves-Quiet :
      {A : Type 0} (m : M r.chain.Node A) (w : World r.chain.Node) → Quiet m → Moves r w (m w).1
  Moves-Quiet m w q = (Active-Quiet r m q).at w

  -- Whichever method is called, nothing recorded is lost, at most one transaction goes out, and what
  -- went out stays on record.
  Moves-perform : (c : Call) (w : World r.chain.Node) → Moves r w (perform r c w)
  unfolding perform
  Moves-perform checks w = Moves-Quiet _ w (Quiet-check_domain r.chain r.domain r.address)
  Moves-perform reads_balances w = Moves-Quiet _ w (Quiet-balances r)
  Moves-perform reconciles w = Moves-Quiet _ w (Quiet-reconcile r)
  Moves-perform reads_settled w = Moves-Quiet _ w (Quiet-settled_balances r)
  Moves-perform lists_pending w =
      Moves-Quiet (sql (Store.pending r.address)) w (search (quiet_rules, safe_rules))
  Moves-perform lists_deposits w =
      Moves-Quiet (sql (Observed.deposits r.address)) w (search (quiet_rules, safe_rules))
  Moves-perform reads_cursor w =
      Moves-Quiet (deposits_scanned_to r) w
        (unfold deposits_scanned_to in search (quiet_rules, safe_rules))
  Moves-perform (reads_intent id) w =
      Moves-Quiet (sql (Store.intent r.address id)) w (search (quiet_rules, safe_rules))
  Moves-perform (prepares id kind to amount) w = Moves-Quiet _ w (Quiet-prepare r id kind to amount)
  Moves-perform (pays id kind to amount) w = (Active-pay r id kind to amount).at w
  Moves-perform (withdraws id to) w = (Active-withdraw_all r id to).at w
  Moves-perform (refills reserve) w = (Active-refill_gas r reserve).at w
  Moves-perform (sends id) w = (Active-send r id).at w
  Moves-perform (retries id) w = (Active-retry r id).at w
  Moves-perform (asks_status id) w = Moves-Quiet _ w (Quiet-status_of r id)
  Moves-perform (asks_cost id) w = Moves-Quiet _ w (Quiet-refill_cost r id)
  Moves-perform (asks_outcome id) w = Moves-Quiet _ w (Quiet-outcome_of r id)
  Moves-perform (scans fuel) w = Moves-Quiet _ w (Quiet-scan_deposits r fuel)

  Step-Accounted :
      {u w : World r.chain.Node} → Step r u w → NeverZero r → Accounted r u → Accounted r w
  Step-Accounted (called w c) never a = (Moves-perform c w).accounted never a
  Step-Accounted (mined w n) never a = a
  Step-Accounted (faulted w faults) never a = a
  Step-Accounted (restarted w) never a = a

  History-Step : {u w : World r.chain.Node} → Step r u w → History u.store.tables w.store.tables
  History-Step (called w c) = (Moves-perform c w).history
  History-Step (mined w n) = History-refl w.store.tables
  History-Step (faulted w faults) = History-refl w.store.tables
  History-Step (restarted w) = History-refl w.store.tables

-- In every run of an account, whatever the node, the disk and the process do between the calls and
-- however each call ends: if every transaction that the node was handed is the signed transaction
-- of a recorded attempt at the start, the same holds at the end, provided that no transaction is
-- signed under the hash of zeros.
pub Run-Accounted :
    (r : Rail) {u w : World r.chain.Node} (run : Run r u w)
    → NeverZero r
    → Accounted r u
    → Accounted r w
Run-Accounted r here never a = a
Run-Accounted r (then before step) never a =
    Step-Accounted r step never (Run-Accounted r before never a)

-- In every run of an account the rows of intents, attempts, facts and deposits, of every account, are only added
-- behind those that were there, none is lost or changed, identifiers and nonces stay unique if they were, no cursor
-- and no nonce floor comes to hold a lesser signed 64-bit number, so that none below 2 ^ 63 goes back, and the domain of
-- the file stays.
pub Run-History :
    (r : Rail) {u w : World r.chain.Node} (run : Run r u w) → History u.store.tables w.store.tables
Run-History r {u} here = History-refl u.store.tables
Run-History r {u} (then {v} {w} before step) =
    History-trans u.store.tables v.store.tables w.store.tables (Run-History r before)
      (History-Step r step)

-- One call of any method, payments with a refill and retries included, hands at most one transaction
-- to the node.
pub sends_at_most_one :
    (r : Rail) (c : Call) (w : World r.chain.Node)
    → ((perform r c w).sent ≡ w.sent) ⊎ ((tx : Tx) × ((perform r c w).sent ≡ w.sent ++ tx ∷ []))
sends_at_most_one r c w = (Moves-perform r c w).once
