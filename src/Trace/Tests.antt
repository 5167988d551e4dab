-- ===== src/Trace/Tests.antt =====
-- The theorems on runs, at a concrete account.
use juice_rail.Base.{◌≡◌, refl, ◌⊎◌, true, false, some, [], ◌∷◌, ◌++◌}
use juice_rail.Base.Error.{ok}
use juice_rail.Base.Int.{pos}
use juice_rail.Chain.{Tx}
use juice_rail.Intent.{Fact}
use juice_rail.Quiet.{History}
use juice_rail.Machine.{World}
use juice_rail.Settle.{classify, confirmed, status_of}
use juice_rail.Base.Decimal.{read_ℤ, print_ℤ}
use juice_rail.Sql.Word.{uint64, int64}
use juice_rail.Store
use juice_rail.Store.{
  intent_row, scan_found, scan_intent, amount_value, amount_text, scan_fact, fact_row,
}
use juice_rail.Trace.{NeverZero, Accounted}
use juice_rail.Trace.Runs.{
  pays, retries, perform, Run, called, faulted, restarted, here, then, Run-Accounted, Run-History,
  sends_at_most_one,
}
use juice_rail.Trace.Settled.{settled_for_good}
use juice_rail.Samples.{account, paid_db, sample_intent, sample_rail, sample_world}

never_zero : NeverZero sample_rail
never_zero tx h = cc

-- A retry, a restart with a failing statement to come, and a payment.
abbrev retried : World sample_rail.chain.Node
retried = perform sample_rail (retries 7) sample_world

abbrev crashed : World sample_rail.chain.Node
crashed = record retried {
  chain_checked = false;
  store = record { tables = retried.store.tables; faults = true ∷ [] };
}

abbrev paid_again : World sample_rail.chain.Node
paid_again = perform sample_rail (pays 9 1 900 (some (pos 50))) crashed

sample-Run : Run sample_rail sample_world paid_again
sample-Run =
    then
      (then (then (then here (called sample_world (retries 7))) (restarted retried)) (faulted _ _))
      (called crashed (pays 9 1 900 (some (pos 50))))

Run-Accounted_example : Accounted sample_rail paid_again
Run-Accounted_example = Run-Accounted sample_rail sample-Run never_zero tt

Run-History_example : History sample_world.store.tables paid_again.store.tables
Run-History_example = Run-History sample_rail sample-Run

sends_at_most_one_example :
    ((perform sample_rail (retries 7) sample_world).sent ≡ [])
    ⊎ ((tx : Tx) × ((perform sample_rail (retries 7) sample_world).sent ≡ [] ++ tx ∷ []))
sends_at_most_one_example = sends_at_most_one sample_rail (retries 7) sample_world

-- The payment has settled, and the account is asked of later, when another payment was tried.
abbrev sample_fact : Fact
sample_fact = record { tx_hash = 1_004; block_number = 30; executed = true }

abbrev settled_world : World sample_rail.chain.Node
settled_world = record sample_world {
  store = record paid_db {
    tables = record paid_db.tables { facts = fact_row account 7 sample_fact ∷ [] };
  };
}

abbrev later_world : World sample_rail.chain.Node
later_world =
    let v = perform sample_rail (pays 9 1 900 (some (pos 50))) settled_world in
    record v { store = record { tables = v.store.tables; faults = [] } }

later-Run : Run sample_rail settled_world later_world
later-Run = then (then here (called settled_world (pays 9 1 900 (some (pos 50))))) (faulted _ [])

settled_for_good_example : (status_of sample_rail 7 later_world).0 ≡ ok confirmed
unfolding Store.intent scan_found intent_row scan_intent amount_value amount_text read_ℤ print_ℤ
    uint64 int64 Store.fact scan_fact fact_row classify
settled_for_good_example =
    settled_for_good sample_rail 7 settled_world later_world
      (record sample_intent { delta = some (pos 0) }) sample_fact later-Run refl refl refl
