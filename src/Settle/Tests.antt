-- ===== src/Settle/Tests.antt =====
-- The theorems on settlement, at a concrete node and receipt.
use mathlib.Core.Option
use juice_rail.Base.{ℕ, none, some, ◌≡◌, refl, true, [], ◌∷◌, arith}
use juice_rail.Base.Error.{ok}
use juice_rail.Intent.{Fact}
use juice_rail.Logs.{transfer_log}
use juice_rail.Settle.{
  settled_header, or_no_header, or_unreconciled, spent_fact, outcome, match_nonce, match_nonces,
  reconcile, executed, shows_transfer, try_attempt, search_attempts,
}
use juice_rail.Machine.{Rail, World, ask, sql}
use juice_rail.Base.Int.{pos}
use juice_rail.Base.Decimal.{read_ℤ, print_ℤ}
use juice_rail.Sql.Word.{int64, uint64}
use juice_rail.Sql.Order.{sort}
use juice_rail.Store
use juice_rail.Store.{
  scan_found, scan_intent, amount_value, amount_text, intent_row, submission_row, submission_rows,
  scan_submission,
}
use juice_rail.Observed
use juice_rail.Observed.{Column, stored}
use juice_rail.Settle.Reconciled.{Reconciled, reconcile_explains}
use juice_rail.Settle.Outcome.{IsOutcome, outcome_sound}
use juice_rail.Settle.Evidence.{Shows, executed_sound}
use juice_rail.Samples.{
  account, paid_db, sample_chain, sample_rail, sample_intent, sample_receipt, sample_world,
}

paid : executed sample_rail sample_intent sample_receipt ≡ true
unfolding executed shows_transfer transfer_log
paid = refl

executed_sound_example :
    (sample_receipt.status ≡ 1) × Shows sample_rail sample_intent sample_receipt.logs
executed_sound_example =
    executed_sound sample_rail sample_intent sample_receipt (λ h. omega (arith, h)) paid

abbrev paid_fact : Fact
paid_fact = record { tx_hash = 1_004; block_number = 30; executed = true }

found : (outcome sample_rail sample_intent 40 sample_world).0 ≡ ok paid_fact
unfolding outcome sql search_attempts try_attempt ask executed shows_transfer transfer_log
    Store.submissions submission_row submission_rows scan_submission Store.scan_all sort
    amount_value read_ℤ amount_text print_ℤ int64 uint64
found = refl

outcome_sound_example : IsOutcome sample_rail sample_intent 40 paid_fact sample_world
outcome_sound_example = outcome_sound sample_rail sample_intent 40 sample_world paid_fact found

-- The nonce of the payment is spent, and the floor stands at it.
abbrev later_rail : Rail
later_rail = record sample_rail {
  chain = record sample_chain { nonce_at = λ who block n. (ok 5, n) };
}

abbrev floored_world : World ℕ
floored_world = record sample_world {
  store = record {
    tables = record paid_db.tables {
      cursors = record { account = account; deposit_block = none; nonce_floor = some (pos 4) } ∷ [];
    };
    faults = [];
  };
}

floor_known :
    Option.map uint64 (stored account Column.nonce_floor floored_world.store.tables.cursors)
    ≡ some 4
unfolding stored uint64
floor_known = refl

matched : (reconcile later_rail floored_world).0 ≡ ok tt
unfolding reconcile settled_header or_no_header match_nonces match_nonce or_unreconciled spent_fact
    outcome search_attempts try_attempt ask sql executed shows_transfer transfer_log
    Observed.read_nonce_floor Observed.read_cursor stored uint64 int64 Store.intent_by_nonce
    scan_found scan_intent amount_value read_ℤ amount_text print_ℤ intent_row Store.fact
    Store.submissions Store.put_fact submission_row submission_rows scan_submission Store.scan_all
    sort Observed.put_nonce_floor Observed.advance
matched = refl

reconcile_explains_example :
    Reconciled later_rail 4 0 (reconcile later_rail floored_world).1.store.tables
reconcile_explains_example = reconcile_explains later_rail 4 floored_world floor_known matched
