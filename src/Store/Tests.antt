-- ===== src/Store/Tests.antt =====
-- The theorems on the store, at a concrete database.
use juice_rail.Base.{◌≡◌, refl, false, some, [], ◌∷◌, ◌++◌, arith}
use juice_rail.Base.Error.{ok, err, intent_conflict}
use juice_rail.Base.Decimal.{read_ℤ, print_ℤ}
use juice_rail.Intent
use juice_rail.Intent.{Fact}
use juice_rail.Sql.{Db}
use juice_rail.Sql.Word.{int64, uint64}
use juice_rail.Store.{
  agree, insert_intent, clashes, amount_value, amount_text, intent_row, put_intent, scan_intent,
  intent, append_submission,
}
use juice_rail.Store.Rows.{InRange, normal}
use juice_rail.Store.Intents.{
  Recorded, IsKeyed, put_intent_records, put_intent_atomic, put_intent-IsKeyed,
}
use juice_rail.Store.Lookup.{intent-put_intent}
use juice_rail.Samples.{account, other_intent, changed_intent, last_attempt, paid_db}

other_put : (put_intent account other_intent paid_db).0 ≡ ok tt
unfolding put_intent Intent.validate agree insert_intent clashes intent_row int64 scan_intent
    amount_value read_ℤ amount_text print_ℤ Intent.same_terms uint64
other_put = refl

changed_refused : (put_intent account changed_intent paid_db).0 ≡ err intent_conflict
unfolding put_intent Intent.validate agree insert_intent clashes intent_row int64 scan_intent
    amount_value read_ℤ amount_text print_ℤ Intent.same_terms uint64
changed_refused = refl

put_intent_records_example :
    (Intent.validate other_intent ≡ ok tt)
    × Recorded account other_intent paid_db.tables
        (put_intent account other_intent paid_db).1.tables
put_intent_records_example = put_intent_records account other_intent paid_db other_put

put_intent_atomic_example : (put_intent account changed_intent paid_db).1.tables ≡ paid_db.tables
put_intent_atomic_example = put_intent_atomic account changed_intent paid_db changed_refused

put_intent-IsKeyed_example : IsKeyed (put_intent account other_intent paid_db).1.tables.intents
put_intent-IsKeyed_example = put_intent-IsKeyed account other_intent paid_db (tt, tt)

other-InRange : InRange other_intent
other-InRange = record { kind = omega arith; nonce = omega arith; from_block = omega arith }

other_accepted : Intent.validate other_intent ≡ ok tt
unfolding Intent.validate
other_accepted = refl

other_free : clashes (intent_row account other_intent) paid_db.tables.intents ≡ false
unfolding clashes intent_row int64
other_free = refl

abbrev after_put : Db
after_put = (put_intent account other_intent paid_db).1

intent-put_intent_example :
    ((put_intent account other_intent paid_db).0 ≡ ok tt)
    × (after_put.tables ≡ record paid_db.tables {
      intents = paid_db.tables.intents ++ intent_row account other_intent ∷ [];
    })
    × ((intent account other_intent.id after_put).0 ≡ ok (some (normal other_intent)))
intent-put_intent_example =
    intent-put_intent account other_intent paid_db.tables other_accepted other-InRange other_free

attempt_appended : (append_submission account 7 last_attempt paid_db).0 ≡ ok tt
unfolding append_submission
attempt_appended = refl
