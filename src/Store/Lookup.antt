-- ===== src/Store/Lookup.antt =====
-- `PutIntent`, and then `Intent`, of go/sqlite/sqlite.go.
use juice_rail.Base.{ℕ, ◌≡◌, refl, true, false, some, List, [], ◌∷◌, ◌++◌, arith, ==_refl}
use juice_rail.Base.Lists.{find}
use juice_rail.Base.Error.{ok}
use juice_rail.Intent
use juice_rail.Intent.{Intent, same_terms}
use juice_rail.Intent.Validity.{IsValid, IsValid-validate}
use juice_rail.Sql.{Tables, Db, IntentRow}
use juice_rail.Store.{
  intent_row, is_intent, clashes, insert_intent, agree, record_body, put_valid, put_intent,
  scan_found, intent,
}
use juice_rail.Store.Rows.{InRange, normal, scan_intent-intent_row}

find-unclashed :
    (new : IntentRow) (rows : List IntentRow)
    → clashes new rows ≡ false
    → find (is_intent new.account new.id) (rows ++ new ∷ []) ≡ some new
unfolding clashes
find-unclashed new [] h = rw (==_refl new.account, ==_refl new.id)
find-unclashed new (row ∷ rows) h = ground (arith, find-unclashed new rows)

same_terms-normal : (i : Intent) → IsValid i → same_terms (normal i) i ≡ true
unfolding same_terms normal
same_terms-normal i v = rw v.amount_set (ground arith)

module _ (account : ℕ) (i : Intent) (t : Tables) where
  find_inserted :
      clashes (intent_row account i) t.intents ≡ false
      → find (is_intent account i.id) (t.intents ++ intent_row account i ∷ [])
        ≡ some (intent_row account i)
  unfolding intent_row
  find_inserted h = find-unclashed (intent_row account i) t.intents h

  agree-intent_row : IsValid i → InRange i → agree i (some (intent_row account i)) ≡ ok tt
  unfolding agree
  agree-intent_row v s = rw (scan_intent-intent_row account i s, same_terms-normal i v)

  body_records :
      IsValid i
      → InRange i
      → clashes (intent_row account i) t.intents ≡ false
      → record_body account i (record { tables = t; faults = [] }) ≡ (
        ok tt,
        record {
          tables = record t { intents = t.intents ++ intent_row account i ∷ [] };
          faults = [];
        },
      )
  unfolding record_body insert_intent
  body_records v s h = rw (h, find_inserted h, agree-intent_row v s)

  -- A valid intent of Go's types, whose identifier and nonce are free, is accepted where no
  -- statement of the database fails: `PutIntent` succeeds, adds its row and changes nothing else,
  -- and `Intent` then finds the intent as it was given, its missing amounts as zero.
  pub intent-put_intent :
      Intent.validate i ≡ ok tt
      → InRange i
      → clashes (intent_row account i) t.intents ≡ false
      → let db : Db = record { tables = t; faults = [] } in
        let after : Tables = record t { intents = t.intents ++ intent_row account i ∷ [] } in
        ((put_intent account i db).0 ≡ ok tt)
        × ((put_intent account i db).1.tables ≡ after)
        × ((intent account i.id (put_intent account i db).1).0 ≡ ok (some (normal i)))
  unfolding put_intent put_valid intent scan_found
  intent-put_intent valid s h =
      rw (valid, body_records (IsValid-validate i valid) s h)
        (refl, refl, rw (find_inserted h, scan_intent-intent_row account i s))
