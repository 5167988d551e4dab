-- ===== src/Trace/Settled.antt =====
-- What the `Status` of go/rail/status.go says after a run.
use juice_rail.Base.{ℕ, ◌≡◌, refl, ◌∙◌, Option, none, some, List, [], ◌∷◌, arith}
use mathlib.Core.Option
use juice_rail.Base.Lists.{find, find-Grows}
use juice_rail.Base.Error
use juice_rail.Base.Error.{Result, ok, err, ok-injective}
use juice_rail.Intent.{Intent, Fact}
use juice_rail.Sql.{Db, IntentRow, FactRow}
use juice_rail.Sql.Statements.{read_ok, query_ok}
use juice_rail.Store
use juice_rail.Store.{is_intent, is_fact, amount_value, scan_intent, scan_found, scan_fact}
use juice_rail.Machine.{Rail, World, sql}
use juice_rail.Settle.{classify, status, status_of}
use juice_rail.Trace.Runs.{Run, Run-History}

find-is_intent :
    (account id : ℕ) (rows : List IntentRow) (row : IntentRow)
    → find (is_intent account id) rows ≡ some row
    → row.id ≡ id
find-is_intent account id [] row h = cc
find-is_intent account id (x ∷ xs) row h = ground (arith, find-is_intent account id xs row)

id-scan_intent : (row : IntentRow) (i : Intent) → scan_intent row ≡ ok i → i.id ≡ row.id
unfolding scan_intent
id-scan_intent row i h = ground arith

scanned :
    (a : Result Intent) (i : Intent) → Error.◌>>=◌ a (λ x. ok (some x)) ≡ ok (some i) → a ≡ ok i
scanned (ok x) i h = cc
scanned (err e) i h = cc

opened :
    (o : Option IntentRow) (i : Intent)
    → scan_found o ≡ ok (some i)
    → (row : IntentRow) × (o ≡ some row) × (scan_intent row ≡ ok i)
unfolding scan_found
opened none i h = cc
opened (some row) i h = (row, refl, scanned (scan_intent row) i h)

noticed :
    (o : Option FactRow) (f : Fact)
    → Option.map scan_fact o ≡ some f
    → (row : FactRow) × (o ≡ some row) × (scan_fact row ≡ f)
noticed none f h = cc
noticed (some row) f h = (row, refl, cc)

-- What the two reads return, and the rows they find.
module _ (account id : ℕ) where
  recorded_intent :
      (db : Db) (i : Intent)
      → (Store.intent account id db).0 ≡ ok (some i)
      → (row : IntentRow) × (find (is_intent account id) db.tables.intents ≡ some row)
        × (scan_intent row ≡ ok i)
  unfolding Store.intent
  recorded_intent db i h =
      opened (find (is_intent account id) db.tables.intents) i
        (read_ok (λ t. find (is_intent account id) t.intents) scan_found db h)

  recorded_fact :
      (db : Db) (f : Fact)
      → (Store.fact account id db).0 ≡ ok (some f)
      → (row : FactRow) × (find (is_fact account id) db.tables.facts ≡ some row)
        × (scan_fact row ≡ f)
  unfolding Store.fact
  recorded_fact db f h = noticed (find (is_fact account id) db.tables.facts) f (query_ok _ db h)

-- What `Status` answers where both rows are there and the disk works.
status_found :
    (r : Rail) (id : ℕ) (w : World r.chain.Node) (i : Intent) (f : Fact) (a : IntentRow)
    (b : FactRow)
    → w.store.faults ≡ []
    → find (is_intent r.address id) w.store.tables.intents ≡ some a
    → find (is_fact r.address id) w.store.tables.facts ≡ some b
    → scan_intent a ≡ ok i
    → scan_fact b ≡ f
    → (status_of r id w).0 ≡ ok (classify (some f))
unfolding status_of status sql Store.intent Store.fact scan_found
status_found r id w i f a b e ha hb hi hf =
    let same : i.id ≡ id = id-scan_intent a i hi ∙ find-is_intent r.address id _ a ha in
    rw (e, ha, hi, same, hb, hf) refl

-- Once an intent and its fact are on record, `Status` answers the same after every run, whatever calls
-- are made and whatever the node says meanwhile: what the recorded fact says. The one condition is that
-- no statement of the database fails while it is asked.
pub settled_for_good :
    (r : Rail) (id : ℕ) (u w : World r.chain.Node) (i : Intent) (f : Fact)
    → Run r u w
    → (Store.intent r.address id u.store).0 ≡ ok (some i)
    → (Store.fact r.address id u.store).0 ≡ ok (some f)
    → w.store.faults ≡ []
    → (status_of r id w).0 ≡ ok (classify (some f))
settled_for_good r id u w i f run hi hf e =
    let (a, ha, sa) = recorded_intent r.address id u.store i hi in
    let (b, hb, sb) = recorded_fact r.address id u.store f hf in
    let kept = Run-History r run in
    status_found r id w i f a b e
      (find-Grows (is_intent r.address id) u.store.tables.intents w.store.tables.intents
        kept.intents ha)
      (find-Grows (is_fact r.address id) u.store.tables.facts w.store.tables.facts kept.facts hb) sa
      sb
