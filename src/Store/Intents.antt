-- ===== src/Store/Intents.antt =====
-- Recording intents: `PutIntent` of go/sqlite/sqlite.go.
use mathlib.Core.Path.{subst}
use juice_rail.Base.{
  ℕ, ◌≡◌, ◌⊎◌, inl, inr, refl, Bool, true, false, ◌&&◌, Option, none, some, List, [], ◌∷◌, ◌++◌,
  arith, ◌==◌, Bool-cases,
}
use juice_rail.Base.Int.{eqb_ℤ}
use juice_rail.Base.Lists.{find, All, All-append}
use juice_rail.Base.Error.{Error, Result, ok, err}
use juice_rail.Intent
use juice_rail.Intent.{Intent, same_terms}
use juice_rail.Intent.Terms.{IsSame, same_terms-IsSame}
use juice_rail.Sql.{Tables, Db, Sql, IntentRow}
use juice_rail.Sql.Statements.{transaction_err, transaction_ok, Ran}
use juice_rail.Store.{
  intent_row, scan_intent, is_intent, clashes, insert_intent, agree, record_body, put_valid,
  put_intent,
}

-- What `PutIntent` did: the table after the insert, and the row that the identifier then has.
pub record Recorded (account : ℕ) (i : Intent) (before after : Tables) : Type 0 where
  pub tables :
      after ≡ record before { intents = insert_intent (intent_row account i) before.intents }
  pub row : IntentRow
  pub found : find (is_intent account i.id) after.intents ≡ some row
  pub recorded : Intent
  pub reads : scan_intent row ≡ ok recorded
  pub agrees : IsSame recorded i

put_valid_err :
    (r : Result (Unit {0})) (body : Sql (Unit {0})) (db : Db) {e : Error}
    → (put_valid r body db).0 ≡ err e
    → (put_valid r body db).1.tables ≡ db.tables
unfolding put_valid
put_valid_err (ok u) body db h = transaction_err body db h
put_valid_err (err x) body db h = refl

put_valid_ok :
    (r : Result (Unit {0})) (body : Sql (Unit {0})) (db : Db)
    → (put_valid r body db).0 ≡ ok tt
    → (r ≡ ok tt) × Ran body db (put_valid r body db).1.tables
unfolding put_valid
put_valid_ok (ok u) body db h = (refl, transaction_ok body db h)
put_valid_ok (err x) body db h = cc

-- A `PutIntent` that fails, for whatever reason, leaves every table as it was.
pub put_intent_atomic :
    (account : ℕ) (i : Intent) (db : Db) {e : Error}
    → (put_intent account i db).0 ≡ err e
    → (put_intent account i db).1.tables ≡ db.tables
unfolding put_intent
put_intent_atomic account i db h = put_valid_err (Intent.validate i) (record_body account i) db h

scanned :
    (i : Intent) (row : IntentRow) (r : Result Intent)
    → scan_intent row ≡ r
    → agree i (some row) ≡ ok tt
    → (x : Intent) × (scan_intent row ≡ ok x) × (same_terms x i ≡ true)
unfolding agree
scanned i row (ok x) e h = (x, e, ground (arith, e))
scanned i row (err y) e h = ground (arith, e)

compared :
    (account : ℕ) (i : Intent) (before after : Tables) (o : Option IntentRow)
    → after ≡ record before { intents = insert_intent (intent_row account i) before.intents }
    → find (is_intent account i.id) after.intents ≡ o
    → agree i o ≡ ok tt
    → Recorded account i before after
compared account i before after none e f h = unfold agree in cc
compared account i before after (some row) e f h =
    let (x, g, s) = scanned i row (scan_intent row) refl h in
    record {
      tables = e;
      row = row;
      found = f;
      recorded = x;
      reads = g;
      agrees = same_terms-IsSame x i s;
    }

body_of :
    (account : ℕ) (i : Intent) (fs : List Bool) (t : Tables)
    → (record_body account i (record { tables = t; faults = fs })).0 ≡ ok tt
    → Recorded account i t (record_body account i (record { tables = t; faults = fs })).1.tables
unfolding record_body
body_of account i [] t h = compared account i t _ _ refl refl h
body_of account i (true ∷ fs) t h = cc
body_of account i (false ∷ []) t h = compared account i t _ _ refl refl h
body_of account i (false ∷ true ∷ fs) t h = cc
body_of account i (false ∷ false ∷ fs) t h = compared account i t _ _ refl refl h

Recorded-record_body :
    (account : ℕ) (i : Intent) (db : Db) (after : Tables)
    → Ran (record_body account i) db after
    → Recorded account i db.tables after
Recorded-record_body account i db after (start, same, done, eq) =
    subst (Recorded account i db.tables) eq (
      subst (λ t. Recorded account i t (record_body account i start).1.tables) same
        (body_of account i start.faults start.tables done))

-- A `PutIntent` that succeeds was given a valid intent, has inserted its row or found the place
-- taken, and from then on the identifier has a row that reads as a record with the same identifier, kind,
-- payee, nonce and amount.
pub put_intent_records :
    (account : ℕ) (i : Intent) (db : Db)
    → (put_intent account i db).0 ≡ ok tt
    → (Intent.validate i ≡ ok tt) × Recorded account i db.tables (put_intent account i db).1.tables
unfolding put_intent
put_intent_records account i db h =
    let (v, ran) = put_valid_ok (Intent.validate i) (record_body account i) db h in
    (v, Recorded-record_body account i db _ ran)

find-append :
    (p : IntentRow → Bool) (rows new : List IntentRow) {row : IntentRow}
    → find p rows ≡ some row
    → find p (rows ++ new) ≡ some row
find-append p [] new h = cc
find-append p (x ∷ rows) new {row} h = ground (arith, find-append p rows new {row = row})

find-insert_intent :
    (p : IntentRow → Bool) (new : IntentRow) (rows : List IntentRow) {row : IntentRow}
    → find p rows ≡ some row
    → find p (insert_intent new rows) ≡ some row
unfolding insert_intent
find-insert_intent p new rows h = elim (Bool-cases (clashes new rows)) [
  | inl e ↦ rw e h
  | inr e ↦ rw e (find-append p rows (new ∷ []) h)
]

pub Result-cases : (r : Result (Unit {0})) → (r ≡ ok tt) ⊎ ((e : Error) × (r ≡ err e))
Result-cases (ok u) = inl refl
Result-cases (err e) = inr (e, refl)

-- Intents are written once. Whatever `PutIntent` is given and however it ends, a row that was
-- found under an account and an identifier before is found there unchanged afterwards.
put_intent_keeps :
    (account : ℕ) (i : Intent) (db : Db) (b id : ℕ) {row : IntentRow}
    → find (is_intent b id) db.tables.intents ≡ some row
    → find (is_intent b id) (put_intent account i db).1.tables.intents ≡ some row
put_intent_keeps account i db b id h = elim (Result-cases (put_intent account i db).0) [
  | inl done ↦
      rw ((put_intent_records account i db done).1.tables)
        (find-insert_intent (is_intent b id) (intent_row account i) db.tables.intents h)
  | inr (e, failed) ↦ rw (put_intent_atomic account i db failed) h
]

-- No two rows share an account and an identifier, nor an account and a nonce.
abbrev Apart : IntentRow → IntentRow → Type 0
Apart a b =
    ((a.account == b.account && a.id == b.id) ≡ false)
    × ((a.account == b.account && eqb_ℤ a.nonce b.nonce) ≡ false)

abbrev pub IsKeyed : List IntentRow → Type 0
IsKeyed [] = Unit
IsKeyed (row ∷ rows) = All (Apart row) rows × IsKeyed rows

IsKeyed-concat :
    (new : IntentRow) (rows : List IntentRow)
    → clashes new rows ≡ false
    → IsKeyed rows
    → IsKeyed (rows ++ new ∷ [])
unfolding clashes
IsKeyed-concat new [] h k = (tt, tt)
IsKeyed-concat new (row ∷ rows) h k = (
  All-append (Apart row) rows (new ∷ []) k.0 ((ground arith, ground arith), tt),
  IsKeyed-concat new rows (ground arith) k.1,
)

IsKeyed-insert_intent :
    (new : IntentRow) (rows : List IntentRow) → IsKeyed rows → IsKeyed (insert_intent new rows)
unfolding insert_intent
IsKeyed-insert_intent new rows k = elim (Bool-cases (clashes new rows)) [
  | inl e ↦ rw e k
  | inr e ↦ rw e (IsKeyed-concat new rows e k)
]

-- If no two rows share an account and an identifier, nor an account and a nonce, then none do
-- after any `PutIntent`, however it ends.
pub put_intent-IsKeyed :
    (account : ℕ) (i : Intent) (db : Db)
    → IsKeyed db.tables.intents
    → IsKeyed (put_intent account i db).1.tables.intents
put_intent-IsKeyed account i db k = elim (Result-cases (put_intent account i db).0) [
  | inl done ↦
      rw ((put_intent_records account i db done).1.tables)
        (IsKeyed-insert_intent (intent_row account i) db.tables.intents k)
  | inr (e, failed) ↦ rw (put_intent_atomic account i db failed) k
]
