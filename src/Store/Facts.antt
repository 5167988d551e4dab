-- ===== src/Store/Facts.antt =====
-- Facts: `PutFact` of go/sqlite/sqlite.go.
use juice_rail.Base.{
  ℕ, ◌≡◌, refl, true, ◌&&◌, Option, none, some, List, [], ◌∷◌, ◌++◌, arith, ◌==◌, Bool-cases, inl,
  inr, if◌then◌else◌,
}
use juice_rail.Base.Lists.{find}
use juice_rail.Base.Error.{ok}
use juice_rail.Intent.{Fact}
use juice_rail.Sql.{Db, FactRow}
use juice_rail.Sql.Statements.{exec_ok}
use juice_rail.Store.{is_fact, has_fact, insert_fact, fact_row, put_fact}

-- The first of two answers that is there.
abbrev or_else : Option FactRow → Option FactRow → Option FactRow
or_else none o = o
or_else (some row) o = some row

find-concat :
    (b j : ℕ) (new : FactRow) (rows : List FactRow)
    → find (is_fact b j) (rows ++ new ∷ [])
      ≡ or_else (find (is_fact b j) rows) (if is_fact b j new then some new else none)
find-concat b j new [] = refl
find-concat b j new (row ∷ rows) = ground (arith, find-concat b j new rows)

found_of_has :
    (b j : ℕ) (new : FactRow) (rows : List FactRow)
    → has_fact rows new.account new.id ≡ true
    → find (is_fact b j) rows
      ≡ or_else (find (is_fact b j) rows) (if is_fact b j new then some new else none)
unfolding has_fact
found_of_has b j new [] h = cc
found_of_has b j new (row ∷ rows) h = ground (arith, found_of_has b j new rows)

pub find-insert_fact :
    (b j : ℕ) (new : FactRow) (rows : List FactRow)
    → find (is_fact b j) (insert_fact new rows)
      ≡ or_else (find (is_fact b j) rows) (if is_fact b j new then some new else none)
unfolding insert_fact
find-insert_fact b j new rows = elim (Bool-cases (has_fact rows new.account new.id)) [
  | inl e ↦ rw e (found_of_has b j new rows e)
  | inr e ↦ rw e (find-concat b j new rows)
]

-- After a successful `PutFact` every identifier of every account has the fact that it had before,
-- and if it had none and is the one written to, it has the new fact.
put_fact_once :
    (account id : ℕ) (f : Fact) (db : Db) (b j : ℕ)
    → (put_fact account id f db).0 ≡ ok tt
    → find (is_fact b j) (put_fact account id f db).1.tables.facts
      ≡ or_else
          (find (is_fact b j) db.tables.facts)
          (if account == b && id == j then some (fact_row account id f) else none)
unfolding put_fact fact_row
put_fact_once account id f db b j done =
    rw (exec_ok (λ t. record t { facts = insert_fact (fact_row account id f) t.facts }) db done)
      (find-insert_fact b j (fact_row account id f) db.tables.facts)
