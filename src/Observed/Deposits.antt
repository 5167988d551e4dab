-- ===== src/Observed/Deposits.antt =====
-- Deposits: `PutDeposit` of go/sqlite/sqlite.go.
use juice_rail.Base.{ℕ, ◌≡◌, ap, sym, ◌∙◌, true, List, [], ◌∷◌, ◌++◌, arith, Bool-cases, inl, inr}
use juice_rail.Base.Error.{ok}
use juice_rail.Intent.{Deposit}
use juice_rail.Sql.{Db, DepositRow, Tables}
use juice_rail.Sql.Statements.{exec_ok}
use juice_rail.Observed.{deposit_row, same_log, has_log, insert_deposit, put_deposit}

same_log_refl : (row : DepositRow) → same_log row row ≡ true
same_log_refl row = ground arith

pub has_log-concat :
    (new : DepositRow) (rows : List DepositRow) → has_log new (rows ++ new ∷ []) ≡ true
unfolding has_log
has_log-concat new [] = ground (arith, same_log_refl new)
has_log-concat new (row ∷ rows) = ground (arith, has_log-concat new rows)

insert_again :
    (new : DepositRow) (rows : List DepositRow)
    → insert_deposit new (insert_deposit new rows) ≡ insert_deposit new rows
unfolding insert_deposit
insert_again new rows = elim (Bool-cases (has_log new rows)) [
  | inl e ↦ rw (e, e)
  | inr e ↦ rw (e, has_log-concat new rows)
]

abbrev with_deposit : ℕ → Deposit → Tables → Tables
with_deposit account d t = record t { deposits = insert_deposit (deposit_row account d) t.deposits }

twice :
    (account : ℕ) (d : Deposit) (t : Tables)
    → with_deposit account d (with_deposit account d t) ≡ with_deposit account d t
twice account d t =
    ap (λ rows. record t { deposits = rows }) (insert_again (deposit_row account d) t.deposits)

-- A deposit that is recorded again, as a scan does that covers a block twice, is not counted twice:
-- after a successful `PutDeposit` another successful one of the same deposit changes no table.
put_deposit_once :
    (account : ℕ) (d : Deposit) (db : Db)
    → (put_deposit account d db).0 ≡ ok tt
    → (put_deposit account d (put_deposit account d db).1).0 ≡ ok tt
    → (put_deposit account d (put_deposit account d db).1).1.tables
      ≡ (put_deposit account d db).1.tables
unfolding put_deposit
put_deposit_once account d db first second =
    let f : (t : Tables) → Tables = with_deposit account d in
    exec_ok f (put_deposit account d db).1 second
    ∙ ap f (exec_ok f db first)
    ∙ twice account d db.tables
    ∙ sym (exec_ok f db first)
