-- ===== src/Scan/Held.antt =====
-- Which deposits are on disk, and that `PutDeposit` and `PutCursor` of go/sqlite/sqlite.go keep them there.
use juice_rail.Base.{ℕ, ◌≡◌, ap, inl, inr, true, List, [], ◌∷◌, ◌++◌, arith, Bool-cases}
use juice_rail.Base.Lists.{All}
use juice_rail.Base.Error.{Error, ok, err}
use juice_rail.Intent.{Deposit}
use juice_rail.Sql.{Db, DepositRow}
use juice_rail.Sql.Statements.{exec_ok, exec_err}
use juice_rail.Store.Intents.{Result-cases}
use juice_rail.Observed
use juice_rail.Observed.{deposit_row, has_log, insert_deposit, put_deposit}
use juice_rail.Observed.Deposits.{has_log-concat}

-- A row under the identity of the deposit is on disk.
abbrev pub IsHeld : ℕ → Db → Deposit → Type 0
IsHeld account db d = has_log (deposit_row account d) db.tables.deposits ≡ true

has_log-append :
    (x new : DepositRow) (rows : List DepositRow)
    → has_log x rows ≡ true
    → has_log x (rows ++ new ∷ []) ≡ true
unfolding has_log
has_log-append x new [] h = cc
has_log-append x new (row ∷ rows) h = ground (arith, has_log-append x new rows)

has_log-insert_deposit :
    (x new : DepositRow) (rows : List DepositRow)
    → has_log x rows ≡ true
    → has_log x (insert_deposit new rows) ≡ true
unfolding insert_deposit
has_log-insert_deposit x new rows h = elim (Bool-cases (has_log new rows)) [
  | inl e ↦ rw e h
  | inr e ↦ rw e (has_log-append x new rows h)
]

has_log-inserted :
    (new : DepositRow) (rows : List DepositRow) → has_log new (insert_deposit new rows) ≡ true
unfolding insert_deposit
has_log-inserted new rows = elim (Bool-cases (has_log new rows)) [
  | inl e ↦ rw e e
  | inr e ↦ rw e (has_log-concat new rows)
]

pub All-same :
    (account : ℕ) (db db' : Db) (found : List Deposit)
    → db'.tables.deposits ≡ db.tables.deposits
    → All (IsHeld account db) found
    → All (IsHeld account db') found
All-same account db db' [] e a = tt
All-same account db db' (d ∷ ds) e a = (rw e a.0, All-same account db db' ds e a.1)

module _ (account : ℕ) (new : Deposit) (db : Db) where
  pub All-IsHeld :
      (found : List Deposit)
      → (put_deposit account new db).0 ≡ ok tt
      → All (IsHeld account db) found
      → All (IsHeld account (put_deposit account new db).1) found
  unfolding put_deposit
  All-IsHeld [] done a = tt
  All-IsHeld (d ∷ ds) done a = (
    rw (exec_ok _ db done) (
        has_log-insert_deposit (deposit_row account d) (deposit_row account new) db.tables.deposits
          a.0),
    All-IsHeld ds done a.1,
  )

  pub put_deposit-IsHeld :
      (put_deposit account new db).0 ≡ ok tt → IsHeld account (put_deposit account new db).1 new
  unfolding put_deposit
  put_deposit-IsHeld done =
      rw (exec_ok _ db done) (has_log-inserted (deposit_row account new) db.tables.deposits)

  pub All-unchanged :
      {e : Error} (found : List Deposit)
      → (put_deposit account new db).0 ≡ err e
      → All (IsHeld account db) found
      → All (IsHeld account (put_deposit account new db).1) found
  unfolding put_deposit
  All-unchanged found failed a =
      All-same account db (put_deposit account new db).1 found
        (ap (λ t. t.deposits) (exec_err _ db failed)) a

pub deposits-put_cursor :
    (account block : ℕ) (db : Db)
    → (Observed.put_cursor account block db).1.tables.deposits ≡ db.tables.deposits
unfolding Observed.put_cursor Observed.advance
deposits-put_cursor account block db =
    elim (Result-cases (Observed.put_cursor account block db).0) [
      | inl done ↦ ap (λ t. t.deposits) (exec_ok _ db done)
      | inr (e, failed) ↦ ap (λ t. t.deposits) (exec_err _ db failed)
    ]
