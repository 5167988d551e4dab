-- ===== src/Trace/Attempts.antt =====
-- What `Submissions` of go/sqlite/sqlite.go returns is on record.
use juice_rail.Base.{ℕ, ◌≡◌, ap, ◌∙◌, ◌⊎◌, inl, inr, some, List, [], ◌∷◌, ◌++◌, arith}
use juice_rail.Base.Lists.{select, last?}
use juice_rail.Base.Error.{ok}
use juice_rail.Sql.Statements.{read_ok}
use juice_rail.Intent.{Submission}
use juice_rail.Sql.{Db, SubmissionRow}
use juice_rail.Sql.Order.{insert, sort}
use juice_rail.Store.{
  is_submission, scan_all, scan_submission, seq_le, submission_rows, submissions,
}
use juice_rail.Store.Attempts.{hash-scan_submission, scanned_by}
use juice_rail.Trace.{HasAttempt}

-- One of the rows has the hash.
abbrev HasHash : ℕ → List SubmissionRow → Type 0
HasHash hash [] = ⊥
HasHash hash (row ∷ rows) = (row.tx_hash ≡ hash) ⊎ HasHash hash rows

module _ (hash : ℕ) where
  HasHash-insert :
      (x : SubmissionRow) (ys : List SubmissionRow)
      → HasHash hash (insert seq_le x ys)
      → HasHash hash (x ∷ ys)
  unfolding insert
  HasHash-insert x [] h = h
  HasHash-insert x (y ∷ ys) h = ground (arith, HasHash-insert x ys)

  HasHash-sort : (xs : List SubmissionRow) → HasHash hash (sort seq_le xs) → HasHash hash xs
  unfolding sort
  HasHash-sort [] h = h
  HasHash-sort (x ∷ xs) h = ground (arith, HasHash-insert x (sort seq_le xs), HasHash-sort xs)

  HasAttempt-select :
      (account id : ℕ) (xs : List SubmissionRow)
      → HasHash hash (select (is_submission account id) xs)
      → HasAttempt account hash xs
  HasAttempt-select account id [] h = h
  HasAttempt-select account id (x ∷ xs) h = ground (arith, HasAttempt-select account id xs)

last_of :
    (row : SubmissionRow) (rows : List SubmissionRow) (x l : Submission) (xs : List Submission)
    → row.tx_hash ≡ x.tx_hash
    → ((last? xs ≡ some l) → HasHash l.tx_hash rows)
    → last? (x ∷ xs) ≡ some l
    → HasHash l.tx_hash (row ∷ rows)
last_of row rows x l [] e later k = let same : x ≡ l = cc in inl (e ∙ ap (λ s. s.tx_hash) same)
last_of row rows x l (y ∷ ys) e later k = inr (later k)

none_last : (subs : List Submission) → subs ≡ [] → (l : Submission) → ¬ (last? subs ≡ some l)
none_last subs e l = rw e (λ k. cc k)

last_scanned :
    (rows : List SubmissionRow) (subs : List Submission) (l : Submission)
    → scan_all scan_submission rows ≡ ok subs
    → last? subs ≡ some l
    → HasHash l.tx_hash rows
unfolding scan_all
last_scanned [] subs l h k = let none_read : subs ≡ [] = cc in absurd (none_last subs none_read l k)
last_scanned (row ∷ rows) subs l h k =
    let (x, xs, e, e', es) =
      scanned_by (scan_submission row) (scan_all scan_submission rows) subs h in
    last_of row rows x l xs (hash-scan_submission row x e)
      (λ later. last_scanned rows xs l e' later) (rw es at k)

-- The last attempt that is read from the store is on record.
pub last_recorded :
    (account id : ℕ) (db : Db) (subs : List Submission) (l : Submission)
    → (submissions account id db).0 ≡ ok subs
    → last? subs ≡ some l
    → HasAttempt account l.tx_hash db.tables.submissions
unfolding submissions submission_rows
last_recorded account id db subs l h k =
    HasAttempt-select l.tx_hash account id db.tables.submissions (
      HasHash-sort l.tx_hash (select (is_submission account id) db.tables.submissions)
        (last_scanned _ subs l (read_ok _ _ db h) k))

module _ (account hash : ℕ) where
  pub HasAttempt-append :
      (xs ys : List SubmissionRow) → HasAttempt account hash xs → HasAttempt account hash (xs ++ ys)
  HasAttempt-append [] ys h = absurd h
  HasAttempt-append (x ∷ xs) ys (inl h) = inl h
  HasAttempt-append (x ∷ xs) ys (inr h) = inr (HasAttempt-append xs ys h)

  pub HasAttempt-concat :
      (xs : List SubmissionRow) (new : SubmissionRow)
      → new.account ≡ account
      → new.tx_hash ≡ hash
      → HasAttempt account hash (xs ++ new ∷ [])
  HasAttempt-concat [] new a h = inl (a, h)
  HasAttempt-concat (x ∷ xs) new a h = inr (HasAttempt-concat xs new a h)
