-- ===== src/Store/Attempts.antt =====
-- The attempts on record: rows of `submissions` in go/sqlite/sqlite.go.
use juice_rail.Base.{ℕ, ◌≡◌, refl, sym, ◌∙◌, inl, inr, List, [], ◌∷◌, ◌++◌, arith}
use mathlib.Core.Path.{subst}
use juice_rail.Base.Lists.{Any, Any-concat, select}
use juice_rail.Base.Error
use juice_rail.Base.Error.{Result, ok, err, ok-injective}
use juice_rail.Intent.{Submission}
use juice_rail.Sql.{Tables, Db, SubmissionRow}
use juice_rail.Sql.Statements.{read_ok}
use juice_rail.Sql.Order.{Any-sort}
use juice_rail.Store.{
  is_submission, scan_all, scan_submission, seq_le, submission_row, submission_rows, submissions,
}

-- The row is that of an attempt of the intent, with the hash.
abbrev IsAttempt : ℕ → ℕ → ℕ → SubmissionRow → Type 0
IsAttempt account id hash row = (row.account ≡ account) × (row.id ≡ id) × (row.tx_hash ≡ hash)

-- An attempt with the hash is on record for the intent.
abbrev pub IsOnRecord : ℕ → ℕ → ℕ → Tables → Type 0
IsOnRecord account id hash t = Any (IsAttempt account id hash) t.submissions

abbrev HasHash : ℕ → SubmissionRow → Type 0
HasHash hash row = row.tx_hash ≡ hash

pub hash-scan_submission :
    (row : SubmissionRow) (s : Submission) → scan_submission row ≡ ok s → row.tx_hash ≡ s.tx_hash
unfolding scan_submission
hash-scan_submission row s h = ground arith

pub scanned_by :
    (a : Result Submission) (b : Result (List Submission)) (subs : List Submission)
    → Error.◌>>=◌ a (λ x. Error.◌>>=◌ b (λ xs. ok (x ∷ xs))) ≡ ok subs
    → (x : Submission) × (xs : List Submission) × (a ≡ ok x) × (b ≡ ok xs) × (subs ≡ x ∷ xs)
scanned_by (ok x) (ok xs) subs h = (x, xs, refl, refl, sym (ok-injective h))
scanned_by (ok x) (err e) subs h = cc
scanned_by (err e) b subs h = cc

module _ (account id hash : ℕ) where
  IsAttempt-select :
      (rows : List SubmissionRow)
      → Any (HasHash hash) (select (is_submission account id) rows)
      → Any (IsAttempt account id hash) rows
  IsAttempt-select [] h = h
  IsAttempt-select (row ∷ rows) h = ground (arith, IsAttempt-select rows)

  rows-IsOnRecord :
      (t : Tables)
      → Any (HasHash hash) (submission_rows account id t)
      → IsOnRecord account id hash t
  unfolding submission_rows
  rows-IsOnRecord t h =
      IsAttempt-select t.submissions
        (Any-sort seq_le (HasHash hash) (select (is_submission account id) t.submissions) h)

  -- A row that has become the last of its intent is on record.
  pub added-IsOnRecord :
      (t : Tables) (rows : List SubmissionRow) (seq : ℕ) (s : Submission)
      → s.tx_hash ≡ hash
      → submission_rows account id t ≡ rows ++ submission_row account id seq s ∷ []
      → IsOnRecord account id hash t
  unfolding submission_row
  added-IsOnRecord t rows seq s same e = rows-IsOnRecord t (
      subst (Any (HasHash hash)) (sym e)
        (Any-concat (HasHash hash) rows (submission_row account id seq s) same))

  scanned :
      (rows : List SubmissionRow) (subs : List Submission)
      → scan_all scan_submission rows ≡ ok subs
      → Any (λ s. s.tx_hash ≡ hash) subs
      → Any (HasHash hash) rows
  unfolding scan_all
  scanned [] subs h a =
      let none_read : subs ≡ [] = sym (ok-injective h) in
      subst (Any (λ s. s.tx_hash ≡ hash)) none_read a
  scanned (row ∷ rows) subs h a =
      let (x, xs, e, e', es) =
        scanned_by (scan_submission row) (scan_all scan_submission rows) subs h in
      found x xs (hash-scan_submission row x e) (scanned rows xs e')
        (subst (Any (λ s. s.tx_hash ≡ hash)) es a)
    where
      found :
          (x : Submission) (xs : List Submission)
          → row.tx_hash ≡ x.tx_hash
          → (Any (λ s. s.tx_hash ≡ hash) xs → Any (HasHash hash) rows)
          → Any (λ s. s.tx_hash ≡ hash) (x ∷ xs)
          → Any (HasHash hash) (row ∷ rows)
      found x xs same later (inl here) = inl (same ∙ here)
      found x xs same later (inr there) = inr (later there)

  -- What `Submissions` returns is on record.
  pub read-IsOnRecord :
      (db : Db) (subs : List Submission)
      → (submissions account id db).0 ≡ ok subs
      → Any (λ s. s.tx_hash ≡ hash) subs
      → IsOnRecord account id hash db.tables
  unfolding submissions
  read-IsOnRecord db subs h a = rows-IsOnRecord db.tables (scanned _ subs (read_ok _ _ db h) a)
