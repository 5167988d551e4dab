-- ===== src/Store/Submissions.antt =====
-- Attempts: `AppendSubmission` and `Submissions` of go/sqlite/sqlite.go.
use juice_rail.Base.{
  ℕ, ◌≤◌, ◌≡◌, refl, sym, ap, ◌∙◌, Bool, true, false, ◌&&◌, List, [], ◌∷◌, ◌++◌, append-nil, arith,
  ◌==◌, Bool-cases, inl, inr, if◌then◌else◌,
}
use juice_rail.Base.Lists.{select, All}
use juice_rail.Base.Error.{ok}
use juice_rail.Intent.{Submission}
use juice_rail.Sql.{Tables, Db, SubmissionRow}
use juice_rail.Sql.Order.{sort, sort-concat}
use juice_rail.Sql.Statements.{transaction_ok, Ran}
use juice_rail.Store.{
  is_submission, next_seq, submission_row, append_body, append_submission, seq_le, submission_rows,
}

select-append :
    (p : SubmissionRow → Bool) (rows new : List SubmissionRow)
    → select p (rows ++ new) ≡ select p rows ++ select p new
select-append p [] new = refl
select-append p (row ∷ rows) new = ground (arith, select-append p rows new)

-- Every recorded attempt of an intent has a number below the next one.
below_next :
    (account id : ℕ) (rows : List SubmissionRow) (new : SubmissionRow)
    → next_seq rows account id ≤ new.seq
    → All (λ row. seq_le row new ≡ true) (select (is_submission account id) rows)
unfolding next_seq
below_next account id [] new h = tt
below_next account id (row ∷ rows) new h = elim (Bool-cases (is_submission account id row)) [
  | inl e ↦ rw e (ground (arith, e), below_next account id rows new (ground (arith, e)))
  | inr e ↦ rw e (below_next account id rows new (ground (arith, e)))
]

-- The rows of an identifier after one more row.
added :
    (t : Tables) (new : SubmissionRow) (b j : ℕ) (z : Bool)
    → is_submission b j new ≡ z
    → next_seq t.submissions new.account new.id ≤ new.seq
    → sort seq_le (select (is_submission b j) t.submissions ++ (if z then new ∷ [] else []))
      ≡ sort seq_le (select (is_submission b j) t.submissions) ++ (if z then new ∷ [] else [])
added t new b j true e h =
    let same_account : new.account ≡ b = ground (arith, e) in
    let same_id : new.id ≡ j = ground (arith, e) in
    sort-concat seq_le (select (is_submission b j) t.submissions) new
      (below_next b j t.submissions new (rw (← same_account, ← same_id) h))
added t new b j false e h = append_none (select (is_submission b j) t.submissions)
  where
    append_none : (rows : List SubmissionRow) → sort seq_le (rows ++ []) ≡ sort seq_le rows ++ []
    append_none rows = ap (sort seq_le) (append-nil rows) ∙ sym (append-nil (sort seq_le rows))

select_one :
    (b j : ℕ) (new : SubmissionRow)
    → select (is_submission b j) (new ∷ []) ≡ (if is_submission b j new then new ∷ [] else [])
select_one b j new = refl

rows_added :
    (t : Tables) (new : SubmissionRow) (b j : ℕ)
    → next_seq t.submissions new.account new.id ≤ new.seq
    → submission_rows b j (record t { submissions = t.submissions ++ new ∷ [] })
      ≡ submission_rows b j t ++ (if is_submission b j new then new ∷ [] else [])
unfolding submission_rows
rows_added t new b j h =
    rw (select-append (is_submission b j) t.submissions (new ∷ []), select_one b j new)
      (added t new b j (is_submission b j new) refl h)

abbrev pub with_attempt : ℕ → ℕ → Submission → Tables → Tables
with_attempt account id s t = record t {
  submissions =
      t.submissions ++ submission_row account id (next_seq t.submissions account id) s ∷ [];
}

body_of :
    (account id : ℕ) (s : Submission) (fs : List Bool) (t : Tables)
    → (append_body account id s (record { tables = t; faults = fs })).0 ≡ ok tt
    → (append_body account id s (record { tables = t; faults = fs })).1.tables
      ≡ with_attempt account id s t
unfolding append_body
body_of account id s [] t h = refl
body_of account id s (true ∷ fs) t h = cc
body_of account id s (false ∷ []) t h = refl
body_of account id s (false ∷ true ∷ fs) t h = cc
body_of account id s (false ∷ false ∷ fs) t h = refl

pub tables_after :
    (account id : ℕ) (s : Submission) (db : Db) (after : Tables)
    → Ran (append_body account id s) db after
    → after ≡ with_attempt account id s db.tables
tables_after account id s db after (start, same, done, eq) =
    sym eq
    ∙ body_of account id s start.faults start.tables done
    ∙ ap (with_attempt account id s) same

-- A successful `AppendSubmission` puts the attempt behind all attempts of its own account and
-- identifier, in the order in which `Submissions` lists them, and changes the attempts of no other.
pub append_submission_adds :
    (account id : ℕ) (s : Submission) (db : Db) (b j : ℕ)
    → (append_submission account id s db).0 ≡ ok tt
    → submission_rows b j (append_submission account id s db).1.tables
      ≡ submission_rows b j db.tables
        ++ (if account == b && id == j
            then submission_row account id (next_seq db.tables.submissions account id) s ∷ []
            else [])
unfolding append_submission submission_row
append_submission_adds account id s db b j done =
    let new = submission_row account id (next_seq db.tables.submissions account id) s in
    rw (tables_after account id s db _ (transaction_ok (append_body account id s) db done))
      (rows_added db.tables new b j (omega arith))
