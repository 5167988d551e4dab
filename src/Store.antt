-- ===== src/Store.antt =====
-- The methods of `Store` in go/sqlite/sqlite.go, over the tables of `Sql`.
pub mod Rows
pub mod Intents
pub mod Facts
pub mod Lookup
pub mod Submissions
pub mod Attempts
mod Tests
use juice_rail.Base.{
  ℕ, suc, ◌%◌, Bool, false, ◌&&◌, ◌||◌, not, Option, none, some, List, [], ◌∷◌, ◌++◌, leb, ◌==◌,
  if◌then◌else◌,
}
use juice_rail.Base.Int.{ℤ, pos, eqb_ℤ, leb_ℤ}
use juice_rail.Base.Lists.{Bytes, find, select}
use juice_rail.Base.Decimal.{print_ℤ, read_ℤ}
use mathlib.Core.Option
use juice_rail.Base.Error
use juice_rail.Base.Error.{Result, ok, err, plain, intent_conflict, refuse_if}
use juice_rail.Intent
use juice_rail.Intent.{Intent, Submission, Fact, same_terms}
use juice_rail.Sql.{
  Tables, Sql, IntentRow, SubmissionRow, FactRow, lift, exec, query, transaction, ◌>>=◌, ◌>>◌,
}
use juice_rail.Sql.Word.{int64, uint64}
use juice_rail.Sql.Order.{sort}

-- `amountText`, and `deltaText`, which is the same
unfoldable pub amount_text : Option ℤ → Bytes
amount_text none = b'0' ∷ []
amount_text (some v) = print_ℤ v

unfoldable or_plain : Option ℤ → Result ℤ
or_plain none = err plain
or_plain (some v) = ok v

-- `amountValue`
unfoldable pub amount_value : Bytes → Result ℤ
unfolding or_plain
amount_value s = or_plain (read_ℤ s)

-- The values that `PutIntent` binds.
unfoldable pub intent_row : ℕ → Intent → IntentRow
intent_row account i = record {
  account = account;
  id = i.id;
  kind = int64 i.kind;
  dest = i.to;
  amount = amount_text i.amount;
  delta = amount_text i.delta;
  nonce = int64 i.nonce;
  calldata = i.calldata;
  from_block = int64 i.from_block;
}

-- `scanIntent`
unfoldable pub scan_intent : IntentRow → Result Intent
scan_intent row = Error.◌>>=◌ (amount_value row.amount) λ value.
    Error.◌>>=◌ (amount_value row.delta) λ bought. ok (record {
      id = row.id;
      kind = uint64 row.kind % 256;
      to = row.dest;
      amount = some value;
      delta = some bought;
      nonce = uint64 row.nonce;
      calldata = row.calldata;
      from_block = uint64 row.from_block;
    })

abbrev pub is_intent : ℕ → ℕ → IntentRow → Bool
is_intent account id row = row.account == account && row.id == id

abbrev pub is_nonce : ℕ → ℤ → IntentRow → Bool
is_nonce account nonce row = row.account == account && eqb_ℤ row.nonce nonce

-- `PRIMARY KEY (account, id)` and the unique index on `(account, nonce)`
unfoldable pub clashes : IntentRow → List IntentRow → Bool
clashes new [] = false
clashes new (row ∷ rows) =
    is_intent new.account new.id row || (is_nonce new.account new.nonce row || clashes new rows)

-- `INSERT OR IGNORE INTO intents`
unfoldable pub insert_intent : IntentRow → List IntentRow → List IntentRow
insert_intent new rows = if clashes new rows then rows else rows ++ new ∷ []

-- What is found under the identifier must agree; if nothing is, the unique nonce index refused the
-- row.
unfoldable pub agree : Intent → Option IntentRow → Result (Unit {0})
agree i none = err intent_conflict
agree i (some row) =
    Error.◌>>=◌ (scan_intent row)
      λ recorded. refuse_if (not (same_terms recorded i)) intent_conflict

-- What `PutIntent` does inside its transaction.
unfoldable record_body : ℕ → Intent → Sql (Unit {0})
record_body account i = do
  exec (λ t. record t { intents = insert_intent (intent_row account i) t.intents })
  found ← query (λ t. find (is_intent account i.id) t.intents)
  lift (agree i found)

unfoldable put_valid : Result (Unit {0}) → Sql (Unit {0}) → Sql (Unit {0})
put_valid (ok u) body = transaction body
put_valid (err e) body = lift (err e)

-- `PutIntent`
unfoldable pub put_intent : ℕ → Intent → Sql (Unit {0})
unfolding put_valid record_body
put_intent account i = put_valid (Intent.validate i) (record_body account i)

unfoldable pub scan_found : Option IntentRow → Result (Option Intent)
scan_found none = ok none
scan_found (some row) = Error.◌>>=◌ (scan_intent row) (λ i. ok (some i))

-- `Intent`
unfoldable pub intent : ℕ → ℕ → Sql (Option Intent)
intent account id = do
  found ← query (λ t. find (is_intent account id) t.intents)
  lift (scan_found found)

-- `IntentByNonce`
unfoldable pub intent_by_nonce : ℕ → ℕ → Sql (Option Intent)
intent_by_nonce account nonce = do
  found ← query (λ t. find (is_nonce account (int64 nonce)) t.intents)
  lift (scan_found found)

unfoldable pub scan_all {ℓ κ} :
    {A : Type ℓ} {B : Type κ} → (A → Result B) → List A → Result (List B)
scan_all scan [] = ok []
scan_all scan (row ∷ rows) =
    Error.◌>>=◌ (scan row) λ x. Error.◌>>=◌ (scan_all scan rows) λ xs. ok (x ∷ xs)

abbrev pub is_fact : ℕ → ℕ → FactRow → Bool
is_fact account id row = row.account == account && row.id == id

unfoldable pub has_fact : List FactRow → ℕ → ℕ → Bool
has_fact [] account id = false
has_fact (row ∷ rows) account id = is_fact account id row || has_fact rows account id

abbrev nonce_le : IntentRow → IntentRow → Bool
nonce_le a b = leb_ℤ a.nonce b.nonce

-- The query of `Pending`.
unfoldable pending_rows : ℕ → Tables → List IntentRow
pending_rows account t =
    sort nonce_le (
      select (λ row. row.account == account && not (has_fact t.facts row.account row.id)) t.intents)

-- `Pending`
unfoldable pub pending : ℕ → Sql (List Intent)
unfolding pending_rows
pending account = do rows ← query (pending_rows account); lift (scan_all scan_intent rows)

abbrev pub is_submission : ℕ → ℕ → SubmissionRow → Bool
is_submission account id row = row.account == account && row.id == id

-- `COALESCE(MAX(seq), -1) + 1`
unfoldable pub next_seq : List SubmissionRow → ℕ → ℕ → ℕ
next_seq [] account id = 0
next_seq (row ∷ rows) account id =
    let rest = next_seq rows account id in
    if is_submission account id row then (if leb rest row.seq then suc row.seq else rest) else rest

unfoldable pub submission_row : ℕ → ℕ → ℕ → Submission → SubmissionRow
submission_row account id seq s = record {
  account = account;
  id = id;
  seq = seq;
  tx_hash = s.tx_hash;
  gas = int64 s.gas;
  tip = amount_text s.tip;
  fee_cap = amount_text s.fee_cap;
}

unfoldable pub append_body : ℕ → ℕ → Submission → Sql (Unit {0})
append_body account id s = do
  next ← query (λ t. next_seq t.submissions account id)
  exec (λ t. record t { submissions = t.submissions ++ submission_row account id next s ∷ [] })

-- `AppendSubmission`
unfoldable pub append_submission : ℕ → ℕ → Submission → Sql (Unit {0})
unfolding append_body
append_submission account id s = transaction (append_body account id s)

unfoldable pub scan_submission : SubmissionRow → Result Submission
scan_submission row = Error.◌>>=◌ (amount_value row.tip) λ tip.
    Error.◌>>=◌ (amount_value row.fee_cap) λ fee_cap. ok (record {
      tx_hash = row.tx_hash;
      gas = uint64 row.gas;
      tip = some tip;
      fee_cap = some fee_cap;
    })

abbrev pub seq_le : SubmissionRow → SubmissionRow → Bool
seq_le a b = leb a.seq b.seq

unfoldable pub submission_rows : ℕ → ℕ → Tables → List SubmissionRow
submission_rows account id t = sort seq_le (select (is_submission account id) t.submissions)

-- `Submissions`
unfoldable pub submissions : ℕ → ℕ → Sql (List Submission)
unfolding submission_rows
submissions account id = do
  rows ← query (submission_rows account id)
  lift (scan_all scan_submission rows)

unfoldable pub fact_row : ℕ → ℕ → Fact → FactRow
fact_row account id f = record {
  account = account;
  id = id;
  tx_hash = f.tx_hash;
  block_number = int64 f.block_number;
  executed = if f.executed then pos 1 else pos 0;
}

-- `INSERT OR IGNORE INTO facts`
unfoldable pub insert_fact : FactRow → List FactRow → List FactRow
insert_fact new rows = if has_fact rows new.account new.id then rows else rows ++ new ∷ []

-- `PutFact`
unfoldable pub put_fact : ℕ → ℕ → Fact → Sql (Unit {0})
put_fact account id f = exec (λ t. record t { facts = insert_fact (fact_row account id f) t.facts })

unfoldable pub scan_fact : FactRow → Fact
scan_fact row = record {
  tx_hash = row.tx_hash;
  block_number = uint64 row.block_number;
  executed = not (eqb_ℤ row.executed (pos 0));
}

-- `Fact`
unfoldable pub fact : ℕ → ℕ → Sql (Option Fact)
fact account id = query (λ t. Option.map scan_fact (find (is_fact account id) t.facts))
