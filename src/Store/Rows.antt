-- ===== src/Store/Rows.antt =====
-- Records and their rows: `scanIntent`, `amountText`, `amountValue` of go/sqlite/sqlite.go.
use juice_rail.Base.{ℕ, ◌%◌, ◌<◌, ◌≡◌, refl, Option, none, some, arith}
use juice_rail.Base.Int.{ℤ, or_zero}
use juice_rail.Base.Decimal.{read_ℤ, read_ℤ-print_ℤ}
use juice_rail.Base.Error.{ok}
use juice_rail.Intent.{Intent, Submission}
use juice_rail.Sql.Word.{word, int64, uint64, uint64-int64}
use juice_rail.Store.{
  amount_text, amount_value, intent_row, scan_intent, submission_row, scan_submission,
}

-- nil is stored as zero.
amount_value-amount_text : (o : Option ℤ) → amount_value (amount_text o) ≡ ok (or_zero o)
unfolding amount_value amount_text
amount_value-amount_text none = unfold read_ℤ in refl
amount_value-amount_text (some v) = rw (read_ℤ-print_ℤ v)

-- The fields that Go's types bound.
pub record InRange (i : Intent) : Type 0 where
  pub kind : i.kind < 256
  pub nonce : i.nonce < word
  pub from_block : i.from_block < word

kind_back : (k : ℕ) → k < 256 → uint64 (int64 k) % 256 ≡ k
kind_back k h = rw (uint64-int64 k (omega arith)) (omega arith)

-- What a stored record reads back as: a missing amount is zero, all else is kept.
unfoldable pub normal : Intent → Intent
normal i = record i { amount = some (or_zero i.amount); delta = some (or_zero i.delta) }

-- A record of Go's types, stored and read, is the record with its missing amounts made zero.
pub scan_intent-intent_row :
    (account : ℕ) (i : Intent) → InRange i → scan_intent (intent_row account i) ≡ ok (normal i)
unfolding scan_intent intent_row normal
scan_intent-intent_row account i h = rw (
  amount_value-amount_text i.amount,
  amount_value-amount_text i.delta,
  kind_back i.kind h.kind,
  uint64-int64 i.nonce h.nonce,
  uint64-int64 i.from_block h.from_block,
)

scan_submission-submission_row :
    (account id seq : ℕ) (s : Submission)
    → s.gas < word
    → scan_submission (submission_row account id seq s)
      ≡ ok (record s { tip = some (or_zero s.tip); fee_cap = some (or_zero s.fee_cap) })
unfolding scan_submission submission_row
scan_submission-submission_row account id seq s h =
    rw (amount_value-amount_text s.tip, amount_value-amount_text s.fee_cap, uint64-int64 s.gas h)
