-- ===== src/Scan.antt =====
-- Incoming money: `ScanDeposits` of go/rail/status.go.
pub mod Spans
pub mod Held
pub mod Incoming
pub mod Found
pub mod Passes
pub mod Skips
mod Tests
pub mod Quiet
use mathlib.Core.Option
use juice_rail.Base.{
  ℕ, zero, suc, ◌+◌, ◌-◌, ◌%◌, ◌||◌, Option, none, some, List, [], ◌∷◌, ◌++◌, ltb, ◌==◌,
  if◌then◌else◌,
}
use juice_rail.Base.Int.{pos}
use juice_rail.Base.Lists.{length}
use juice_rail.Base.Error.{Result, ok, err}
use juice_rail.Intent.{Deposit}
use juice_rail.Chain.{Log, FilterQuery, topic_transfer}
use juice_rail.Logs.{address_of, last_word}
use juice_rail.Observed
use juice_rail.Sql.Word.{word}
use juice_rail.Settle.{settled_header}
use juice_rail.Machine.{Rail, M, sql, ask, pure, caught, ◌>>=◌}

abbrev max_scan_span : ℕ
max_scan_span = 10_000

-- The last block of the span that starts at `from`.
unfoldable span_end : ℕ → ℕ → ℕ
span_end from to = let last = (from + max_scan_span - 1) % word in if ltb last to then last else to

-- The spans of the loop `for from <= to`. The start goes round at 2 ^ 64, so the loop takes fuel, and
-- `none` says that it has not ended.
unfoldable pub spans : ℕ → ℕ → ℕ → Option (List (ℕ × ℕ))
unfolding span_end
spans zero from to = none
spans (suc fuel) from to =
    let rest = spans fuel ((span_end from to + 1) % word) to in
    if ltb to from then some [] else Option.map (λ l. (from, span_end from to) ∷ l) rest

-- The sender of a log of three topics.
unfoldable sender_of : List ℕ → Option ℕ
sender_of (a ∷ b ∷ c ∷ []) = some (address_of b)
sender_of _ = none

-- Money that the account sent itself is not incoming money.
unfoldable deposit_from : Rail → Log → Option ℕ → Option Deposit
deposit_from r lg none = none
deposit_from r lg (some sender) =
    if sender == r.address || last_word lg.payload == 0
    then none
    else some (record {
      tx_hash = lg.tx_hash;
      log_index = lg.index;
      sender = sender;
      amount = some (pos (last_word lg.payload));
      block_number = lg.block_number;
    })

-- The deposit that a log shows, unless the loop passes the log over.
unfoldable pub deposit_of : Rail → Log → Option Deposit
unfolding sender_of deposit_from
deposit_of r lg =
    if lg.removed || ltb (length lg.payload) 32
    then none
    else deposit_from r lg (sender_of lg.topics)

-- What a scan has found, and how it ended: with what it has found, an error comes too.
pub record Scanned : Type 0 where
  pub found : List Deposit
  pub ended : Result (Unit {0})

unfoldable query_of : Rail → ℕ → ℕ → FilterQuery
query_of r from last = record {
  from_block = from;
  to_block = last;
  addresses = r.domain.token ∷ [];
  topics = (topic_transfer r.chain ∷ []) ∷ [] ∷ (r.address ∷ []) ∷ [];
}

module _ (r : Rail) where
  -- `if err != nil { return found, err }`
  abbrev go_on : List Deposit → Result (Unit {0}) → M r.chain.Node Scanned → M r.chain.Node Scanned
  go_on found (ok u) rest = rest
  go_on found (err e) rest = pure (record { found = found; ended = err e })

  -- One round of the loop over the logs of a span: the rest of the loop is given.
  unfoldable record_log :
      Option Deposit
      → List Deposit
      → (List Deposit → M r.chain.Node Scanned)
      → M r.chain.Node Scanned
  record_log none found rest = rest found
  record_log (some d) found rest = do
    answer ← caught (sql (Observed.put_deposit r.address d))
    go_on found answer (rest (found ++ d ∷ []))

  unfoldable record_logs :
      List Log → List Deposit → (List Deposit → M r.chain.Node Scanned) → M r.chain.Node Scanned
  unfolding record_log
  record_logs [] found rest = rest found
  record_logs (lg ∷ logs) found rest =
      record_log (deposit_of r lg) found (λ more. record_logs logs more rest)

  -- The logs of a span, or the failure to read them.
  unfoldable on_logs :
      Result (List Log)
      → List Deposit
      → (List Deposit → M r.chain.Node Scanned)
      → M r.chain.Node Scanned
  unfolding record_logs
  on_logs (err e) found rest = pure (record { found = found; ended = err e })
  on_logs (ok logs) found rest = record_logs logs found rest

  -- The loop over the spans.
  unfoldable pub scan_spans : List (ℕ × ℕ) → List Deposit → M r.chain.Node Scanned
  unfolding on_logs query_of
  scan_spans [] found = pure (record { found = found; ended = ok tt })
  scan_spans ((from, last) ∷ later) found = do
    answer ← caught (ask (r.chain.filter_logs (query_of r from last)))
    on_logs answer found λ more. do
      kept ← caught (sql (Observed.put_cursor r.address last))
      go_on more kept (scan_spans later more)

-- Where the scan starts.
unfoldable first_block : Rail → Option ℕ → ℕ
first_block r none = r.domain.from_block
first_block r (some reached) = (reached + 1) % word

-- `ScanDeposits`, with fuel for its spans. `none` says that the spans have no end.
unfoldable scan_by : (r : Rail) → Option (List (ℕ × ℕ)) → M r.chain.Node (Option Scanned)
scan_by r none = pure none
scan_by r (some l) = do s ← scan_spans r l []; pure (some s)

unfoldable pub scan_deposits : (r : Rail) → ℕ → M r.chain.Node (Option Scanned)
unfolding first_block scan_by
scan_deposits r fuel = do
  head ← settled_header r
  reached ← sql (Observed.cursor r.address)
  scan_by r (spans fuel (first_block r reached) (head.number % word))
