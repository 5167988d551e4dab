-- ===== src/Scan/Quiet.antt =====
-- What `ScanDeposits` of go/rail/status.go leaves alone.
use juice_rail.Base.{ℕ, Option, none, some, List, [], ◌∷◌}
use juice_rail.Base.Error.{Result, ok, err}
use juice_rail.Intent.{Deposit}
use juice_rail.Chain.{Log}
use juice_rail.Machine.{Rail, M}
use juice_rail.Quiet.{Quiet}
use juice_rail.Quiet.Rules.{quiet_rules}
use juice_rail.Quiet.Writes.{safe_rules}
use juice_rail.Settle.Quiet.{Quiet-settled_header}
use juice_rail.Scan.{
  Scanned, go_on, record_log, record_logs, on_logs, scan_spans, deposit_of, scan_by, scan_deposits,
}

module _ (r : Rail) where
  Quiet-go_on :
      (found : List Deposit) (a : Result (Unit {0})) (rest : M r.chain.Node Scanned)
      → Quiet rest
      → Quiet (go_on r found a rest)
  Quiet-go_on found (ok u) rest q = q
  Quiet-go_on found (err e) rest q = search quiet_rules

  module _ (rest : List Deposit → M r.chain.Node Scanned)
      (q : (found : List Deposit) → Quiet (rest found)) where
    Quiet-record_log :
        (o : Option Deposit) (found : List Deposit) → Quiet (record_log r o found rest)
    unfolding record_log
    Quiet-record_log none found = q found
    Quiet-record_log (some d) found = search (quiet_rules, safe_rules, Quiet-go_on, q) depth 9

  Quiet-record_logs :
      (logs : List Log) (found : List Deposit) (rest : List Deposit → M r.chain.Node Scanned)
      → ((more : List Deposit) → Quiet (rest more))
      → Quiet (record_logs r logs found rest)
  unfolding record_logs
  Quiet-record_logs [] found rest q = q found
  Quiet-record_logs (lg ∷ logs) found rest q =
      Quiet-record_log (λ more. record_logs r logs more rest)
        (λ more. Quiet-record_logs logs more rest q) (deposit_of r lg) found

  Quiet-on_logs :
      (a : Result (List Log)) (found : List Deposit) (rest : List Deposit → M r.chain.Node Scanned)
      → ((more : List Deposit) → Quiet (rest more))
      → Quiet (on_logs r a found rest)
  unfolding on_logs
  Quiet-on_logs (err e) found rest q = search quiet_rules
  Quiet-on_logs (ok logs) found rest q = Quiet-record_logs logs found rest q

  pub Quiet-scan_spans : (l : List (ℕ × ℕ)) (found : List Deposit) → Quiet (scan_spans r l found)
  unfolding scan_spans
  Quiet-scan_spans [] found = search quiet_rules
  Quiet-scan_spans ((from, last) ∷ later) found =
      search (quiet_rules, safe_rules, Quiet-on_logs, Quiet-go_on, Quiet-scan_spans later) depth 14

  Quiet-scan_by : (o : Option (List (ℕ × ℕ))) → Quiet (scan_by r o)
  unfolding scan_by
  Quiet-scan_by none = search quiet_rules
  Quiet-scan_by (some l) = search (quiet_rules, Quiet-scan_spans)

  pub Quiet-scan_deposits : (fuel : ℕ) → Quiet (scan_deposits r fuel)
  unfolding scan_deposits
  Quiet-scan_deposits fuel =
      search (quiet_rules, safe_rules, Quiet-settled_header, Quiet-scan_by) depth 12
