-- ===== src/Scan/Tests.antt =====
-- The theorems on the deposit scan, at concrete heads and logs.
use juice_rail.Base.{◌≡◌, some, [], ◌∷◌, List, ℕ, arith}
use juice_rail.Scan.{spans, scan_spans}
use juice_rail.Scan.Spans.{Covers, spans_cover}
use juice_rail.Scan.Found.{Ends, scan_spans_finds}
use juice_rail.Scan.Incoming.{Collected}
use juice_rail.Machine.{Rail}
use juice_rail.Samples.{sample_rail, sample_world}

spans_cover_example : (l : List (ℕ × ℕ)) × (spans 25_001 10 25_000 ≡ some l) × Covers 10 25_000 l
spans_cover_example = spans_cover 25_000 10 25_000 (omega arith) (omega arith)

-- The account that the event pays.
abbrev payee_rail : Rail
payee_rail = record sample_rail { address = 900 }

scan_spans_finds_example :
    Ends payee_rail []
      (Collected payee_rail ((10, 40) ∷ []) 0)
      (scan_spans payee_rail ((10, 40) ∷ []) [] sample_world).0
      (scan_spans payee_rail ((10, 40) ∷ []) [] sample_world).1
scan_spans_finds_example = scan_spans_finds payee_rail ((10, 40) ∷ []) sample_world
