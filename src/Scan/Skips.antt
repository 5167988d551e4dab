-- ===== src/Scan/Skips.antt =====
-- How far the cursor of `ScanDeposits` of go/rail/status.go goes, and which deposits are on disk then.
use Prim.Native.Nat.{max}
use juice_rail.Base.{ℕ, ◌≡◌, ◌≤◌, List, [], ◌∷◌, ◌++◌}
use juice_rail.Base.Int.{or_zero}
use juice_rail.Base.Lists.{All}
use juice_rail.Base.Error.{Error}
use juice_rail.Intent.{Deposit}
use juice_rail.Sql.{CursorRow}
use juice_rail.Sql.Word.{uint64}
use juice_rail.Observed.{Column, stored, put_cursor}
use juice_rail.Machine.{Rail, World, M, sql, caught, ◌>>=◌}
use juice_rail.Scan.Held.{IsHeld}
use juice_rail.Scan.Incoming.{Collected}
use juice_rail.Scan.{Scanned, go_on, scan_spans}
use juice_rail.Scan.Passes.{Passes}

-- The block up to which an account has been scanned, as `Cursor` reads it; 0 where it has none.
unfoldable pub scanned_to : ℕ → List CursorRow → ℕ
scanned_to account rows = uint64 (or_zero (stored account Column.deposit_block rows))

-- The greatest block that spans end with.
unfoldable pub reach : List (ℕ × ℕ) → ℕ
reach [] = 0
reach ((from, last) ∷ more) = max last (reach more)

-- Some spans are done: the node has answered for them, the incoming deposits in its answers are on disk, and the cursor
-- has gone no further.
pub record Progress (r : Rail) (l : List (ℕ × ℕ)) (w w' : World r.chain.Node) : Type 0 where
  pub done : List (ℕ × ℕ)
  pub later : List (ℕ × ℕ)
  pub split : l ≡ done ++ later
  pub deposits : List Deposit
  pub shown_them : Collected r done w.node deposits
  pub held : All (IsHeld r.address w'.store) deposits
  pub cursor :
      scanned_to r.address w'.store.tables.cursors
      ≤ max (scanned_to r.address w.store.tables.cursors) (reach done)

module _ (r : Rail) where
  module _ (from last : ℕ) (later : List (ℕ × ℕ))
      (ih : (found : List Deposit) (w : World r.chain.Node)
        → Progress r later w (scan_spans r later found w).1)
      (w : World r.chain.Node) where
    abbrev moved : List Deposit → M r.chain.Node Scanned
    moved more = caught (sql (put_cursor r.address last)) >>= λ kept.
        go_on r more kept (scan_spans r later more)
