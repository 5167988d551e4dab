-- ===== src/Scan/Passes.antt =====
-- The loop of `ScanDeposits` over the logs of one span (go/rail/status.go): what is on disk after it, and the
-- cursors, which it leaves alone.
use juice_rail.Base.{
  ℕ, ◌≡◌, ◌⊎◌, inl, inr, refl, ap, ◌∙◌, true, Option, none, some, List, [], ◌∷◌, ◌++◌, arith,
}
use juice_rail.Base.Lists.{All, Grows, Grows-refl, Grows-trans}
use juice_rail.Base.Error.{Result, ok, err}
use juice_rail.Intent.{Deposit}
use juice_rail.Chain.{Log}
use juice_rail.Sql.{Db, DepositRow}
use juice_rail.Sql.Statements.{exec_ok, exec_err}
use juice_rail.Store.Intents.{Result-cases}
use juice_rail.Observed.{deposit_row, has_log, put_deposit}
use juice_rail.Quiet.Writes.{Safe-put_deposit}
use juice_rail.Machine.{Rail, World, M, sql}
use juice_rail.Scan.Held.{IsHeld, put_deposit-IsHeld}
use juice_rail.Scan.Incoming.{shown, one_or_none}
use juice_rail.Scan.{Scanned, deposit_of, go_on, record_log, record_logs}

has_log_append :
    (x : DepositRow) (rows more : List DepositRow)
    → has_log x rows ≡ true
    → has_log x (rows ++ more) ≡ true
unfolding has_log
has_log_append x [] more h = cc
has_log_append x (row ∷ rows) more h = ground (arith, has_log_append x rows more)

-- What is held stays held as deposits are added.
pub All-later :
    (account : ℕ) (db db' : Db) (ds : List Deposit)
    → Grows db.tables.deposits db'.tables.deposits
    → All (IsHeld account db) ds
    → All (IsHeld account db') ds
All-later account db db' [] g a = tt
All-later account db db' (d ∷ ds) (more, e) a = (
  rw e (has_log_append (deposit_row account d) db.tables.deposits more a.0),
  All-later account db db' ds (more, e) a.1,
)

cursors-put_deposit :
    (account : ℕ) (d : Deposit) (db : Db)
    → (put_deposit account d db).1.tables.cursors ≡ db.tables.cursors
unfolding put_deposit
cursors-put_deposit account d db = elim (Result-cases (put_deposit account d db).0) [
  | inl done ↦ ap (λ t. t.cursors) (exec_ok _ db done)
  | inr (e, failed) ↦ ap (λ t. t.cursors) (exec_err _ db failed)
]

module _ (r : Rail) where
  -- The loop over the logs of a span has come to its end, with all their deposits on disk.
  pub record Reaches (ds : List Deposit) (rest : List Deposit → M r.chain.Node Scanned)
      (w : World r.chain.Node) (out : Result Scanned × World r.chain.Node) : Type 0 where
    pub found : List Deposit
    pub at : World r.chain.Node
    pub goes_on : out ≡ rest found at
    pub cursors : at.store.tables.cursors ≡ w.store.tables.cursors
    pub node : at.node ≡ w.node
    pub grows : Grows w.store.tables.deposits at.store.tables.deposits
    pub held : All (IsHeld r.address at.store) ds

  -- Or it has been left, and the cursors are as they were.
  abbrev pub Passes :
      List Deposit
      → (List Deposit → M r.chain.Node Scanned)
      → World r.chain.Node
      → Result Scanned × World r.chain.Node
      → Type 0
  Passes ds rest w out =
      (out.1.store.tables.cursors ≡ w.store.tables.cursors) ⊎ Reaches ds rest w out

  module _ (rest : List Deposit → M r.chain.Node Scanned) (w : World r.chain.Node)
      (d : Deposit) where
    abbrev put_world : World r.chain.Node
    put_world = record w { store = (put_deposit r.address d w.store).1 }

    one_more :
        (ds : List Deposit) (out : Result Scanned × World r.chain.Node)
        → (put_deposit r.address d w.store).0 ≡ ok tt
        → Passes ds rest put_world out
        → Passes (d ∷ ds) rest w out
    one_more ds out done (inl same) = inl (same ∙ cursors-put_deposit r.address d w.store)
    one_more ds out done (inr p) =
        let g = ((Safe-put_deposit r.address d).at w.store).history.deposits in
        let (one, tt) =
          All-later r.address put_world.store p.at.store (d ∷ []) p.grows
            (put_deposit-IsHeld r.address d w.store done, tt) in
        inr (record {
          found = p.found;
          at = p.at;
          goes_on = p.goes_on;
          cursors = p.cursors ∙ cursors-put_deposit r.address d w.store;
          node = p.node;
          grows = Grows-trans _ _ _ g p.grows;
          held = (one, p.held);
        })

  -- The loop over the logs, where `next` is what follows it.
  module _ (next : List Deposit → M r.chain.Node Scanned) where
    put_deposit-Passes :
        (d : Deposit) (ds found : List Deposit) (rest : List Deposit → M r.chain.Node Scanned)
        (w : World r.chain.Node) (res : Result (Unit {0}))
        → (put_deposit r.address d w.store).0 ≡ res
        → ((more : List Deposit) (v : World r.chain.Node) → Passes ds next v (rest more v))
        → Passes
            (d ∷ ds)
            next
            w
            (go_on r found res (rest (found ++ d ∷ [])) (sql (put_deposit r.address d) w).1)
    unfolding sql
    put_deposit-Passes d ds found rest w (ok u) e h =
        one_more next w d ds _ e (h (found ++ d ∷ []) (put_world next w d))
    put_deposit-Passes d ds found rest w (err x) e h = inl (cursors-put_deposit r.address d w.store)

    record_log-Passes :
        (o : Option Deposit) (ds found : List Deposit)
        (rest : List Deposit → M r.chain.Node Scanned) (w : World r.chain.Node)
        → ((more : List Deposit) (v : World r.chain.Node) → Passes ds next v (rest more v))
        → Passes (one_or_none o ++ ds) next w (record_log r o found rest w)
    unfolding record_log sql
    record_log-Passes none ds found rest w h = h found w
    record_log-Passes (some d) ds found rest w h =
        put_deposit-Passes d ds found rest w (put_deposit r.address d w.store).0 refl h

    pub record_logs-Passes :
        (logs : List Log) (found : List Deposit) (w : World r.chain.Node)
        → Passes (shown r logs) next w (record_logs r logs found next w)
    unfolding record_logs shown
    record_logs-Passes [] found w = inr (record {
      found = found;
      at = w;
      goes_on = refl;
      cursors = refl;
      node = refl;
      grows = Grows-refl w.store.tables.deposits;
      held = tt;
    })
    record_logs-Passes (lg ∷ logs) found w =
        record_log-Passes (deposit_of r lg) (shown r logs) found
          (λ more. record_logs r logs more next) w (λ more v. record_logs-Passes logs more v)
