-- ===== src/Scan/Found.antt =====
-- What `ScanDeposits` of go/rail/status.go returns, and what is on disk then.
use mathlib.Core.Path.{subst}
use juice_rail.Base.{ℕ, ◌≡◌, refl, sym, ap, ◌∙◌, Option, none, some, List, [], ◌∷◌, ◌++◌}
use juice_rail.Base.Lists.{All, All-append}
use mathlib.Core.List.{append_assoc, append-nil}
use juice_rail.Base.Error.{Error, Result, ok, err}
use juice_rail.Intent.{Deposit}
use juice_rail.Chain.{Log}
use juice_rail.Observed
use juice_rail.Observed.{deposit_row, has_log, insert_deposit, put_deposit}
use juice_rail.Machine.{Rail, World, M, sql, ask, caught, ◌>>=◌}
use juice_rail.Scan.Incoming.{one_or_none, shown, Collected, Collected-span}
use juice_rail.Scan.Held.{
  IsHeld, All-same, All-IsHeld, put_deposit-IsHeld, All-unchanged, deposits-put_cursor,
}
use juice_rail.Scan.{
  Scanned, deposit_of, query_of, go_on, record_log, record_logs, on_logs, scan_spans,
}

-- A loop that had found `found` has ended: all it found is on disk, and without an error it has found
-- more with the property.
pub record Ends (r : Rail) (found : List Deposit) (More : List Deposit → Type 0)
    (answer : Result Scanned) (w : World r.chain.Node) : Type 0 where
  pub scanned : Scanned
  pub returned : answer ≡ ok scanned
  pub held : All (IsHeld r.address w.store) scanned.found
  pub complete :
      scanned.ended ≡ ok tt → (more : List Deposit) × More more × (scanned.found ≡ found ++ more)

-- Some deposits, and then more with the property.
abbrev After : List Deposit → (List Deposit → Type 0) → List Deposit → Type 0
After xs More ds = (more : List Deposit) × More more × (ds ≡ xs ++ more)

-- The deposits of the logs, if there is such an answer, and then more.
abbrev Answered : Rail → Result (List Log) → (List Deposit → Type 0) → List Deposit → Type 0
Answered r (ok logs) More ds = After (shown r logs) More ds
Answered r (err e) More ds = ⊥

module _ (r : Rail) where
  abbrev Finds :
      (r.chain.Node → List Deposit → Type 0) → (List Deposit → M r.chain.Node Scanned) → Type 0
  Finds More rest =
      (found : List Deposit) (w : World r.chain.Node)
      → All (IsHeld r.address w.store) found
      → Ends r found (More w.node) (rest found w).0 (rest found w).1

  stopped :
      (found : List Deposit) (More : List Deposit → Type 0) (e : Error) (w : World r.chain.Node)
      → All (IsHeld r.address w.store) found
      → Ends r found More (ok (record { found = found; ended = err e })) w
  stopped found More e w a = record {
    scanned = record { found = found; ended = err e };
    returned = refl;
    held = a;
    complete = λ h. cc;
  }

  module _ {answer : Result Scanned} {w : World r.chain.Node} where
    Ends-implied :
        (found : List Deposit) (P Q : List Deposit → Type 0)
        → ((ds : List Deposit) → P ds → Q ds)
        → Ends r found P answer w
        → Ends r found Q answer w
    Ends-implied found P Q f h = record {
      scanned = h.scanned;
      returned = h.returned;
      held = h.held;
      complete = λ e. let (more, p, eq) = h.complete e in (more, f more p, eq);
    }

    regroup :
        (found xs : List Deposit) (More : List Deposit → Type 0)
        → Ends r (found ++ xs) More answer w
        → Ends r found (After xs More) answer w
    regroup found xs More h = record {
      scanned = h.scanned;
      returned = h.returned;
      held = h.held;
      complete = λ e.
          let (more, p, eq) = h.complete e in
          (xs ++ more, (more, p, refl), eq ∙ append_assoc found xs more);
    }

  module _ (More : r.chain.Node → List Deposit → Type 0)
      (rest : List Deposit → M r.chain.Node Scanned) (h : Finds More rest) where
    put_found :
        (d : Deposit) (found : List Deposit) (w : World r.chain.Node) (res : Result (Unit {0}))
        → (put_deposit r.address d w.store).0 ≡ res
        → All (IsHeld r.address w.store) found
        → Ends r found
            (After (d ∷ []) (More w.node))
            (go_on r found res (rest (found ++ d ∷ [])) (sql (put_deposit r.address d) w).1).0
            (go_on r found res (rest (found ++ d ∷ [])) (sql (put_deposit r.address d) w).1).1
    unfolding sql
    put_found d found w (ok u) e a = regroup found (d ∷ []) (More w.node) (
        h (found ++ d ∷ []) (sql (put_deposit r.address d) w).1 (
          All-append (IsHeld r.address (put_deposit r.address d w.store).1) found (d ∷ [])
            (All-IsHeld r.address d w.store found e a)
            (put_deposit-IsHeld r.address d w.store e, tt)))
    put_found d found w (err x) e a =
        stopped found (After (d ∷ []) (More w.node)) x (sql (put_deposit r.address d) w).1
          (All-unchanged r.address d w.store found e a)

    Finds-record_log :
        (o : Option Deposit)
        → Finds (λ n. After (one_or_none o) (More n)) (λ found. record_log r o found rest)
    unfolding record_log sql
    Finds-record_log none found w a =
        Ends-implied found (More w.node) (After [] (More w.node)) (λ ds p. (ds, p, refl))
          (h found w a)
    Finds-record_log (some d) found w a =
        put_found d found w (put_deposit r.address d w.store).0 refl a

  -- The loop over the logs of a span.
  Finds-record_logs :
      (logs : List Log) (More : r.chain.Node → List Deposit → Type 0)
      (rest : List Deposit → M r.chain.Node Scanned)
      → Finds More rest
      → Finds (λ n. After (shown r logs) (More n)) (λ found. record_logs r logs found rest)
  unfolding record_logs shown
  Finds-record_logs [] More rest h found w a =
      Ends-implied found (More w.node) (After [] (More w.node)) (λ ds p. (ds, p, refl))
        (h found w a)
  Finds-record_logs (lg ∷ logs) More rest h found w a =
      Ends-implied found
        (After (one_or_none (deposit_of r lg)) (After (shown r logs) (More w.node)))
        (After (one_or_none (deposit_of r lg) ++ shown r logs) (More w.node))
        (λ ds (later, (more, p, e), e'). (
          more,
          p,
          e'
              ∙ ap (λ l. one_or_none (deposit_of r lg) ++ l) e
              ∙ sym (append_assoc (one_or_none (deposit_of r lg)) (shown r logs) more),
        ))
        (Finds-record_log (λ n. After (shown r logs) (More n)) (λ f. record_logs r logs f rest)
          (Finds-record_logs logs More rest h) (deposit_of r lg) found w a)

  Finds-go_on :
      (More : r.chain.Node → List Deposit → Type 0) (m : M r.chain.Node Scanned)
      (found : List Deposit) (res : Result (Unit {0})) (w : World r.chain.Node)
      → All (IsHeld r.address w.store) found
      → Ends r found (More w.node) (m w).0 (m w).1
      → Ends r found (More w.node) (go_on r found res m w).0 (go_on r found res m w).1
  Finds-go_on More m found (ok u) w a h = h
  Finds-go_on More m found (err e) w a h = stopped found (More w.node) e w a

  Finds-on_logs :
      (answer : Result (List Log)) (More : r.chain.Node → List Deposit → Type 0)
      (rest : List Deposit → M r.chain.Node Scanned)
      → Finds More rest
      → Finds (λ n. Answered r answer (More n)) (λ found. on_logs r answer found rest)
  unfolding on_logs
  Finds-on_logs (ok logs) More rest h found w a = Finds-record_logs logs More rest h found w a
  Finds-on_logs (err e) More rest h found w a = stopped found (λ ds. ⊥) e w a

  Finds-moved :
      (last : ℕ) (More : r.chain.Node → List Deposit → Type 0)
      (rest : List Deposit → M r.chain.Node Scanned)
      → Finds More rest
      → Finds More (λ found. caught (sql (Observed.put_cursor r.address last)) >>= λ kept.
          go_on r found kept (rest found))
  unfolding sql
  Finds-moved last More rest h found w a =
      let v = (sql (Observed.put_cursor r.address last) w).1 in
      let b =
        All-same r.address w.store v.store found (deposits-put_cursor r.address last w.store) a in
      Finds-go_on More (rest found) found (Observed.put_cursor r.address last w.store).0 v b
        (h found v b)

  span-Collected :
      (from last : ℕ) (later : List (ℕ × ℕ)) (n : r.chain.Node) (answer : Result (List Log))
      (ds : List Deposit)
      → (r.chain.filter_logs (query_of r from last) n).0 ≡ answer
      → Answered r answer (Collected r later (r.chain.filter_logs (query_of r from last) n).1) ds
      → Collected r ((from, last) ∷ later) n ds
  span-Collected from last later n (ok logs) ds e (more, c, same) =
      subst (Collected r ((from, last) ∷ later) n) (sym same)
        (Collected-span r from last later n logs more e c)
  span-Collected from last later n (err x) ds e c = absurd c

  -- The loop over the spans.
  Finds-scan_spans : (l : List (ℕ × ℕ)) → Finds (Collected r l) (scan_spans r l)
  unfolding scan_spans ask
  Finds-scan_spans [] found w a = record {
    scanned = record { found = found; ended = ok tt };
    returned = refl;
    held = a;
    complete = λ e. ([], refl, sym (append-nil found));
  }
  Finds-scan_spans ((from, last) ∷ later) found w a =
      let (answer, n) = r.chain.filter_logs (query_of r from last) w.node in
      Ends-implied found (Answered r answer (Collected r later n))
        (Collected r ((from, last) ∷ later) w.node)
        (λ ds c. span-Collected from last later w.node answer ds refl c)
        (Finds-on_logs answer (Collected r later) _
          (Finds-moved last (Collected r later) (scan_spans r later) (Finds-scan_spans later)) found
          (record w { node = n }) a)

-- The scan of any sequence of spans returns a list, with an error or without, and every deposit in it is
-- on disk then, under the identity of its log. Where it ends without an error, the node has answered for
-- each span in turn with the logs of transfers of the token to the account, and the list is that of the
-- incoming deposits among these logs, in order: of all logs that have three topics and a word of data,
-- were not removed and carry a positive amount from another account, none is left out.
pub scan_spans_finds :
    (r : Rail) (l : List (ℕ × ℕ)) (w : World r.chain.Node)
    → Ends r [] (Collected r l w.node) (scan_spans r l [] w).0 (scan_spans r l [] w).1
scan_spans_finds r l w = Finds-scan_spans r l [] w tt
