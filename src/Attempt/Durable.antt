-- ===== src/Attempt/Durable.antt =====
-- What `submit` of go/rail/rail.go records and sends.
use juice_rail.Base.{
  ℕ, ◌≡◌, ◌⊎◌, inl, inr, refl, sym, ap, ◌∙◌, [], ◌∷◌, ◌++◌, ◌==◌, ==_refl, ==_iff, Bool-cases,
}
use juice_rail.Base.Error.{Result, ok, err}
use juice_rail.Intent.{Intent, Submission}
use juice_rail.Chain.{Tx}
use juice_rail.Sql.{Tables, Db}
use juice_rail.Store.{append_submission, submission_row, submission_rows, next_seq}
use juice_rail.Store.Attempts.{IsOnRecord, added-IsOnRecord}
use juice_rail.Store.Submissions.{append_submission_adds}
use juice_rail.Machine.{Rail, World, continue, pure, sql, broadcast, ◌>>=◌}
use juice_rail.Attempt.{attempt_tx, note_attempt, launch, unless_settled, submit}

-- The hash is that of the attempt as it was given, and no row was written, or the attempt's row, with the
-- hash, has become the last one of its intent.
abbrev IsNoted :
    (r : Rail) → Intent → Submission → ℕ → World r.chain.Node → World r.chain.Node → Type 0
IsNoted r i s hash w w' =
    ((s.tx_hash ≡ hash) × (w'.store ≡ w.store))
    ⊎ (submission_rows r.address i.id w'.store.tables
        ≡ submission_rows r.address i.id w.store.tables
          ++ submission_row r.address i.id (next_seq w.store.tables.submissions r.address i.id)
              (record s { tx_hash = hash })
            ∷ [])

-- What an action that makes the attempt has sent: nothing, or the attempt's transaction, noted.
data Sent (r : Rail) (i : Intent) (s : Submission) (w w' : World r.chain.Node) : Type 0 where
  nothing : w'.sent ≡ w.sent → Sent r i s w w'
  attempt :
      (hash : ℕ)
      → r.chain.sign (attempt_tx r i s) ≡ ok hash
      → w'.sent ≡ w.sent ++ attempt_tx r i s ∷ []
      → IsNoted r i s hash w w'
      → Sent r i s w w'

same_world :
    {N : Type 0} (v : Result (Unit {0})) (hash : ℕ) (w : World N)
    → (continue v (λ u. pure hash) w).1 ≡ w
same_world (ok u) hash w = refl
same_world (err e) hash w = refl

module _ (r : Rail) (tx : Tx) (hash : ℕ) (w : World r.chain.Node) where
  pub sent-launch : (launch r tx hash w).1.sent ≡ w.sent ++ tx ∷ []
  unfolding launch broadcast
  sent-launch =
      ap (λ x. x.sent) (same_world (unless_settled (r.chain.send_transaction tx w.node).0) hash _)

  pub store-launch : (launch r tx hash w).1.store ≡ w.store
  unfolding launch broadcast
  store-launch =
      ap (λ x. x.store) (same_world (unless_settled (r.chain.send_transaction tx w.node).0) hash _)

module _ (r : Rail) (i : Intent) (s : Submission) (hash : ℕ) (w : World r.chain.Node) where
  row_added :
      (append_submission r.address i.id (record s { tx_hash = hash }) w.store).0 ≡ ok tt
      → submission_rows r.address i.id
          (append_submission r.address i.id (record s { tx_hash = hash }) w.store).1.tables
        ≡ submission_rows r.address i.id w.store.tables
          ++ submission_row r.address i.id
              (next_seq w.store.tables.submissions r.address i.id)
              (record s { tx_hash = hash })
            ∷ []
  row_added done =
      rw (==_refl r.address, ==_refl i.id) at
        (append_submission_adds r.address i.id (record s { tx_hash = hash }) w.store r.address i.id
          done)

  -- What noting an attempt does: it fails and sends nothing, or the attempt is on record.
  abbrev Noted : Result (Unit {0}) × World r.chain.Node → Type 0
  Noted (ok u, w') = (w'.sent ≡ w.sent) × IsNoted r i s hash w w'
  Noted (err e, w') = w'.sent ≡ w.sent

  Noted-by :
      (a : Result (Unit {0})) (db : Db)
      → (a ≡ ok tt
          → submission_rows r.address i.id db.tables
            ≡ submission_rows r.address i.id w.store.tables
              ++ submission_row r.address i.id
                  (next_seq w.store.tables.submissions r.address i.id)
                  (record s { tx_hash = hash })
                ∷ [])
      → Noted (a, record w { store = db })
  Noted-by (ok u) db h = (refl, inr (h refl))
  Noted-by (err e) db h = refl

  Noted-note_attempt : Noted (note_attempt r i s hash w)
  unfolding note_attempt sql
  Noted-note_attempt = elim (Bool-cases (s.tx_hash == hash)) [
    | inl e ↦ rw e (refl, inl ((==_iff s.tx_hash hash).0 e, refl))
    | inr e ↦ rw e (Noted-by _ _ row_added)
  ]

  launched :
      (a : Result (Unit {0})) (w' : World r.chain.Node)
      → r.chain.sign (attempt_tx r i s) ≡ ok hash
      → Noted (a, w')
      → Sent r i s w (continue a (λ u. launch r (attempt_tx r i s) hash) w').1
  launched (ok u) w' signed h =
      attempt hash signed
        (sent-launch r (attempt_tx r i s) hash w' ∙ ap (λ x. x ++ attempt_tx r i s ∷ []) h.0)
        (noted_after h.1)
    where
      noted_after :
          IsNoted r i s hash w w' → IsNoted r i s hash w (launch r (attempt_tx r i s) hash w').1
      noted_after (inl (e, same)) = inl (e, store-launch r (attempt_tx r i s) hash w' ∙ same)
      noted_after (inr e) = inr (
          ap (λ x. submission_rows r.address i.id x.tables)
            (store-launch r (attempt_tx r i s) hash w')
          ∙ e)
  launched (err e) w' signed h = nothing h

signed_or_not :
    (r : Rail) (i : Intent) (s : Submission) (w : World r.chain.Node) (a : Result ℕ)
    → r.chain.sign (attempt_tx r i s) ≡ a
    → Sent r i s w
        (continue a (λ hash. note_attempt r i s hash >>= λ u. launch r (attempt_tx r i s) hash) w).1
signed_or_not r i s w (ok hash) e =
    launched r i s hash w (note_attempt r i s hash w).0 (note_attempt r i s hash w).1 e
      (Noted-note_attempt r i s hash w)
signed_or_not r i s w (err x) e = nothing refl

-- What `submit` has sent: nothing, or the attempt's transaction, whose hash is on record for the intent.
-- The row is one that was there, or it is the last of the intent now.
pub data IsWrittenAhead (r : Rail) (i : Intent) (s : Submission) (w w' : World r.chain.Node)
    : Type 0 where
  nothing_sent : w'.sent ≡ w.sent → IsWrittenAhead r i s w w'
  sent_on_record :
      (hash : ℕ)
      → r.chain.sign (attempt_tx r i s) ≡ ok hash
      → w'.sent ≡ w.sent ++ attempt_tx r i s ∷ []
      → IsOnRecord r.address i.id hash w'.store.tables
      → IsNoted r i s hash w w'
      → IsWrittenAhead r i s w w'

-- An attempt that is given with the hash of its own transaction is one that is on record. So it is with
-- those that `Send` reads from the store.
abbrev pub IsGiven : (r : Rail) → Intent → Submission → Tables → Type 0
IsGiven r i s t =
    r.chain.sign (attempt_tx r i s) ≡ ok s.tx_hash → IsOnRecord r.address i.id s.tx_hash t

module _ (r : Rail) (i : Intent) (s : Submission) (w : World r.chain.Node)
    (given : IsGiven r i s w.store.tables) where
  on_record :
      (hash : ℕ) (w' : World r.chain.Node)
      → r.chain.sign (attempt_tx r i s) ≡ ok hash
      → IsNoted r i s hash w w'
      → IsOnRecord r.address i.id hash w'.store.tables
  on_record hash w' signed (inl (e, same)) = rw (same, ← e) (given (signed ∙ ap ok (sym e)))
  on_record hash w' signed (inr added) =
      added-IsOnRecord r.address i.id hash w'.store.tables
        (submission_rows r.address i.id w.store.tables)
        (next_seq w.store.tables.submissions r.address i.id) (record s { tx_hash = hash }) refl
        added

  Sent-IsWrittenAhead : (w' : World r.chain.Node) → Sent r i s w w' → IsWrittenAhead r i s w w'
  Sent-IsWrittenAhead w' (nothing same) = nothing_sent same
  Sent-IsWrittenAhead w' (attempt hash signed sent noted) =
      sent_on_record hash signed sent (on_record hash w' signed noted) noted

  -- However `submit` ends, it has sent nothing, or exactly the transaction of the attempt, and then the
  -- hash of that transaction is on record for the intent: it was, if the attempt was given with this
  -- hash, or its row, with the hash, has been added behind the recorded attempts of the intent. An attempt
  -- that was given with the hash of its own transaction is on record before.
  pub submit_write_ahead : IsWrittenAhead r i s w (submit r i s w).1
  unfolding submit
  submit_write_ahead =
      Sent-IsWrittenAhead (submit r i s w).1
        (signed_or_not r i s w (r.chain.sign (attempt_tx r i s)) refl)
