-- ===== src/Trace/Submit.antt =====
-- What `submit` of go/rail/rail.go does to the record.
use juice_rail.Base.{
  ℕ, ◌≡◌, refl, sym, ap, ◌∙◌, ◌⊎◌, inl, inr, List, [], ◌∷◌, ◌++◌, ◌==◌, ==_iff, Bool-cases,
}
use juice_rail.Base.Lists.{Grows, Grows-refl, All, All-append}
use juice_rail.Base.Error.{Error, Result, ok, err}
use juice_rail.Intent.{Intent, Submission}
use juice_rail.Chain.{Tx}
use juice_rail.Sql.{Tables, Db}
use juice_rail.Sql.Statements.{transaction_err, transaction_ok}
use juice_rail.Store.{append_submission, append_body, submission_row}
use juice_rail.Store.Submissions.{with_attempt, tables_after}
use juice_rail.Store.Intents.{Result-cases}
use juice_rail.Observed.{stored}
use juice_rail.Observed.Cursors.{not_below_refl}
use juice_rail.Quiet.{History, Calm-refl}
use juice_rail.Machine.{Rail, World, continue, sql, ◌>>=◌}
use juice_rail.Attempt.{attempt_tx, note_attempt, launch, submit}
use juice_rail.Attempt.Durable.{sent-launch, store-launch}
use juice_rail.Trace.{NeverZero, HasAttempt, IsRecorded, Moves, Moves-Calm}
use juice_rail.Trace.Attempts.{HasAttempt-append, HasAttempt-concat}

-- What noting an attempt does to the tables.
record Noted (account : ℕ) (t t' : Tables) : Type 0 where
  intents : t'.intents ≡ t.intents
  facts : t'.facts ≡ t.facts
  attempts : Grows t.submissions t'.submissions
  deposits : t'.deposits ≡ t.deposits
  cursors : t'.cursors ≡ t.cursors
  domain : t'.domain ≡ t.domain
  kept : (hash : ℕ) → HasAttempt account hash t.submissions → HasAttempt account hash t'.submissions

Noted-refl : (account : ℕ) (t : Tables) → Noted account t t
Noted-refl account t = record {
  intents = refl;
  facts = refl;
  attempts = Grows-refl t.submissions;
  deposits = refl;
  cursors = refl;
  domain = refl;
  kept = λ hash h. h;
}

History-Noted : (account : ℕ) (t t' : Tables) → Noted account t t' → History t t'
History-Noted account t t' n = record {
  keyed = λ k. rw n.intents k;
  intents = rw n.intents (Grows-refl t.intents);
  submissions = n.attempts;
  facts = rw n.facts (Grows-refl t.facts);
  deposits = rw n.deposits (Grows-refl t.deposits);
  cursors = λ b c. rw n.cursors (not_below_refl (stored b c t.cursors));
  domain = n.domain;
}

Noted-with_attempt :
    (account id : ℕ) (s : Submission) (t : Tables) → Noted account t (with_attempt account id s t)
Noted-with_attempt account id s t = record {
  intents = refl;
  facts = refl;
  attempts = (_, refl);
  deposits = refl;
  cursors = refl;
  domain = refl;
  kept = λ hash h. HasAttempt-append account hash t.submissions _ h;
}

module _ (account id : ℕ) (s : Submission) (db : Db) where
  appended :
      (append_submission account id s db).0 ≡ ok tt
      → (append_submission account id s db).1.tables ≡ with_attempt account id s db.tables
  unfolding append_submission
  appended done = tables_after account id s db _ (transaction_ok (append_body account id s) db done)

  unchanged :
      {e : Error}
      → (append_submission account id s db).0 ≡ err e
      → (append_submission account id s db).1.tables ≡ db.tables
  unfolding append_submission
  unchanged failed = transaction_err (append_body account id s) db failed

  Noted-append_submission : Noted account db.tables (append_submission account id s db).1.tables
  Noted-append_submission = elim (Result-cases (append_submission account id s db).0) [
    | inl done ↦ rw (appended done) (Noted-with_attempt account id s db.tables)
    | inr (e, failed) ↦ rw (unchanged failed) (Noted-refl account db.tables)
  ]

  on_record :
      (append_submission account id s db).0 ≡ ok tt
      → HasAttempt account s.tx_hash (append_submission account id s db).1.tables.submissions
  unfolding submission_row
  on_record done =
      rw (appended done) (HasAttempt-concat account s.tx_hash db.tables.submissions _ refl refl)

-- What an action that notes an attempt comes to.
record Written (r : Rail) (w w' : World r.chain.Node) (res : Result (Unit {0})) (hash : ℕ)
    : Type 0 where
  sent : w'.sent ≡ w.sent
  noted : Noted r.address w.store.tables w'.store.tables
  on_record : NeverZero r → res ≡ ok tt → HasAttempt r.address hash w'.store.tables.submissions

-- The hash that an attempt is given with is one that is on record, or the hash of zeros.
abbrev IsKnown : (r : Rail) → Intent → Submission → World r.chain.Node → Type 0
IsKnown r i s w = HasAttempt r.address s.tx_hash w.store.tables.submissions ⊎ (s.tx_hash ≡ 0)

module _ (r : Rail) (i : Intent) (s : Submission) (hash : ℕ) (w : World r.chain.Node) where
  write_attempt :
      IsKnown r i s w
      → r.chain.sign (attempt_tx r i s) ≡ ok hash
      → Written r w (note_attempt r i s hash w).1 (note_attempt r i s hash w).0 hash
  unfolding note_attempt sql
  write_attempt known signed = elim (Bool-cases (s.tx_hash == hash)) [
    | inl e ↦ rw e (record {
      sent = refl;
      noted = Noted-refl r.address w.store.tables;
      on_record = λ never done. given known never ((==_iff s.tx_hash hash).0 e);
    })
    | inr e ↦ rw e (record {
      sent = refl;
      noted = Noted-append_submission r.address i.id (record s { tx_hash = hash }) w.store;
      on_record = λ never. on_record r.address i.id (record s { tx_hash = hash }) w.store;
    })
  ]
    where
      given :
          IsKnown r i s w
          → NeverZero r
          → s.tx_hash ≡ hash
          → HasAttempt r.address hash w.store.tables.submissions
      given (inl h) never e = rw (← e) h
      given (inr h) never e = absurd (never (attempt_tx r i s) (signed ∙ (ap ok (sym e) ∙ ap ok h)))

keep-Noted :
    (r : Rail) (t t' : Tables) (txs : List Tx)
    → Noted r.address t t'
    → All (IsRecorded r t) txs
    → All (IsRecorded r t') txs
keep-Noted r t t' [] n a = tt
keep-Noted r t t' (tx ∷ txs) n (h, a) = (
  record { hash = h.hash; signed = h.signed; on_record = n.kept h.hash h.on_record },
  keep-Noted r t t' txs n a,
)

module _ (r : Rail) (tx : Tx) (hash : ℕ) (w v : World r.chain.Node)
    (signed : r.chain.sign tx ≡ ok hash) where
  -- The hash is on record, and the transaction goes out.
  Moves-launch : Written r w v (ok tt) hash → Moves r w (launch r tx hash v).1
  Moves-launch n = record {
    history =
        rw (store-launch r tx hash v)
          (History-Noted r.address w.store.tables v.store.tables n.noted);
    once = inr (tx, sent-launch r tx hash v ∙ ap (λ l. l ++ tx ∷ []) n.sent);
    accounted = λ never a.
        rw (sent-launch r tx hash v, store-launch r tx hash v, n.sent)
          (All-append (IsRecorded r v.store.tables) w.sent (tx ∷ [])
            (keep-Noted r w.store.tables v.store.tables w.sent n.noted a)
            (record { hash = hash; signed = signed; on_record = n.on_record never refl }, tt));
  }

  Moves-Written : (e : Error) → Written r w v (err e) hash → Moves r w v
  Moves-Written e n = record {
    history = History-Noted r.address w.store.tables v.store.tables n.noted;
    once = inl n.sent;
    accounted = λ never a. rw n.sent (keep-Noted r w.store.tables v.store.tables w.sent n.noted a);
  }

  launched :
      (res : Result (Unit {0}))
      → Written r w v res hash
      → Moves r w (continue res (λ u. launch r tx hash) v).1
  launched (ok u) n = Moves-launch n
  launched (err e) n = Moves-Written e n

signed_by :
    (r : Rail) (i : Intent) (s : Submission) (w : World r.chain.Node) (a : Result ℕ)
    → IsKnown r i s w
    → r.chain.sign (attempt_tx r i s) ≡ a
    → Moves r w
        (continue a (λ hash. note_attempt r i s hash >>= λ u. launch r (attempt_tx r i s) hash) w).1
signed_by r i s w (ok hash) known e =
    launched r (attempt_tx r i s) hash w (note_attempt r i s hash w).1 e
      (note_attempt r i s hash w).0 (write_attempt r i s hash w known e)
signed_by r i s w (err x) known e = Moves-Calm r w w (Calm-refl w)

pub Moves-submit :
    (r : Rail) (i : Intent) (s : Submission) (w : World r.chain.Node)
    → IsKnown r i s w
    → Moves r w (submit r i s w).1
unfolding submit
Moves-submit r i s w known = signed_by r i s w (r.chain.sign (attempt_tx r i s)) known refl
