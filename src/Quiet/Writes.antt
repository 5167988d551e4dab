-- ===== src/Quiet/Writes.antt =====
-- The methods of go/sqlite/sqlite.go other than `AppendSubmission`.
use juice_rail.Base.{ℕ, ◌≡◌, refl, ap, Bool, true, false, List, [], ◌∷◌, inl, inr, Bool-cases}
use juice_rail.Base.Lists.{Grows, Grows-refl}
use juice_rail.Base.Error.{Result}
use juice_rail.Intent.{Intent, Fact, Deposit}
use juice_rail.Sql.{Tables, Db, FactRow, DepositRow, IntentRow, attempt, query, exec, lift, ◌>>=◌}
use juice_rail.Store
use juice_rail.Store.{
  has_fact, clashes, intent_row, insert_intent, fact_row, insert_fact, put_fact, put_intent,
}
use juice_rail.Store.Intents.{
  put_intent_atomic, put_intent_records, put_intent-IsKeyed, Result-cases,
}
use juice_rail.Observed
use juice_rail.Observed.{Column, stored, advance, put_deposit, deposit_row, insert_deposit, has_log}
use juice_rail.Observed.Cursors.{stored-upsert-not_below, not_below_refl}
use juice_rail.Sql.Word.{int64}
use juice_rail.Quiet.{Grows, Grows-refl, Careful, Careful-refl, Safe}

module _ {ℓ} {A : Type ℓ} (f : Tables → A) where
  queried : (fs : List Bool) (t : Tables) → Careful t (attempt fs (λ s. (f s, s)) t).1.tables
  queried [] t = Careful-refl t
  queried (true ∷ fs) t = Careful-refl t
  queried (false ∷ fs) t = Careful-refl t

  Safe-query : Safe (query f)
  Safe-query = record { at = λ db. queried db.faults db.tables }

module _ {ℓ κ} {A : Type ℓ} {B : Type κ} (f : Tables → A) (g : A → Result B) where
  read_by :
      (fs : List Bool) (t : Tables)
      → Careful t ((query f >>= λ a. lift (g a)) (record { tables = t; faults = fs })).1.tables
  read_by [] t = Careful-refl t
  read_by (true ∷ fs) t = Careful-refl t
  read_by (false ∷ fs) t = Careful-refl t

  Safe-read : Safe (query f >>= λ a. lift (g a))
  Safe-read = record { at = λ db. read_by db.faults db.tables }

module _ (f : Tables → Tables) (careful : (t : Tables) → Careful t (f t)) where
  executed :
      (fs : List Bool) (t : Tables)
      → Careful t (attempt {A = Unit {0}} fs (λ s. (tt, f s)) t).1.tables
  executed [] t = careful t
  executed (true ∷ fs) t = Careful-refl t
  executed (false ∷ fs) t = careful t

  Safe-exec : Safe (exec f)
  Safe-exec = record { at = λ db. executed db.faults db.tables }

-- A fact is put behind the others, or there is one.
fact_Grows : (new : FactRow) (rows : List FactRow) → Grows rows (insert_fact new rows)
unfolding insert_fact
fact_Grows new rows = elim (Bool-cases (has_fact rows new.account new.id)) [
  | inl there ↦ rw there (Grows-refl rows)
  | inr fresh ↦ rw fresh (new ∷ [], refl)
]

-- And so with an intent.
intent_Grows : (new : IntentRow) (rows : List IntentRow) → Grows rows (insert_intent new rows)
unfolding insert_intent
intent_Grows new rows = elim (Bool-cases (clashes new rows)) [
  | inl taken ↦ rw taken (Grows-refl rows)
  | inr free ↦ rw free (new ∷ [], refl)
]

pub Safe-put_fact : (account id : ℕ) (f : Fact) → Safe (put_fact account id f)
unfolding put_fact
Safe-put_fact account id f =
    Safe-exec (λ t. record t { facts = insert_fact (fact_row account id f) t.facts })
      λ t. record {
        submissions = refl;
        history = record {
          keyed = λ k. k;
          intents = Grows-refl t.intents;
          submissions = Grows-refl t.submissions;
          facts = fact_Grows (fact_row account id f) t.facts;
          deposits = Grows-refl t.deposits;
          cursors = λ b c. not_below_refl (stored b c t.cursors);
          domain = refl;
        };
      }

-- A deposit is put behind the others, or it is there.
deposit_Grows : (new : DepositRow) (rows : List DepositRow) → Grows rows (insert_deposit new rows)
unfolding insert_deposit
deposit_Grows new rows = elim (Bool-cases (has_log new rows)) [
  | inl there ↦ rw there (Grows-refl rows)
  | inr fresh ↦ rw fresh (new ∷ [], refl)
]

pub Safe-put_deposit : (account : ℕ) (d : Deposit) → Safe (put_deposit account d)
unfolding put_deposit
Safe-put_deposit account d = Safe-exec _ λ t. record {
  submissions = refl;
  history = record {
    keyed = λ k. k;
    intents = Grows-refl t.intents;
    submissions = Grows-refl t.submissions;
    facts = Grows-refl t.facts;
    deposits = deposit_Grows (deposit_row account d) t.deposits;
    cursors = λ b c. not_below_refl (stored b c t.cursors);
    domain = refl;
  };
}

Safe-advance : (account : ℕ) (c : Column) (n : ℕ) → Safe (advance account c n)
unfolding advance
Safe-advance account c n = Safe-exec _ λ t. record {
  submissions = refl;
  history = record {
    keyed = λ k. k;
    intents = Grows-refl t.intents;
    submissions = Grows-refl t.submissions;
    facts = Grows-refl t.facts;
    deposits = Grows-refl t.deposits;
    cursors = λ b d. stored-upsert-not_below account c (int64 n) t.cursors b d;
    domain = refl;
  };
}

-- It is a change of the intents alone, which grow.
put_intent_grows :
    (account : ℕ) (i : Intent) (db : Db)
    → (rows : List IntentRow) × ((put_intent account i db).1.tables
        ≡ record db.tables { intents = rows })
      × Grows db.tables.intents rows
put_intent_grows account i db = elim (Result-cases (put_intent account i db).0) [
  | inl done ↦ (
    _,
    (put_intent_records account i db done).1.tables,
    intent_Grows (intent_row account i) db.tables.intents,
  )
  | inr (e, failed) ↦
      (db.tables.intents, put_intent_atomic account i db failed, Grows-refl db.tables.intents)
]

pub Safe-put_intent : (account : ℕ) (i : Intent) → Safe (put_intent account i)
Safe-put_intent account i = record {
  at = λ db.
      let (rows, same, grows) = put_intent_grows account i db in
      record {
        submissions = ap (λ t. t.submissions) same;
        history = record {
          keyed = put_intent-IsKeyed account i db;
          intents = rw same grows;
          submissions = rw same (Grows-refl db.tables.submissions);
          facts = rw same (Grows-refl db.tables.facts);
          deposits = rw same (Grows-refl db.tables.deposits);
          cursors = λ b c. rw same (not_below_refl (stored b c db.tables.cursors));
          domain = ap (λ t. t.domain) same;
        };
      };
}

module _ (account : ℕ) where
  pub Safe-intent : (id : ℕ) → Safe (Store.intent account id)
  unfolding Store.intent
  Safe-intent id = Safe-read _ _

  pub Safe-intent_by_nonce : (nonce : ℕ) → Safe (Store.intent_by_nonce account nonce)
  unfolding Store.intent_by_nonce
  Safe-intent_by_nonce nonce = Safe-read _ _

  pub Safe-pending : Safe (Store.pending account)
  unfolding Store.pending
  Safe-pending = Safe-read _ _

  pub Safe-submissions : (id : ℕ) → Safe (Store.submissions account id)
  unfolding Store.submissions
  Safe-submissions id = Safe-read _ _

  pub Safe-fact : (id : ℕ) → Safe (Store.fact account id)
  unfolding Store.fact
  Safe-fact id = Safe-query _

  pub Safe-deposits : Safe (Observed.deposits account)
  unfolding Observed.deposits
  Safe-deposits = Safe-read _ _

  pub Safe-cursor : Safe (Observed.cursor account)
  unfolding Observed.cursor
  Safe-cursor = Safe-query _

  pub Safe-put_cursor : (block : ℕ) → Safe (Observed.put_cursor account block)
  unfolding Observed.put_cursor
  Safe-put_cursor block = Safe-advance account Column.deposit_block block

  pub Safe-read_nonce_floor : Safe (Observed.read_nonce_floor account)
  unfolding Observed.read_nonce_floor
  Safe-read_nonce_floor = Safe-query _

  pub Safe-put_nonce_floor : (nonce : ℕ) → Safe (Observed.put_nonce_floor account nonce)
  unfolding Observed.put_nonce_floor
  Safe-put_nonce_floor nonce = Safe-advance account Column.nonce_floor nonce

pub ruleset safe_rules = (
  Safe-put_fact, Safe-put_deposit, Safe-put_intent, Safe-intent, Safe-intent_by_nonce, Safe-pending,
  Safe-submissions, Safe-fact, Safe-deposits, Safe-cursor, Safe-put_cursor, Safe-read_nonce_floor,
  Safe-put_nonce_floor,
)
