-- ===== src/Sql/Statements.antt =====
-- Statements and transactions take effect whole or not at all.
use juice_rail.Base.{◌≡◌, refl, sym, Bool, true, false, List, [], ◌∷◌}
use juice_rail.Base.Error.{Error, Result, ok, err}
use juice_rail.Sql.{
  Tables, Db, Sql, attempt, exec, query, settle, commit, transaction, lift, ◌>>=◌, ◌>>◌,
}

attempt_ok :
    (fs : List Bool) (f : Tables → Tables) (t : Tables)
    → (attempt {A = Unit {0}} fs (λ s. (tt, f s)) t).0 ≡ ok tt
    → (attempt {A = Unit {0}} fs (λ s. (tt, f s)) t).1.tables ≡ f t
attempt_ok [] f t h = refl
attempt_ok (false ∷ fs) f t h = refl
attempt_ok (true ∷ fs) f t h = cc

attempt_err :
    (fs : List Bool) (f : Tables → Tables) (t : Tables) {e : Error}
    → (attempt {A = Unit {0}} fs (λ s. (tt, f s)) t).0 ≡ err e
    → (attempt {A = Unit {0}} fs (λ s. (tt, f s)) t).1.tables ≡ t
attempt_err [] f t h = cc
attempt_err (false ∷ fs) f t h = cc
attempt_err (true ∷ fs) f t h = refl

pub exec_ok :
    (f : Tables → Tables) (db : Db) → (exec f db).0 ≡ ok tt → (exec f db).1.tables ≡ f db.tables
exec_ok f db = attempt_ok db.faults f db.tables

pub exec_err :
    (f : Tables → Tables) (db : Db) {e : Error}
    → (exec f db).0 ≡ err e
    → (exec f db).1.tables ≡ db.tables
exec_err f db = attempt_err db.faults f db.tables

query_attempt {ℓ} :
    {A : Type ℓ} (fs : List Bool) (f : Tables → A) (t : Tables)
    → (attempt fs (λ s. (f s, s)) t).1.tables ≡ t
query_attempt [] f t = refl
query_attempt (false ∷ fs) f t = refl
query_attempt (true ∷ fs) f t = refl

pub tables-query {ℓ} : {A : Type ℓ} (f : Tables → A) (db : Db) → (query f db).1.tables ≡ db.tables
tables-query f db = query_attempt db.faults f db.tables

query_value {ℓ} :
    {A : Type ℓ} (fs : List Bool) (f : Tables → A) (t : Tables) {a : A}
    → (attempt fs (λ s. (f s, s)) t).0 ≡ ok a
    → f t ≡ a
query_value [] f t h = cc
query_value (false ∷ fs) f t h = cc
query_value (true ∷ fs) f t h = cc

pub query_ok {ℓ} :
    {A : Type ℓ} (f : Tables → A) (db : Db) {a : A} → (query f db).0 ≡ ok a → f db.tables ≡ a
query_ok f db = query_value db.faults f db.tables

commit_err :
    (fs : List Bool) (before t : Tables) {e : Error}
    → (commit {A = Unit {0}} fs before t tt).0 ≡ err e
    → (commit {A = Unit {0}} fs before t tt).1.tables ≡ before
commit_err [] before t h = cc
commit_err (false ∷ fs) before t h = cc
commit_err (true ∷ fs) before t h = refl

settle_err :
    (before : Tables) (r : Result (Unit {0})) (db : Db) {e : Error}
    → (settle before (r, db)).0 ≡ err e
    → (settle before (r, db)).1.tables ≡ before
settle_err before (ok u) db h = commit_err db.faults before db.tables h
settle_err before (err x) db h = refl

begin_err :
    (fs : List Bool) (body : Sql (Unit {0})) (t : Tables) {e : Error}
    → (transaction body (record { tables = t; faults = fs })).0 ≡ err e
    → (transaction body (record { tables = t; faults = fs })).1.tables ≡ t
begin_err [] body t h =
    let (r, db) = body (record { tables = t; faults = [] }) in settle_err t r db h
begin_err (false ∷ fs) body t h =
    let (r, db) = body (record { tables = t; faults = fs }) in settle_err t r db h
begin_err (true ∷ fs) body t h = refl

-- A transaction that fails, in its body or in its commit, leaves the tables as they were.
pub transaction_err :
    (body : Sql (Unit {0})) (db : Db) {e : Error}
    → (transaction body db).0 ≡ err e
    → (transaction body db).1.tables ≡ db.tables
transaction_err body db = begin_err db.faults body db.tables

commit_ok :
    (fs : List Bool) (before t : Tables)
    → (commit {A = Unit {0}} fs before t tt).0 ≡ ok tt
    → (commit {A = Unit {0}} fs before t tt).1.tables ≡ t
commit_ok [] before t h = refl
commit_ok (false ∷ fs) before t h = refl
commit_ok (true ∷ fs) before t h = cc

-- What a transaction that succeeds has run: its body, from a database with these tables.
abbrev pub Ran : Sql (Unit {0}) → Db → Tables → Type 0
Ran body db after =
    (start : Db) × (start.tables ≡ db.tables)
    × ((body start).0 ≡ ok tt)
    × ((body start).1.tables ≡ after)

settle_ok :
    (before : Tables) (r : Result (Unit {0})) (db : Db)
    → (settle before (r, db)).0 ≡ ok tt
    → (r ≡ ok tt) × (db.tables ≡ (settle before (r, db)).1.tables)
settle_ok before (ok u) db h = (refl, sym (commit_ok db.faults before db.tables h))
settle_ok before (err x) db h = cc

begin_ok :
    (fs : List Bool) (body : Sql (Unit {0})) (t : Tables)
    → (transaction body (record { tables = t; faults = fs })).0 ≡ ok tt
    → Ran body
        (record { tables = t; faults = fs })
        (transaction body (record { tables = t; faults = fs })).1.tables
begin_ok [] body t h =
    let start : Db = record { tables = t; faults = [] } in
    let p = settle_ok t (body start).0 (body start).1 h in (start, refl, p.0, p.1)
begin_ok (false ∷ fs) body t h =
    let start : Db = record { tables = t; faults = fs } in
    let p = settle_ok t (body start).0 (body start).1 h in (start, refl, p.0, p.1)
begin_ok (true ∷ fs) body t h = cc

pub transaction_ok :
    (body : Sql (Unit {0})) (db : Db)
    → (transaction body db).0 ≡ ok tt
    → Ran body db (transaction body db).1.tables
transaction_ok body db = begin_ok db.faults body db.tables

read_value {ℓ κ} :
    {A : Type ℓ} {B : Type κ} (f : Tables → A) (g : A → Result B) (fs : List Bool) (t : Tables)
    {b : B}
    → ((query f >>= λ a. lift (g a)) (record { tables = t; faults = fs })).0 ≡ ok b
    → g (f t) ≡ ok b
read_value f g [] t h = h
read_value f g (false ∷ fs) t h = h
read_value f g (true ∷ fs) t h = cc

-- A read that succeeds has read the tables as they are.
pub read_ok {ℓ κ} :
    {A : Type ℓ} {B : Type κ} (f : Tables → A) (g : A → Result B) (db : Db) {b : B}
    → ((query f >>= λ a. lift (g a)) db).0 ≡ ok b
    → g (f db.tables) ≡ ok b
read_ok f g db h = read_value f g db.faults db.tables h

chained_to {ℓ} :
    {B : Type ℓ} (r : Result (Unit {0})) (db : Db) (k : Sql B) {b : B}
    → (let out : Result B × Db = elim r [ ok u ↦ k db | err e ↦ (err e, db) ] in
        out.0 ≡ ok b → (r ≡ ok tt) × (out ≡ k db))
chained_to (ok u) db k h = (refl, refl)
chained_to (err e) db k h = cc

-- Statements in a row that succeed have succeeded one by one.
pub then_ok {ℓ} :
    {B : Type ℓ} (m : Sql (Unit {0})) (k : Sql B) (db : Db) {b : B}
    → ((m >> k) db).0 ≡ ok b
    → ((m db).0 ≡ ok tt) × ((m >> k) db ≡ k (m db).1)
then_ok m k db h = chained_to (m db).0 (m db).1 k h

module _ {ℓ κ} {A : Type ℓ} {B : Type κ} (f : Tables → A) (g : A → Result B) where
  read_tables :
      (fs : List Bool) (t : Tables)
      → ((query f >>= λ a. lift (g a)) (record { tables = t; faults = fs })).1.tables ≡ t
  read_tables [] t = refl
  read_tables (false ∷ fs) t = refl
  read_tables (true ∷ fs) t = refl

  -- A read changes no table.
  pub tables-read : (db : Db) → ((query f >>= λ a. lift (g a)) db).1.tables ≡ db.tables
  tables-read db = read_tables db.faults db.tables
