-- ===== src/Sql.antt =====
-- The database of go/sqlite/sqlite.go. A table is the list of its rows in the order of insertion;
-- a column is a 64-bit signed integer, a text or bytes. SQLite and `database/sql` are not this
-- code's: each statement may fail, as a schedule of faults decides, and then changes nothing; a
-- transaction that fails is rolled back.
pub mod Word
pub mod Order
pub mod Statements
use juice_rail.Base.{ℕ, Bool, true, false, Option, List, [], ◌∷◌}
use juice_rail.Base.Int.{ℤ}
use juice_rail.Base.Lists.{Bytes}
use juice_rail.Base.Error.{storage, Result, ok, err}

pub record IntentRow : Type 0 where
  pub account : ℕ
  pub id : ℕ
  pub kind : ℤ
  pub dest : ℕ
  pub amount : Bytes
  pub delta : Bytes
  pub nonce : ℤ
  pub calldata : Bytes
  pub from_block : ℤ

pub record SubmissionRow : Type 0 where
  pub account : ℕ
  pub id : ℕ
  pub seq : ℕ
  pub tx_hash : ℕ
  pub gas : ℤ
  pub tip : Bytes
  pub fee_cap : Bytes

pub record FactRow : Type 0 where
  pub account : ℕ
  pub id : ℕ
  pub tx_hash : ℕ
  pub block_number : ℤ
  pub executed : ℤ

pub record DepositRow : Type 0 where
  pub account : ℕ
  pub tx_hash : ℕ
  pub log_index : ℤ
  pub sender : ℕ
  pub amount : Bytes
  pub block_number : ℤ

pub record CursorRow : Type 0 where
  pub account : ℕ
  pub deposit_block : Option ℤ
  pub nonce_floor : Option ℤ

pub record Tables : Type 0 where
  pub intents : List IntentRow
  pub submissions : List SubmissionRow
  pub facts : List FactRow
  pub deposits : List DepositRow
  pub cursors : List CursorRow
  pub domain : Option Bytes

-- `faults` says of each statement to come whether it fails; an empty schedule never does.
pub record Db : Type 0 where
  pub tables : Tables
  pub faults : List Bool

abbrev pub Sql {ℓ} : Type ℓ → Type ℓ
Sql A = Db → Result A × Db

module _ {ℓ} {A : Type ℓ} where
  abbrev pub pure : A → Sql A
  pure a db = (ok a, db)

  abbrev pub lift : Result A → Sql A
  lift r db = (r, db)

  -- One statement, that fails or has the effect and the answer given.
  abbrev pub attempt : List Bool → (Tables → A × Tables) → Tables → Result A × Db
  attempt [] run t = let (a, t') = run t in (ok a, record { tables = t'; faults = [] })
  attempt (false ∷ rest) run t =
      let (a, t') = run t in (ok a, record { tables = t'; faults = rest })
  attempt (true ∷ rest) run t = (err storage, record { tables = t; faults = rest })

module _ {ℓ} {A : Type ℓ} where
  abbrev statement : (Tables → A × Tables) → Sql A
  statement run db = attempt db.faults run db.tables

module _ {ℓ} {A : Type ℓ} where
  -- `tx.Commit()`, and `defer tx.Rollback()`: the tables as they were, unless it committed.
  abbrev commit : List Bool → Tables → Tables → A → Result A × Db
  commit [] before t a = (ok a, record { tables = t; faults = [] })
  commit (false ∷ rest) before t a = (ok a, record { tables = t; faults = rest })
  commit (true ∷ rest) before t a = (err storage, record { tables = before; faults = rest })

  abbrev pub settle : Tables → Result A × Db → Result A × Db
  settle before (ok a, db) = commit db.faults before db.tables a
  settle before (err e, db) = (err e, record db { tables = before })

  -- `Begin` may fail too.
  abbrev pub transaction : Sql A → Sql A
  transaction body db =
      let (r, db') = statement {A = Unit {0}} (λ t. (tt, t)) db in
      elim r [ ok u ↦ settle db.tables (body db') | err e ↦ (err e, db') ]

abbrev pub exec : (Tables → Tables) → Sql (Unit {0})
exec f = statement (λ t. (tt, f t))

abbrev pub query {ℓ} : {A : Type ℓ} → (Tables → A) → Sql A
query f = statement (λ t. (f t, t))

infixl 5 ◌>>=◌ ◌>>◌
abbrev pub ◌>>=◌ {ℓ κ} : {A : Type ℓ} {B : Type κ} → Sql A → (A → Sql B) → Sql B
◌>>=◌ m f db = let (r, db') = m db in elim r [ ok a ↦ f a db' | err e ↦ (err e, db') ]

abbrev pub ◌>>◌ {ℓ} : {B : Type ℓ} → Sql (Unit {0}) → Sql B → Sql B
m >> k = m >>= λ _. k
