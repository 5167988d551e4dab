-- ===== src/Observed.antt =====
-- What `Store` of go/sqlite/sqlite.go keeps of a settled chain: deposits, the two cursors, and the
-- domain that the file is bound to.
pub mod Binding
pub mod Cursors
pub mod Deposits
pub mod Opening
use mathlib.Core.Option
use juice_rail.Base.{
  ℕ, Bool, false, ◌&&◌, ◌||◌, not, Option, none, some, List, [], ◌∷◌, ◌++◌, ◌==◌, if◌then◌else◌,
}
use juice_rail.Base.Int.{ℤ, eqb_ℤ, leb_ℤ, ltb_ℤ, or_zero}
use juice_rail.Base.Lists.{Bytes, select, eq_bytes}
use juice_rail.Base.Error
use juice_rail.Base.Error.{Result, ok, err, plain, wrong_domain, refuse_if}
use juice_rail.Intent.{Deposit, codes}
use juice_rail.Sql.{Tables, Sql, DepositRow, CursorRow, lift, exec, query, ◌>>=◌, ◌>>◌}
use juice_rail.Sql.Word.{int64, uint64}
use juice_rail.Sql.Order.{sort}
use juice_rail.Store.{amount_text, amount_value, scan_all}

unfoldable pub deposit_row : ℕ → Deposit → DepositRow
deposit_row account d = record {
  account = account;
  tx_hash = d.tx_hash;
  log_index = int64 d.log_index;
  sender = d.sender;
  amount = amount_text d.amount;
  block_number = int64 d.block_number;
}

-- `PRIMARY KEY (account, tx_hash, log_index)`
abbrev same_log : DepositRow → DepositRow → Bool
same_log a b = a.account == b.account && (a.tx_hash == b.tx_hash && eqb_ℤ a.log_index b.log_index)

unfoldable pub has_log : DepositRow → List DepositRow → Bool
has_log new [] = false
has_log new (row ∷ rows) = same_log row new || has_log new rows

-- `INSERT OR IGNORE INTO deposits`
unfoldable pub insert_deposit : DepositRow → List DepositRow → List DepositRow
insert_deposit new rows = if has_log new rows then rows else rows ++ new ∷ []

-- `PutDeposit`
unfoldable pub put_deposit : ℕ → Deposit → Sql (Unit {0})
put_deposit account d =
    exec (λ t. record t { deposits = insert_deposit (deposit_row account d) t.deposits })

unfoldable pub scan_deposit : DepositRow → Result Deposit
scan_deposit row = Error.◌>>=◌ (amount_value row.amount) λ value. ok (record {
  tx_hash = row.tx_hash;
  log_index = uint64 row.log_index;
  sender = row.sender;
  amount = some value;
  block_number = uint64 row.block_number;
})

-- `ORDER BY block_number, log_index`
abbrev log_le : DepositRow → DepositRow → Bool
log_le a b =
    ltb_ℤ a.block_number b.block_number
    || (eqb_ℤ a.block_number b.block_number && leb_ℤ a.log_index b.log_index)

unfoldable deposit_rows : ℕ → Tables → List DepositRow
deposit_rows account t = sort log_le (select (λ row. row.account == account) t.deposits)

-- `Deposits`
unfoldable pub deposits : ℕ → Sql (List Deposit)
unfolding deposit_rows
deposits account = do rows ← query (deposit_rows account); lift (scan_all scan_deposit rows)

-- The name of a column of `cursors`.
pub data Column : Type 0 where
  deposit_block nonce_floor : Column

abbrev column_of : Column → CursorRow → Option ℤ
column_of deposit_block row = row.deposit_block
column_of nonce_floor row = row.nonce_floor

abbrev with_column : Column → ℤ → CursorRow → CursorRow
with_column deposit_block v row = record row { deposit_block = some v }
with_column nonce_floor v row = record row { nonce_floor = some v }

abbrev max_ℤ : ℤ → ℤ → ℤ
max_ℤ a b = if leb_ℤ a b then b else a

-- `INSERT … ON CONFLICT (account) DO UPDATE SET c = MAX(COALESCE(c, 0), excluded.c)`
unfoldable pub upsert : ℕ → Column → ℤ → List CursorRow → List CursorRow
upsert account c v [] =
    with_column c v (record { account = account; deposit_block = none; nonce_floor = none }) ∷ []
upsert account c v (row ∷ rows) =
    if row.account == account
    then with_column c (max_ℤ (or_zero (column_of c row)) v) row ∷ rows
    else row ∷ upsert account c v rows

-- `advance`
unfoldable pub advance : ℕ → Column → ℕ → Sql (Unit {0})
advance account c value =
    exec (λ t. record t { cursors = upsert account c (int64 value) t.cursors })

-- The column of the account's row.
unfoldable pub stored : ℕ → Column → List CursorRow → Option ℤ
stored account c [] = none
stored account c (row ∷ rows) =
    if row.account == account then column_of c row else stored account c rows

-- `readCursor`
unfoldable pub read_cursor : ℕ → Column → Sql (Option ℕ)
unfolding stored
read_cursor account c = query (λ t. Option.map uint64 (stored account c t.cursors))

-- `Cursor`, `PutCursor`, `NonceFloor`, `PutNonceFloor`
unfoldable pub cursor : ℕ → Sql (Option ℕ)
unfolding read_cursor
cursor account = read_cursor account deposit_block

unfoldable pub put_cursor : ℕ → ℕ → Sql (Unit {0})
unfolding advance
put_cursor account block = advance account deposit_block block

unfoldable pub read_nonce_floor : ℕ → Sql (Option ℕ)
unfolding read_cursor
read_nonce_floor account = read_cursor account nonce_floor

unfoldable pub put_nonce_floor : ℕ → ℕ → Sql (Unit {0})
unfolding advance
put_nonce_floor account nonce = advance account nonce_floor nonce

-- `INSERT OR IGNORE INTO domain`
unfoldable claim : Bytes → Option Bytes → Option Bytes
claim domain none = some domain
claim domain (some bound) = some bound

unfoldable bound_or_refused : Bytes → Option Bytes → Result (Unit {0})
bound_or_refused domain none = err plain
bound_or_refused domain (some bound) = refuse_if (not (eq_bytes bound domain)) wrong_domain

-- `bindDomain`
unfoldable bind_domain : Bytes → Sql (Unit {0})
unfolding claim bound_or_refused
bind_domain domain = do
  exec (λ t. record t { domain = claim domain t.domain })
  bound ← query (λ t. t.domain)
  lift (bound_or_refused domain bound)

-- A statement that changes no row: a pragma, or the schema, which leaves the tables that are there.
abbrev set_up : Sql (Unit {0})
set_up = exec (λ t. t)

unfoldable set_up_all : List Bytes → Sql (Unit {0})
set_up_all [] = lift (ok tt)
set_up_all (text ∷ more) = do set_up; set_up_all more

abbrev pragmas : List Bytes
pragmas =
    codes "PRAGMA journal_mode = WAL"
    ∷ codes "PRAGMA synchronous = FULL"
    ∷ codes "PRAGMA foreign_keys = ON"
    ∷ codes "PRAGMA busy_timeout = 5000"
    ∷ []

-- `Open`, of a file with its database driver in place.
unfoldable pub open_store : Bytes → Sql (Unit {0})
unfolding set_up_all bind_domain
open_store [] = lift (err plain)
open_store (c ∷ domain) = do set_up_all pragmas; set_up; bind_domain (c ∷ domain)
