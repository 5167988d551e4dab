-- ===== src/Observed/Cursors.antt =====
-- The cursors: `advance` of go/sqlite/sqlite.go.
use Prim.Native.Nat.{max}
use juice_rail.Base.{
  ℕ, ◌^◌, ◌<◌, ◌≡◌, refl, Option, none, some, List, [], ◌∷◌, arith, Bool, ◌&&◌, ◌==◌, if◌then◌else◌,
  true, false,
}
use juice_rail.Base.Int.{ℤ, pos, pos_part, neg_part, or_zero, leb_ℤ}
use juice_rail.Base.Error.{ok}
use juice_rail.Sql.{Db, CursorRow}
use juice_rail.Sql.Statements.{exec_ok}
use juice_rail.Sql.Word.{int64}
use juice_rail.Observed.{Column, upsert, advance, stored}

-- How far a column of an account has come; 0 where it holds nothing.
unfoldable pub level : ℕ → Column → List CursorRow → ℕ
level account c rows = pos_part (or_zero (stored account c rows))

abbrev NotNegative : Option ℤ → Type 0
NotNegative o = neg_part (or_zero o) ≡ 0

eq_column : Column → Column → Bool
eq_column Column.deposit_block Column.deposit_block = true
eq_column Column.nonce_floor Column.nonce_floor = true
eq_column _ _ = false

-- What a column holds once the value `v` has been written to column `c` of `account`.
unfoldable pub after : ℕ → Column → ℕ → List CursorRow → ℕ → Column → Option ℤ
unfolding eq_column
after account c v rows b d =
    if b == account && eq_column c d
    then some (pos (max (level account c rows) v))
    else stored b d rows

stored-upsert :
    (account v : ℕ) (c : Column) (rows : List CursorRow) (b : ℕ) (d : Column)
    → NotNegative (stored account c rows)
    → stored b d (upsert account c (pos v) rows) ≡ after account c v rows b d
unfolding stored upsert after level
stored-upsert account v Column.deposit_block [] b Column.deposit_block h = ground arith
stored-upsert account v Column.nonce_floor [] b Column.deposit_block h = ground arith
stored-upsert account v c [] b d h = ground arith
stored-upsert account v Column.deposit_block (row ∷ rows) b Column.deposit_block h =
    ground (arith, stored-upsert account v Column.deposit_block rows b Column.deposit_block)
stored-upsert account v Column.nonce_floor (row ∷ rows) b Column.deposit_block h =
    ground (arith, stored-upsert account v Column.nonce_floor rows b Column.deposit_block)
stored-upsert account v c (row ∷ rows) b d h = ground (arith, stored-upsert account v c rows b d)

-- A column that held nothing, or that holds no lesser number than it did, as the signed 64-bit numbers
-- that it holds.
abbrev pub not_below : Option ℤ → Option ℤ → Bool
not_below none o = true
not_below (some v) none = false
not_below (some v) (some v') = leb_ℤ v v'

pub not_below_refl : (o : Option ℤ) → not_below o o ≡ true
not_below_refl none = refl
not_below_refl (some v) = ground arith

pub not_below_trans :
    (a b c : Option ℤ) → not_below a b ≡ true → not_below b c ≡ true → not_below a c ≡ true
not_below_trans none b c p q = refl
not_below_trans (some u) none c p q = cc
not_below_trans (some u) (some v) none p q = cc
not_below_trans (some u) (some v) (some w) p q = ground arith

-- Whatever value is written, no column of any account comes to hold less.
pub stored-upsert-not_below :
    (account : ℕ) (c : Column) (v : ℤ) (rows : List CursorRow) (b : ℕ) (d : Column)
    → not_below (stored b d rows) (stored b d (upsert account c v rows)) ≡ true
unfolding stored upsert
stored-upsert-not_below account c v [] b d = refl
stored-upsert-not_below account Column.deposit_block v (row ∷ rows) b Column.deposit_block =
    elim row.deposit_block [
      | none ↦ ground (
        arith,
        stored-upsert-not_below account Column.deposit_block v rows b Column.deposit_block,
      )
      | some x ↦ ground (
        arith,
        stored-upsert-not_below account Column.deposit_block v rows b Column.deposit_block,
      )
    ]
stored-upsert-not_below account Column.nonce_floor v (row ∷ rows) b Column.nonce_floor =
    elim row.nonce_floor [
      | none ↦
          ground
            (arith, stored-upsert-not_below account Column.nonce_floor v rows b Column.nonce_floor)
      | some x ↦
          ground
            (arith, stored-upsert-not_below account Column.nonce_floor v rows b Column.nonce_floor)
    ]
stored-upsert-not_below account Column.deposit_block v (row ∷ rows) b Column.nonce_floor =
    elim row.nonce_floor [
      | none ↦
          ground (
            arith,
            stored-upsert-not_below account Column.deposit_block v rows b Column.nonce_floor,
          )
      | some x ↦
          ground (
            arith,
            stored-upsert-not_below account Column.deposit_block v rows b Column.nonce_floor,
          )
    ]
stored-upsert-not_below account Column.nonce_floor v (row ∷ rows) b Column.deposit_block =
    elim row.deposit_block [
      | none ↦
          ground (
            arith,
            stored-upsert-not_below account Column.nonce_floor v rows b Column.deposit_block,
          )
      | some x ↦
          ground (
            arith,
            stored-upsert-not_below account Column.nonce_floor v rows b Column.deposit_block,
          )
    ]

-- A successful update of one account's column to a value below 2 ^ 63 leaves it at the greater of
-- that value and what it held (0 where it held nothing), and leaves every other column of every
-- account alone. What the column held was not negative.
advance_raises :
    (account value : ℕ) (c : Column) (db : Db) (b : ℕ) (d : Column)
    → value < 2 ^ 63
    → NotNegative (stored account c db.tables.cursors)
    → (advance account c value db).0 ≡ ok tt
    → stored b d (advance account c value db).1.tables.cursors
      ≡ after account c value db.tables.cursors b d
unfolding advance
advance_raises account value c db b d fits h done =
    let small : int64 value ≡ pos value = unfold int64 in ground arith in
    rw
      (
        exec_ok (λ t. record t { cursors = upsert account c (int64 value) t.cursors }) db done,
        small,
      )
      (stored-upsert account value c db.tables.cursors b d h)
