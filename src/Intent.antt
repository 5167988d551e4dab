-- ===== src/Intent.antt =====
-- The records of go/rail/types.go: kinds, intents, submissions, facts and deposits. An address, a
-- hash and an identifier are fixed arrays of bytes, each modelled as the number that its bytes spell
-- in big-endian order, so the zero array is 0. A `uint64` is a number below 2 ^ 64.
pub mod Validity
pub mod Terms
mod Tests
use Prim.Native.Char.{code}
use Prim.Native.String.{String}
use juice_rail.Base.{
  ℕ, ◌^◌, Bool, true, false, ◌&&◌, ◌||◌, not, Option, none, some, [], ◌∷◌, ◌==◌, if◌then◌else◌,
  ◌++◌,
}
use juice_rail.Base.Int.{ℤ, pos, eqb_ℤ, ltb_ℤ}
use juice_rail.Base.Lists.{Bytes, eq_bytes}
use juice_rail.Base.Decimal.{format}
use juice_rail.Base.Error.{bad_input, Result, ok, err, ◌>>=◌, ◌>>◌, refuse_if}

-- `Kind`, a `uint8`
abbrev Kind : Type 0
Kind = ℕ

abbrev pub kind_transfer : Kind
kind_transfer = 1

abbrev pub kind_withdraw : Kind
kind_withdraw = 2

abbrev pub kind_refill : Kind
kind_refill = 3

-- The bytes of an ASCII text.
abbrev pub codes : String → Bytes
codes String.[] = []
codes (String.◌∷◌ c s) = code c ∷ codes s

-- `Kind.String`
unfoldable kind_string : Kind → Bytes
kind_string k =
    if k == kind_transfer
    then codes "transfer"
    else if k == kind_withdraw
    then codes "withdraw"
    else if k == kind_refill
    then codes "refill"
    else codes "kind(" ++ format k ++ codes ")"

-- `ParseKind`
unfoldable parse_kind : Bytes → Result Kind
parse_kind s =
    if eq_bytes s (codes "transfer")
    then ok kind_transfer
    else if eq_bytes s (codes "withdraw")
    then ok kind_withdraw
    else if eq_bytes s (codes "refill")
    then ok kind_refill
    else err bad_input

pub record Intent : Type 0 where
  pub id : ℕ
  pub kind : Kind
  pub to : ℕ
  pub amount : Option ℤ
  pub delta : Option ℤ
  pub nonce : ℕ
  pub calldata : Bytes
  pub from_block : ℕ

-- `v != nil && v.Sign() > 0`
abbrev pub is_positive : Option ℤ → Bool
is_positive none = false
is_positive (some v) = ltb_ℤ (pos 0) v

-- `BitLen() <= 256` of an amount that is positive
abbrev fits_uint256 : Option ℤ → Bool
fits_uint256 none = true
fits_uint256 (some v) = ltb_ℤ v (pos (2 ^ 256))

abbrev is_kind : Kind → Bool
is_kind k = k == kind_transfer || (k == kind_withdraw || k == kind_refill)

abbrev is_nil : Bytes → Bool
is_nil [] = true
is_nil (c ∷ s) = false

-- `Intent.Validate`
unfoldable pub validate : Intent → Result (Unit {0})
validate i = do
  refuse_if (not (is_kind i.kind)) bad_input
  refuse_if (i.to == 0) bad_input
  refuse_if (not (is_positive i.amount)) bad_input
  refuse_if (not (fits_uint256 i.amount)) bad_input
  refuse_if (i.kind == kind_refill && not (is_positive i.delta)) bad_input
  refuse_if (is_nil i.calldata) bad_input

-- Two amounts that are both there and equal.
abbrev pub same_amount : Option ℤ → Option ℤ → Bool
same_amount (some a) (some b) = eqb_ℤ a b
same_amount _ _ = false

-- `Intent.SameTerms`
unfoldable pub same_terms : Intent → Intent → Bool
same_terms i o =
    i.id == o.id
    && (i.kind == o.kind && (i.to == o.to && (i.nonce == o.nonce && same_amount i.amount o.amount)))

pub record Submission : Type 0 where
  pub tx_hash : ℕ
  pub gas : ℕ
  pub tip : Option ℤ
  pub fee_cap : Option ℤ

pub record Fact : Type 0 where
  pub tx_hash : ℕ
  pub block_number : ℕ
  pub executed : Bool

pub record Deposit : Type 0 where
  pub tx_hash : ℕ
  pub log_index : ℕ
  pub sender : ℕ
  pub amount : Option ℤ
  pub block_number : ℕ
