-- ===== src/Ident.antt =====
-- The texts of identifiers: `ID.String` and `ParseID` of go/rail/types.go, and what they call of
-- `encoding/hex`.
pub mod RoundTrip
mod Tests
use juice_rail.Base.{
  ℕ, ◌+◌, ◌*◌, ◌-◌, ◌/◌, ◌%◌, ◌&&◌, Option, none, some, [], ◌∷◌, ◌==◌, leb, ltb, if◌then◌else◌,
}
use juice_rail.Base.Lists.{Bytes, length}
use juice_rail.Base.Binary.{set_bytes, word_bytes}
use juice_rail.Base.Error.{Result, ok, err, plain}

-- A digit of `hex.EncodeToString`, in lower case.
unfoldable hex_digit : ℕ → ℕ
hex_digit n = if ltb n 10 then b'0' + n else b'a' + (n - 10)

unfoldable pub encode_hex : Bytes → Bytes
unfolding hex_digit
encode_hex [] = []
encode_hex (b ∷ s) = hex_digit (b / 16) ∷ hex_digit (b % 16) ∷ encode_hex s

-- The digits that `hex.DecodeString` takes, in either case.
unfoldable from_hex : ℕ → Option ℕ
from_hex c =
    if leb b'0' c && leb c b'9'
    then some (c - b'0')
    else if leb b'a' c && leb c b'f'
    then some (c - b'a' + 10)
    else if leb b'A' c && leb c b'F'
    then some (c - b'A' + 10)
    else none

unfoldable byte_of : Option ℕ → Option ℕ → Option ℕ
byte_of (some high) (some low) = some (high * 16 + low)
byte_of _ _ = none

unfoldable push : Option ℕ → Option Bytes → Option Bytes
push (some b) (some s) = some (b ∷ s)
push _ _ = none

unfoldable decode_hex : Bytes → Option Bytes
unfolding from_hex byte_of push
decode_hex [] = some []
decode_hex (c ∷ []) = none
decode_hex (c ∷ d ∷ s) = push (byte_of (from_hex c) (from_hex d)) (decode_hex s)

-- `strings.TrimPrefix(s, "0x")`
unfoldable pub trim_0x : Bytes → Bytes
trim_0x (a ∷ b ∷ s) = if a == b'0' && b == b'x' then s else a ∷ b ∷ s
trim_0x s = s

unfoldable id_of : Option Bytes → Result ℕ
id_of none = err plain
id_of (some b) = if length b == 32 then ok (set_bytes 0 b) else err plain

-- `ParseID`
unfoldable pub parse_id : Bytes → Result ℕ
unfolding trim_0x decode_hex id_of
parse_id s = id_of (decode_hex (trim_0x s))

-- `ID.String`
unfoldable pub id_string : ℕ → Bytes
unfolding encode_hex
id_string id = b'0' ∷ b'x' ∷ encode_hex (word_bytes id)
