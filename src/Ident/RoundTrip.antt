-- ===== src/Ident/RoundTrip.antt =====
-- `ParseID` of go/rail/types.go, of what `ID.String` prints.
use juice_rail.Base.{
  ℕ, ◌+◌, ◌*◌, ◌/◌, ◌%◌, ◌^◌, ◌<◌, ◌≡◌, refl, sym, ap, ◌∙◌, some, [], ◌∷◌, map, arith,
}
use juice_rail.Base.Lists.{Bytes, All, some-injective}
use juice_rail.Base.Binary.{
  word_bytes, IsByte, All-word_bytes, length-word_bytes, set_bytes-word_bytes,
}
use juice_rail.Base.Error.{ok}
use juice_rail.Attempt.{to_lower}
use juice_rail.Ident.{
  hex_digit, encode_hex, from_hex, byte_of, push, decode_hex, trim_0x, id_of, parse_id, id_string,
}

from_hex-hex_digit : (n : ℕ) → n < 16 → from_hex (hex_digit n) ≡ some n
unfolding from_hex hex_digit
from_hex-hex_digit n h = ground arith

byte_again :
    (b : ℕ)
    → b < 256
    → byte_of (from_hex (hex_digit (b / 16))) (from_hex (hex_digit (b % 16))) ≡ some b
unfolding byte_of
byte_again b h =
    let whole : b / 16 * 16 + b % 16 ≡ b = omega arith in
    rw (from_hex-hex_digit (b / 16) (omega arith), from_hex-hex_digit (b % 16) (omega arith), whole)
      refl

decode_hex-encode_hex : (s : Bytes) → All IsByte s → decode_hex (encode_hex s) ≡ some s
unfolding decode_hex encode_hex push
decode_hex-encode_hex [] a = refl
decode_hex-encode_hex (b ∷ s) a = rw (byte_again b a.0, decode_hex-encode_hex s a.1) refl

lower_digit : (n : ℕ) → n < 16 → to_lower (hex_digit n) ≡ hex_digit n
unfolding to_lower hex_digit
lower_digit n h = ground arith

-- The digits are in lower case.
pub map-encode_hex : (s : Bytes) → All IsByte s → map to_lower (encode_hex s) ≡ encode_hex s
unfolding encode_hex
map-encode_hex [] a = refl
map-encode_hex (b ∷ s) a = rw (
  lower_digit (b / 16) (omega (arith, a.0)),
  lower_digit (b % 16) (omega arith),
  map-encode_hex s a.1,
)

pub encode_hex-injective :
    (s t : Bytes) → All IsByte s → All IsByte t → encode_hex s ≡ encode_hex t → s ≡ t
encode_hex-injective s t a b h =
    some-injective (sym (decode_hex-encode_hex s a) ∙ ap decode_hex h ∙ decode_hex-encode_hex t b)

-- The text of an identifier of 32 bytes is read back as that identifier.
pub parse_id-id_string : (id : ℕ) → id < 2 ^ 256 → parse_id (id_string id) ≡ ok id
unfolding parse_id id_string trim_0x id_of
parse_id-id_string id h =
    rw
      (
        decode_hex-encode_hex (word_bytes id) (All-word_bytes id),
        length-word_bytes id h,
        set_bytes-word_bytes id,
      )
      refl
