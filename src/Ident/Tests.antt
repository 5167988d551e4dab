-- ===== src/Ident/Tests.antt =====
-- The theorem on identifiers, at a concrete one.
use juice_rail.Base.{◌≡◌, arith}
use juice_rail.Base.Error.{ok}
use juice_rail.Ident.{parse_id, id_string}
use juice_rail.Ident.RoundTrip.{parse_id-id_string}

parse_id-id_string_example : parse_id (id_string 48_879) ≡ ok 48_879
parse_id-id_string_example = parse_id-id_string 48_879 (omega arith)
