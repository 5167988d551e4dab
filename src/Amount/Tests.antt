-- ===== src/Amount/Tests.antt =====
-- The theorems on amounts at concrete texts.
use juice_rail.Base.{◌≡◌, some, arith}
use juice_rail.Base.Int.{pos}
use juice_rail.Base.Error.{ok, err, bad_input}
use juice_rail.Amount.{parse_units, format_units}
use juice_rail.Amount.RoundTrip.{parse_units-format_units}
use juice_rail.Amount.Accepts.{one_decimal_refused}

parse_units-format_units_example :
    parse_units (format_units (some (pos 1_050_000)) 6) 6 ≡ ok (pos 1_050_000)
parse_units-format_units_example = parse_units-format_units 1_050_000 6 (omega arith)

one_decimal_refused_example : parse_units (format_units (some (pos 15)) 1) 1 ≡ err bad_input
one_decimal_refused_example = one_decimal_refused 15
