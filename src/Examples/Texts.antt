-- ===== src/Examples/Texts.antt =====
-- Runs of the theorems on texts: strings, times and facts are read back.
use kronroe.Common.{
  arith, ℕ, ◌≡◌, ◌≢◌, refl, Option, some, none, true, false, List, [], ◌∷◌, ◌++◌, inr, map,
}
use kronroe.Common.Int.{pos, negsuc}
use kronroe.Common.Text.{Text, codes}
use kronroe.Error.{Result, ErrorKind, fail}
use kronroe.Fact.Json.RoundTrip.{FactFits}
use kronroe.Json.{JsonValue, Outcome, out_of_fuel, ok}
use kronroe.Json.Numbers.{IsNumber}
use kronroe.Json.Parse.{parse, parse_number}
use kronroe.Json.Parse.Panics.{parse_unicode_escape_panics}
use kronroe.Json.Parse.Total.{parse-ne-out_of_fuel}
use kronroe.Json.RoundTrip.{parse_string-write_string}
use kronroe.Json.Scan.{parse_string}
use kronroe.Json.Write.{write_string, write_f32}
use kronroe.Time.{KronroeTimestamp}
use kronroe.Time.Rfc3339.{parse_rfc3339, to_rfc3339_z}
use kronroe.Time.Rfc3339.RoundTrip.{parse_rfc3339-to_rfc3339_z}
use kronroe.Time.Rfc3339.Negative.{parse_rfc3339_negative_year}
use kronroe.Common.{All}
use kronroe.Common.Utf8.{is_utf8}
use kronroe.Examples.{acme, first_parses}

parse-ne-out_of_fuel_example : parse (codes "{\"a\":[1,\"b\"]}") ≢ out_of_fuel
parse-ne-out_of_fuel_example = parse-ne-out_of_fuel (codes "{\"a\":[1,\"b\"]}")

abbrev quoted : Text
quoted = b'a' ∷ b'"' ∷ 10 ∷ 195 ∷ 169 ∷ 1 ∷ []

parse_string-write_string_example :
    parse_string (write_string quoted ++ codes ",") ≡ ok (quoted, codes ",")
unfolding kronroe.Common.Utf8.is_utf8 kronroe.Common.Utf8.utf8_after kronroe.Common.Utf8.announced
parse_string-write_string_example = parse_string-write_string quoted (codes ",") refl

abbrev new_year : KronroeTimestamp
new_year = record { unix_micros = pos 1704067200123400 }

parse_rfc3339-to_rfc3339_z_example : parse_rfc3339 (to_rfc3339_z new_year) ≡ Result.ok new_year
parse_rfc3339-to_rfc3339_z_example = parse_rfc3339-to_rfc3339_z new_year (omega arith) (omega arith)

abbrev before_year_0 : KronroeTimestamp
before_year_0 = record { unix_micros = negsuc 62200000000000000 }

parse_rfc3339_negative_year_example :
    parse_rfc3339 (to_rfc3339_z before_year_0) ≡ fail ErrorKind.internal
unfolding kronroe.Time.Calendar.civil_from_days kronroe.Time.div_euclid kronroe.Common.Int.◌-ℤ◌
    kronroe.Common.Int.◌+ℤ◌ kronroe.Common.Int.◌*ℤ◌
parse_rfc3339_negative_year_example = parse_rfc3339_negative_year before_year_0 {n = 1} refl

abbrev pub one_f64 : ℕ
one_f64 = 4607182418800017408

one-IsNumber : IsNumber (write_f32 acme.confidence) one_f64
unfolding write_f32 parse_number kronroe.Common.Decimal.padded kronroe.Common.Decimal.width_of
    kronroe.Float.Decimal.is_ascii_digit kronroe.Common.Utf8.is_utf8 kronroe.Common.Utf8.utf8_after
    kronroe.Common.Utf8.announced kronroe.Json.Parse.signed_part kronroe.Json.Parse.int_part
    kronroe.Json.Scan.consume_digits kronroe.Json.Parse.fraction_part
    kronroe.Json.Parse.exponent_part kronroe.Json.Parse.number_of kronroe.Float.Decimal.f64_of_text
one-IsNumber = record { start = refl; utf8 = refl; one_line = refl; whole = refl }

pub acme_fits : FactFits acme one_f64
unfolding kronroe.Common.Utf8.is_utf8 kronroe.Common.Utf8.utf8_after kronroe.Common.Utf8.announced
    kronroe.Float.Decimal.f32_of_f64
acme_fits = record {
  id = first_parses;
  id_text = refl;
  subject = refl;
  predicate = refl;
  object = refl;
  valid_from = (omega arith, omega arith);
  valid_to = tt;
  recorded_at = (omega arith, omega arith);
  expired_at = tt;
  confidence = one-IsNumber;
  confidence_value = refl;
  source = tt;
}

-- A character of two bytes, of which the first is the last of an escape.
abbrev cut : Text
cut = 195 ∷ 169 ∷ b'"' ∷ []

parse_unicode_escape_panics_example :
    parse (b'"' ∷ b'\\' ∷ b'u' ∷ b'0' ∷ b'0' ∷ b'0' ∷ cut) ≡ Outcome.panicked
unfolding kronroe.Common.Utf8.is_utf8 kronroe.Common.Utf8.utf8_after kronroe.Common.Utf8.announced
parse_unicode_escape_panics_example =
    parse_unicode_escape_panics b'0' b'0' b'0' 195 (169 ∷ b'"' ∷ []) refl refl
