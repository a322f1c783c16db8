-- ===== src/Json/Reads.antt =====
-- crates/core/src/json_read.rs: what it is for a text to be read as a value, and the values that hold
-- no others.
use mathlib.Core.List.{append-nil}
use kronroe.Common.{
  ℕ, zero, suc, ◌*◌, ◌<◌, ◌≡◌, refl, ◌∙◌, ap, sym, Bool, true, false, ◌||◌, [], ◌∷◌, ◌++◌, length,
  ◌==◌, arith,
}
use kronroe.Common.Text.{Text}
use kronroe.Common.Utf8.{is_utf8, utf8_after, announced}
use kronroe.Json.{JsonValue, null, boolean, str, ok, ◌>>=◌}
use kronroe.Json.OneLine.{no_newline, no_newline-write_string}
use kronroe.Json.Parse.{finish, parse, parse_value, parse_scalar, value_at}
use kronroe.Json.RoundTrip.{is_utf8-write_string, parse_string-write_string}
use kronroe.Json.Scan.{skip_whitespace, parse_literal}
use kronroe.Json.Write.{write_string, write_null, write_bool}

-- What may follow a value inside of others: a number ends there.
abbrev pub delimited : Text → Bool
delimited [] = true
delimited (c ∷ cs) = c == b',' || c == b'}' || c == b']'

-- The text is UTF-8 on one line and is read as the value, whatever follows it.
pub record Reads (t : Text) (v : JsonValue) : Type 0 where
  pub utf8 : is_utf8 t ≡ true
  pub one_line : no_newline t ≡ true
  pub apply :
      (fuel : ℕ) (rest : Text)
      → delimited rest ≡ true
      → 3 * length t < fuel
      → parse_value fuel (t ++ rest) ≡ ok (v, rest)

string_value :
    (fuel : ℕ) (s rest : Text)
    → is_utf8 s ≡ true
    → parse_value (suc fuel) (write_string s ++ rest) ≡ ok (str s, rest)
unfolding parse_value value_at parse_scalar skip_whitespace write_string
string_value fuel s rest u =
    ap (λ m. m >>= λ (p : Text × Text). ok (str p.0, p.1)) (parse_string-write_string s rest u)

pub str-Reads : (s : Text) → is_utf8 s ≡ true → Reads (write_string s) (str s)
str-Reads s u = record {
  utf8 = is_utf8-write_string s u;
  one_line = no_newline-write_string s;
  apply = at_fuel;
}
  where
    at_fuel :
        (fuel : ℕ) (rest : Text)
        → delimited rest ≡ true
        → 3 * length (write_string s) < fuel
        → parse_value fuel (write_string s ++ rest) ≡ ok (str s, rest)
    at_fuel zero rest d h = absurd (omega arith)
    at_fuel (suc fuel) rest d h = string_value fuel s rest u

literal_value :
    (fuel : ℕ) (rest : Text) → parse_value (suc fuel) (write_null ++ rest) ≡ ok (null, rest)
unfolding parse_value value_at parse_scalar skip_whitespace parse_literal write_null
literal_value fuel rest = refl

null_utf8 : is_utf8 write_null ≡ true
unfolding is_utf8 utf8_after announced write_null
null_utf8 = refl

bool_utf8 : (b : Bool) → is_utf8 (write_bool b) ≡ true
unfolding is_utf8 utf8_after announced write_bool
bool_utf8 true = refl
bool_utf8 false = refl

null_line : no_newline write_null ≡ true
unfolding write_null
null_line = refl

bool_line : (b : Bool) → no_newline (write_bool b) ≡ true
unfolding write_bool
bool_line true = refl
bool_line false = refl

pub null-Reads : Reads write_null null
null-Reads = record { utf8 = null_utf8; one_line = null_line; apply = at_fuel }
  where
    at_fuel :
        (fuel : ℕ) (rest : Text)
        → delimited rest ≡ true
        → 3 * length write_null < fuel
        → parse_value fuel (write_null ++ rest) ≡ ok (null, rest)
    at_fuel zero rest d h = absurd (omega arith)
    at_fuel (suc fuel) rest d h = literal_value fuel rest

bool_value :
    (b : Bool) (fuel : ℕ) (rest : Text)
    → parse_value (suc fuel) (write_bool b ++ rest) ≡ ok (boolean b, rest)
unfolding parse_value value_at parse_scalar skip_whitespace parse_literal write_bool
bool_value true fuel rest = refl
bool_value false fuel rest = refl

pub boolean-Reads : (b : Bool) → Reads (write_bool b) (boolean b)
boolean-Reads b = record { utf8 = bool_utf8 b; one_line = bool_line b; apply = at_fuel }
  where
    at_fuel :
        (fuel : ℕ) (rest : Text)
        → delimited rest ≡ true
        → 3 * length (write_bool b) < fuel
        → parse_value fuel (write_bool b ++ rest) ≡ ok (boolean b, rest)
    at_fuel zero rest d h = absurd (omega arith)
    at_fuel (suc fuel) rest d h = bool_value b fuel rest

-- A text that is read as a value is parsed as it, with nothing after it.
pub parse-Reads : (t : Text) (v : JsonValue) → Reads t v → parse t ≡ ok v
unfolding parse finish skip_whitespace
parse-Reads t v r =
    let u : is_utf8 t ≡ true = r.utf8 in
    rw u (
      ap
        (λ x. parse_value (suc (3 * length t)) x >>= λ (p : JsonValue × Text).
          finish p.0 (skip_whitespace p.1))
        (sym (append-nil t))
      ∙ ap (λ m. m >>= λ (p : JsonValue × Text). finish p.0 (skip_whitespace p.1))
          (r.apply (suc (3 * length t)) [] refl (omega arith)))
