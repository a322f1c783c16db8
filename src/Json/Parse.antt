-- ===== src/Json/Parse.antt =====
-- crates/core/src/json_read.rs: numbers, and the descent into arrays and objects.
pub mod Leaves
pub mod Total
pub mod Panics
use kronroe.Common.{
  ℕ, zero, suc, Bool, true, false, ◌||◌, none, some, ◌*◌, length, [], ◌∷◌, ◌++◌, ◌==◌,
  if◌then◌else◌,
}
use kronroe.Common.Text.{Text, codes}
use kronroe.Common.Utf8.{is_utf8}
use kronroe.Float.Decimal.{is_ascii_digit, f64_of_text}
use kronroe.Json.Scan.{
  skip_whitespace, expect, peek_is, parse_literal, parse_string, consume_digits,
}
use kronroe.Json.{
  JsonValue, null, boolean, number, str, array, object, Elements, nil, Members, empty, push,
  insert_member, ParseError, Outcome, ok, err, out_of_fuel, ◌>>=◌, or_err,
}

-- Each part of a number gives the text that it consumed, and the rest.
unfoldable pub int_part : Text → Outcome (Text × Text)
int_part [] = consume_digits []
int_part (b ∷ bs) = if b == b'0' then ok (b ∷ [], bs) else consume_digits (b ∷ bs)

unfoldable pub signed_part : Text → Outcome (Text × Text)
signed_part [] = int_part []
signed_part (b ∷ bs) =
    if b == b'-'
    then (do (digits, rest) ← int_part bs; ok (b ∷ digits, rest))
    else int_part (b ∷ bs)

unfoldable pub fraction_part : Text → Outcome (Text × Text)
fraction_part [] = ok ([], [])
fraction_part (b ∷ bs) =
    if b == b'.'
    then (do (digits, rest) ← consume_digits bs; ok (b ∷ digits, rest))
    else ok ([], b ∷ bs)

unfoldable pub exponent_digits : Text → Outcome (Text × Text)
exponent_digits [] = consume_digits []
exponent_digits (b ∷ bs) =
    if b == b'+' || b == b'-'
    then (do (digits, rest) ← consume_digits bs; ok (b ∷ digits, rest))
    else consume_digits (b ∷ bs)

unfoldable pub exponent_part : Text → Outcome (Text × Text)
exponent_part [] = ok ([], [])
exponent_part (b ∷ bs) =
    if b == b'e' || b == b'E'
    then (do (digits, rest) ← exponent_digits bs; ok (b ∷ digits, rest))
    else ok ([], b ∷ bs)

unfoldable pub number_of : Text → Text → Outcome (JsonValue × Text)
number_of s rest = do n ← or_err ParseError.invalid_number (f64_of_text s); ok (number n, rest)

unfoldable pub parse_number : Text → Outcome (JsonValue × Text)
parse_number input = do
  (int, after_int) ← signed_part input
  (fraction, after_fraction) ← fraction_part after_int
  (exponent, rest) ← exponent_part after_fraction
  number_of (int ++ (fraction ++ exponent)) rest

-- The values that hold no others.
unfoldable pub parse_scalar : Text → Outcome (JsonValue × Text)
unfolding is_ascii_digit
parse_scalar [] = err ParseError.unexpected_end
parse_scalar (c ∷ cs) =
    if c == b'"'
    then (do (s, rest) ← parse_string (c ∷ cs); ok (str s, rest))
    else if c == b't'
    then parse_literal (codes "true") (boolean true) (c ∷ cs)
    else if c == b'f'
    then parse_literal (codes "false") (boolean false) (c ∷ cs)
    else if c == b'n'
    then parse_literal (codes "null") null (c ∷ cs)
    else if c == b'-' || is_ascii_digit c
    then parse_number (c ∷ cs)
    else err ParseError.unexpected_character

-- The key of a member and the colon after it.
unfoldable pub parse_key : Text → Outcome (Text × Text)
parse_key input = do
  (key, after_key) ← parse_string (skip_whitespace input)
  rest ← expect b':' (skip_whitespace after_key)
  ok (key, rest)

-- What follows an entry of an array or object: whether it is the last, and the rest.
separator : ℕ → Text → Outcome (Bool × Text)
separator closing [] = err ParseError.expected_separator
separator closing (b ∷ bs) =
    if b == b','
    then ok (false, bs)
    else if b == closing
    then ok (true, bs)
    else err ParseError.expected_separator

unfoldable pub parse_separator : ℕ → Text → Outcome (Bool × Text)
unfolding skip_whitespace separator
parse_separator closing input = separator closing (skip_whitespace input)

abbrev pub Parser : Type 0
Parser = Text → Outcome (JsonValue × Text)

-- The match of `parse_value`, after the space, given the parsers of an object and of an array.
unfoldable pub value_at : Parser → Parser → Parser
unfolding parse_scalar
value_at object_parser array_parser [] = err ParseError.unexpected_end
value_at object_parser array_parser (c ∷ cs) =
    if c == b'{'
    then object_parser cs
    else if c == b'['
    then array_parser cs
    else parse_scalar (c ∷ cs)

-- The start of an object or array, after the space: the closing byte at once, or entries.
unfoldable pub opened : ℕ → JsonValue → Parser → Parser
opened closing nothing entries [] = entries []
opened closing nothing entries (b ∷ bs) =
    if b == closing then ok (nothing, bs) else entries (b ∷ bs)

-- After an entry: the whole value if it was the last, or the next round of the loop.
unfoldable pub entry_end : Parser → JsonValue → Bool × Text → Outcome (JsonValue × Text)
entry_end again whole (true, rest) = ok (whole, rest)
entry_end again whole (false, rest) = again rest

-- Each descent into a value costs one unit of fuel, and so does each round of a loop.
unfoldable mutual
  pub parse_value : ℕ → Parser
  parse_value zero input = out_of_fuel
  parse_value (suc fuel) input =
      value_at (parse_object fuel) (parse_array fuel) (skip_whitespace input)

  pub parse_object : ℕ → Parser
  parse_object zero input = out_of_fuel
  parse_object (suc fuel) input =
      opened b'}' (object empty) (parse_members fuel empty) (skip_whitespace input)

  pub parse_members : ℕ → Members → Parser
  parse_members zero map input = out_of_fuel
  parse_members (suc fuel) map input = parse_key input >>= λ (key, after_key).
      parse_value fuel after_key >>= λ (value, after_value).
      parse_separator b'}' after_value
      >>= entry_end (parse_members fuel (insert_member key value map))
          (object (insert_member key value map))

  pub parse_array : ℕ → Parser
  parse_array zero input = out_of_fuel
  parse_array (suc fuel) input =
      opened b']' (array nil) (parse_elements fuel nil) (skip_whitespace input)

  pub parse_elements : ℕ → Elements → Parser
  parse_elements zero items input = out_of_fuel
  parse_elements (suc fuel) items input = parse_value fuel input >>= λ (value, after_value).
      parse_separator b']' after_value
      >>= entry_end (parse_elements fuel (push value items)) (array (push value items))

unfoldable pub finish : JsonValue → Text → Outcome JsonValue
finish value [] = ok value
finish value (b ∷ bs) = err ParseError.trailing_data

-- `JsonValue::parse`
unfoldable pub parse : Text → Outcome JsonValue
unfolding is_utf8 parse_value skip_whitespace
parse input =
    if is_utf8 input
    then (do
      (value, rest) ← parse_value (suc (3 * length input)) input
      finish value (skip_whitespace rest))
    else err ParseError.invalid_utf8
