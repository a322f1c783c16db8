-- ===== src/Json/Scan.antt =====
-- crates/core/src/json_read.rs: the pieces of the parser that read bytes. The state of the parser,
-- an input and a position in it, is the input from the position on.
pub mod Bounds
use kronroe.Common.{
  ℕ, zero, suc, ◌+◌, ◌-◌, ◌*◌, ◌/◌, ◌%◌, Bool, true, false, not, ◌&&◌, ◌||◌, Option, none, some, [],
  ◌∷◌, ◌++◌, length, take, drop, ltb, leb, ◌==◌, if◌then◌else◌,
}
use kronroe.Common.Text.{Text, starts_with}
use kronroe.Float.Decimal.{is_ascii_digit}
use kronroe.Json.{JsonValue, ParseError, Outcome, ok, err, panicked, out_of_fuel, ◌>>=◌, or_err}

abbrev pub is_space : ℕ → Bool
is_space b = b == b' ' || b == 9 || b == 10 || b == 13

unfoldable pub skip_whitespace : Text → Text
skip_whitespace [] = []
skip_whitespace (b ∷ bs) = if is_space b then skip_whitespace bs else b ∷ bs

-- `expect(expected)`
unfoldable pub expect : ℕ → Text → Outcome Text
expect expected [] = err (ParseError.expected_byte expected)
expect expected (b ∷ bs) = if b == expected then ok bs else err (ParseError.expected_byte expected)

-- `peek() == Some(byte)`
unfoldable pub peek_is : ℕ → Text → Bool
peek_is byte [] = false
peek_is byte (b ∷ bs) = b == byte

unfoldable pub parse_literal : Text → JsonValue → Text → Outcome (JsonValue × Text)
unfolding starts_with
parse_literal expected value input =
    if starts_with expected input
    then ok (value, drop (length expected) input)
    else err ParseError.expected_literal

-- The run up to the next quote or backslash, and the input from there on.
unfoldable pub scan_run : Text → Text × Text
scan_run [] = ([], [])
scan_run (b ∷ bs) =
    let (run, rest) = scan_run bs in
    if b == b'"' || b == b'\\' then ([], b ∷ bs) else (b ∷ run, rest)

-- A byte at which a slice of a `&str` cannot begin or end.
abbrev pub is_continuation : ℕ → Bool
is_continuation b = leb 0x80 b && ltb b 0xc0

abbrev pub is_boundary : Text → Bool
is_boundary [] = true
is_boundary (b ∷ bs) = not (is_continuation b)

unfoldable pub hex_digit : ℕ → Option ℕ
hex_digit c =
    if leb b'0' c && leb c b'9'
    then some (c - b'0')
    else if leb b'a' c && leb c b'f'
    then some (c - b'a' + 10)
    else if leb b'A' c && leb c b'F'
    then some (c - b'A' + 10)
    else none

unfoldable pub hex_digits : ℕ → Text → Option ℕ
hex_digits acc [] = some acc
hex_digits acc (c ∷ cs) = elim (hex_digit c) [ none ↦ none | some d ↦ hex_digits (acc * 16 + d) cs ]

-- `u32::from_str_radix(hex, 16)` of four bytes: the library takes a plus sign in front.
unfoldable pub from_str_radix_16 : Text → Option ℕ
from_str_radix_16 [] = none
from_str_radix_16 (c ∷ cs) = if c == b'+' then hex_digits 0 cs else hex_digits 0 (c ∷ cs)

-- The slice of four bytes panics where its end is not a boundary.
unfoldable pub parse_unicode_escape : Text → Outcome (ℕ × Text)
parse_unicode_escape input =
    if ltb (length input) 4
    then err ParseError.incomplete_unicode_escape
    else if not (is_boundary (drop 4 input))
    then panicked
    else do
      cp ← or_err ParseError.invalid_unicode_escape (from_str_radix_16 (take 4 input))
      ok (cp, drop 4 input)

-- `char::from_u32`, and the UTF-8 form that `push` appends
unfoldable pub encode_char : ℕ → Option Text
encode_char cp =
    if ltb cp 0x80
    then some (cp ∷ [])
    else if ltb cp 0x800
    then some ((0xc0 + cp / 64) ∷ (0x80 + cp % 64) ∷ [])
    else if leb 0xd800 cp && leb cp 0xdfff
    then none
    else if ltb cp 0x10000
    then some ((0xe0 + cp / 4096) ∷ (0x80 + cp / 64 % 64) ∷ (0x80 + cp % 64) ∷ [])
    else if ltb cp 0x110000
    then some (
        (0xf0 + cp / 262144)
        ∷ (0x80 + cp / 4096 % 64)
        ∷ (0x80 + cp / 64 % 64)
        ∷ (0x80 + cp % 64)
        ∷ [])
    else none

unfoldable pub pushed_char : ℕ → Text → Outcome (Text × Text)
unfolding encode_char
pushed_char cp rest = do
  bytes ← or_err ParseError.invalid_codepoint (encode_char cp)
  ok (bytes, rest)

-- After `\u`: one escape, or a pair of surrogates.
unfoldable pub unicode_escape : Text → Outcome (Text × Text)
unfolding expect
unicode_escape input = do
  (cp, rest) ← parse_unicode_escape input
  if leb 0xd800 cp && leb cp 0xdbff
      then (do
        after ← expect b'\\' rest
        marked ← expect b'u' after
        (low, rest') ← parse_unicode_escape marked
        if leb 0xdc00 low && leb low 0xdfff
            then pushed_char (0x10000 + (cp - 0xd800) * 1024 + (low - 0xdc00)) rest'
            else err ParseError.invalid_surrogate_pair)
      else pushed_char cp rest

-- After a backslash: the bytes that the escape stands for, and the rest.
unfoldable pub escape : Text → Outcome (Text × Text)
unfolding unicode_escape
escape [] = err ParseError.unterminated_escape
escape (c ∷ rest) =
    if c == b'"' || c == b'\\' || c == b'/'
    then ok (c ∷ [], rest)
    else if c == b'n'
    then ok (10 ∷ [], rest)
    else if c == b'r'
    then ok (13 ∷ [], rest)
    else if c == b't'
    then ok (9 ∷ [], rest)
    else if c == b'b'
    then ok (8 ∷ [], rest)
    else if c == b'f'
    then ok (12 ∷ [], rest)
    else if c == b'u'
    then unicode_escape rest
    else err ParseError.invalid_escape

-- One round of the loop of `parse_string`, on what follows a run: none at the closing quote, or the
-- bytes of an escape.
unfoldable pub string_step : Text → Outcome (Option Text × Text)
unfolding escape
string_step [] = err ParseError.unterminated_string
string_step (b ∷ rest) =
    if b == b'"' then ok (none, rest) else do (bytes, after) ← escape rest; ok (some bytes, after)

unfoldable pub collect :
    (Text → Text → Outcome (Text × Text)) → Text → Option Text × Text → Outcome (Text × Text)
collect again collected (none, after) = ok (collected, after)
collect again collected (some bytes, after) = again (collected ++ bytes) after

-- The loop of `parse_string`, after the opening quote, with what it has collected.
unfoldable pub string_loop : ℕ → Text → Text → Outcome (Text × Text)
unfolding scan_run string_step collect
string_loop zero result input = out_of_fuel
string_loop (suc fuel) result input =
    string_step (scan_run input).1 >>= collect (string_loop fuel) (result ++ (scan_run input).0)

unfoldable pub parse_string : Text → Outcome (Text × Text)
unfolding expect string_loop
parse_string input = do body ← expect b'"' input; string_loop (suc (length body)) [] body

-- `consume_digits`: the digits, one at least, and the rest.
unfoldable pub span_digits : Text → Text × Text
unfolding is_ascii_digit
span_digits [] = ([], [])
span_digits (b ∷ bs) =
    let (ds, rest) = span_digits bs in if is_ascii_digit b then (b ∷ ds, rest) else ([], b ∷ bs)

unfoldable pub some_digit : Text × Text → Outcome (Text × Text)
some_digit ([], rest) = err ParseError.expected_digit
some_digit ((d ∷ ds), rest) = ok (d ∷ ds, rest)

unfoldable pub consume_digits : Text → Outcome (Text × Text)
unfolding span_digits some_digit
consume_digits input = some_digit (span_digits input)
