-- ===== src/Json/Parse/Panics.antt =====
-- crates/core/src/json_read.rs: `parse_unicode_escape` on a character that is cut in two.
use kronroe.Common.{ℕ, ◌≡◌, refl, true, false, ◌∷◌, length, ltb, arith}
use kronroe.Common.Text.{Text}
use kronroe.Common.Utf8.{is_utf8}
use kronroe.Json.{panicked}
use kronroe.Json.Parse.{parse, parse_value, value_at, parse_scalar}
use kronroe.Json.Scan.{
  is_boundary, parse_unicode_escape, unicode_escape, escape, string_step, string_loop, parse_string,
  scan_run, skip_whitespace, expect,
}

escape_panics :
    (a b c d : ℕ) (rest : Text)
    → is_boundary rest ≡ false
    → parse_unicode_escape (a ∷ b ∷ c ∷ d ∷ rest) ≡ panicked
unfolding parse_unicode_escape
escape_panics a b c d rest h =
    let long : ltb (length (a ∷ b ∷ c ∷ d ∷ rest)) 4 ≡ false = ground arith in rw (long, h) refl

string_panics :
    (a b c d : ℕ) (rest : Text)
    → is_boundary rest ≡ false
    → parse_string (b'"' ∷ b'\\' ∷ b'u' ∷ a ∷ b ∷ c ∷ d ∷ rest) ≡ panicked
unfolding parse_string string_loop string_step escape unicode_escape scan_run expect
string_panics a b c d rest h = rw (escape_panics a b c d rest h) refl

-- Parsing a UTF-8 text that is a quote, \u and four bytes panics if the fourth byte is inside of
-- a character that goes on behind it.
pub parse_unicode_escape_panics :
    (a b c d : ℕ) (rest : Text)
    → is_utf8 (b'"' ∷ b'\\' ∷ b'u' ∷ a ∷ b ∷ c ∷ d ∷ rest) ≡ true
    → is_boundary rest ≡ false
    → parse (b'"' ∷ b'\\' ∷ b'u' ∷ a ∷ b ∷ c ∷ d ∷ rest) ≡ panicked
unfolding parse parse_value value_at parse_scalar skip_whitespace
parse_unicode_escape_panics a b c d rest u h = rw (u, string_panics a b c d rest h) refl
