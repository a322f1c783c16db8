-- ===== src/Json/Write.antt =====
-- crates/core/src/json_write.rs: each function gives the bytes that it writes. A writer that fails
-- is I/O. The decimal form of a float that is no integer is the library's (Float/Display.antt).
use kronroe.Common.{
  ℕ, ◌+◌, ◌^◌, ◌&&◌, ◌-◌, ◌/◌, ◌%◌, Bool, Option, none, some, [], ◌∷◌, ◌++◌, ltb, ◌==◌,
  if◌then◌else◌,
}
use kronroe.Float.{is_finite, is_negative, units}
use kronroe.Float.Display.{Printed, printed_f64, printed_f32, display}
use kronroe.Common.Decimal.{decimal_text}
use kronroe.Common.Text.{Text, codes}

-- `{:x}` of one digit
unfoldable pub hex_char : ℕ → ℕ
hex_char d = if ltb d 10 then b'0' + d else b'a' + (d - 10)

-- One byte of a string.
unfoldable pub write_byte : ℕ → Text
unfolding hex_char
write_byte byte =
    if byte == b'"'
    then b'\\' ∷ b'"' ∷ []
    else if byte == b'\\'
    then b'\\' ∷ b'\\' ∷ []
    else if byte == 10
    then b'\\' ∷ b'n' ∷ []
    else if byte == 13
    then b'\\' ∷ b'r' ∷ []
    else if byte == 9
    then b'\\' ∷ b't' ∷ []
    else if ltb byte 0x20
    then b'\\' ∷ b'u' ∷ b'0' ∷ b'0' ∷ hex_char (byte / 16) ∷ hex_char (byte % 16) ∷ []
    else byte ∷ []

-- The loop of `write_string`, and what is written after it.
unfoldable pub write_bytes : Text → Text → Text
unfolding write_byte
write_bytes [] rest = rest
write_bytes (b ∷ bs) rest = write_byte b ++ write_bytes bs rest

unfoldable pub write_string : Text → Text
unfolding write_bytes
write_string s = b'"' ∷ write_bytes s (b'"' ∷ [])

unfoldable pub write_null : Text
write_null = codes "null"

unfoldable pub write_bool : Bool → Text
write_bool b = if b then codes "true" else codes "false"

unfoldable pub write_kv_string : Text → Text → Text
unfolding write_string
write_kv_string key value = write_string key ++ (b':' ∷ write_string value)

unfoldable pub write_kv_bool : Text → Bool → Text
unfolding write_string write_bool
write_kv_bool key value = write_string key ++ (b':' ∷ write_bool value)

unfoldable pub write_kv_option_string : Text → Option Text → Text
unfolding write_string write_null
write_kv_option_string key (some s) = write_string key ++ (b':' ∷ write_string s)
write_kv_option_string key none = write_string key ++ (b':' ∷ write_null)

-- A number that is whole and below `2 ^ exact` in magnitude is printed as an integer.
write_number : Printed → ℕ → ℕ → Text
unfolding is_finite is_negative units decimal_text
write_number p exact n =
    let unit = 2 ^ p.unit_exponent in
    let whole = units p.format n / unit in
    if is_finite p.format n && (units p.format n % unit == 0) && ltb whole (2 ^ exact)
    then (if is_negative p.format n && ltb 0 whole
        then b'-' ∷ decimal_text 20 whole
        else decimal_text 20 whole)
    else display p n

unfoldable pub write_f64 : ℕ → Text
unfolding write_number
write_f64 n = write_number printed_f64 53 n

unfoldable pub write_f32 : ℕ → Text
unfolding write_number
write_f32 n = write_number printed_f32 24 n

unfoldable pub write_kv_f64 : Text → ℕ → Text
write_kv_f64 key value = write_string key ++ (b':' ∷ write_f64 value)

unfoldable pub write_kv_f32 : Text → ℕ → Text
write_kv_f32 key value = write_string key ++ (b':' ∷ write_f32 value)

unfoldable pub write_kv_u64 : Text → ℕ → Text
unfolding decimal_text
write_kv_u64 key value = write_string key ++ (b':' ∷ decimal_text 20 value)
