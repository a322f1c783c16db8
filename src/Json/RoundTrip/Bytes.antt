-- ===== src/Json/RoundTrip/Bytes.antt =====
-- crates/core/src/json_read.rs and json_write.rs: one byte of a string, written and read back.
use mathlib.Core.List.{append-nil, append_assoc}
use kronroe.Common.{
  ℕ, suc, ◌+◌, ◌*◌, ◌/◌, ◌%◌, ◌≤◌, ◌<◌, ◌≡◌, refl, true, false, ◌||◌, some, [], ◌∷◌, ◌++◌, inl, inr,
  length, ltb, leb, ◌==◌, arith, ltb→lt, ==_iff, Bool-cases,
}
use kronroe.Common.Text.{Text}
use kronroe.Json.Scan.{
  scan_run, string_step, string_loop, collect, escape, unicode_escape, parse_unicode_escape,
  pushed_char, encode_char, hex_digit, hex_digits, from_str_radix_16, is_boundary,
}
use kronroe.Json.Write.{hex_char, write_byte}
use kronroe.Json.{ok}

-- A plain byte goes into the run.
loop-plain :
    (fuel : ℕ) (acc : Text) (b : ℕ) (t : Text)
    → (b == b'"' || b == b'\\') ≡ false
    → string_loop (suc fuel) acc (b ∷ t) ≡ string_loop (suc fuel) (acc ++ (b ∷ [])) t
unfolding string_loop scan_run
loop-plain fuel acc b t h = rw (h, append_assoc) refl

-- An escape ends the run.
loop-escape :
    (fuel : ℕ) (acc : Text) (t bytes after : Text)
    → escape t ≡ ok (bytes, after)
    → string_loop (suc fuel) acc (b'\\' ∷ t) ≡ string_loop fuel (acc ++ bytes) after
unfolding string_loop scan_run string_step collect
loop-escape fuel acc t bytes after h = rw (h, append-nil) refl

pub loop-quote : (fuel : ℕ) (acc t : Text) → string_loop (suc fuel) acc (b'"' ∷ t) ≡ ok (acc, t)
unfolding string_loop scan_run string_step collect
loop-quote fuel acc t = rw append-nil refl

hex_digit-hex_char : (d : ℕ) → d < 16 → hex_digit (hex_char d) ≡ some d
unfolding hex_digit hex_char
hex_digit-hex_char d h = ground arith

zero_digit : hex_digit b'0' ≡ some 0
unfolding hex_digit
zero_digit = refl

radix-hex_char :
    (x y : ℕ)
    → x < 16
    → y < 16
    → from_str_radix_16 (b'0' ∷ b'0' ∷ hex_char x ∷ hex_char y ∷ []) ≡ some (x * 16 + y)
unfolding from_str_radix_16 hex_digits
radix-hex_char x y hx hy =
    ground (arith, zero_digit, hex_digit-hex_char x hx, hex_digit-hex_char y hy)

-- The digits of a control character.
parse_control :
    (b : ℕ) (t : Text)
    → b < 0x20
    → is_boundary t ≡ true
    → parse_unicode_escape (b'0' ∷ b'0' ∷ hex_char (b / 16) ∷ hex_char (b % 16) ∷ t) ≡ ok (b, t)
unfolding parse_unicode_escape
parse_control b t lt bd =
    let whole : b / 16 * 16 + b % 16 ≡ b = omega arith in
    let long : ltb (suc (suc (suc (suc (length t))))) 4 ≡ false = ground arith in
    rw (long, bd, radix-hex_char (b / 16) (b % 16) (omega arith) (omega arith), whole) refl

pushed_ascii : (b : ℕ) (t : Text) → b < 0x80 → pushed_char b t ≡ ok (b ∷ [], t)
unfolding pushed_char encode_char
pushed_ascii b t h = ground arith

-- The escape of a control character.
pub escape_control :
    (b : ℕ) (t : Text)
    → b < 0x20
    → is_boundary t ≡ true
    → escape (b'u' ∷ b'0' ∷ b'0' ∷ hex_char (b / 16) ∷ hex_char (b % 16) ∷ t) ≡ ok (b ∷ [], t)
unfolding escape unicode_escape
escape_control b t lt bd =
    let plain : leb 0xd800 b ≡ false = ground arith in
    rw (parse_control b t lt bd, plain, pushed_ascii b t (omega arith)) refl

-- What a step of the loop gives: the byte is collected, with the fuel or one unit less.
abbrev pub Collects : ℕ → Text → ℕ → Text → Text → Type 0
Collects f acc b written t =
    (g : ℕ) × (f ≤ g) × (string_loop (suc f) acc (written ++ t) ≡ string_loop g (acc ++ (b ∷ [])) t)

pub loop-write_byte :
    (f : ℕ) (acc : Text) (b : ℕ) (t : Text)
    → (b < 0x20 → is_boundary t ≡ true)
    → Collects f acc b (write_byte b) t
unfolding write_byte escape
loop-write_byte f acc b t bd = elim (Bool-cases (b == b'"')) [
  | inl e ↦
      rw ((==_iff b b'"').0 e) (f, omega arith, loop-escape f acc (b'"' ∷ t) (b'"' ∷ []) t refl)
  | inr n1 ↦ elim (Bool-cases (b == b'\\')) [
    | inl e ↦
        rw ((==_iff b b'\\').0 e)
          (f, omega arith, loop-escape f acc (b'\\' ∷ t) (b'\\' ∷ []) t refl)
    | inr n2 ↦ elim (Bool-cases (b == 10)) [
      | inl e ↦
          rw ((==_iff b 10).0 e) (f, omega arith, loop-escape f acc (b'n' ∷ t) (10 ∷ []) t refl)
      | inr n3 ↦ elim (Bool-cases (b == 13)) [
        | inl e ↦
            rw ((==_iff b 13).0 e) (f, omega arith, loop-escape f acc (b'r' ∷ t) (13 ∷ []) t refl)
        | inr n4 ↦ elim (Bool-cases (b == 9)) [
          | inl e ↦
              rw ((==_iff b 9).0 e) (f, omega arith, loop-escape f acc (b't' ∷ t) (9 ∷ []) t refl)
          | inr n5 ↦ elim (Bool-cases (ltb b 0x20)) [
            | inl c ↦
                rw (n1, n2, n3, n4, n5, c)
                  (
                    f,
                    omega arith,
                    loop-escape f acc _ (b ∷ []) t
                        (escape_control b t (ltb→lt b 0x20 c) (bd (ltb→lt b 0x20 c))),
                  )
            | inr p ↦
                rw (n1, n2, n3, n4, n5, p)
                  (suc f, omega arith, loop-plain f acc b t (rw (n1, n2) refl))
          ]
        ]
      ]
    ]
  ]
]
