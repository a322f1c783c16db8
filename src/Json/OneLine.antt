-- ===== src/Json/OneLine.antt =====
-- crates/core/src/json_write.rs: what is written holds no newline.
use kronroe.Common.{
  ℕ, ◌≡◌, refl, Bool, true, false, not, ◌&&◌, ◌/◌, ◌%◌, [], ◌∷◌, ◌++◌, ltb, ◌==◌, if◌then◌else◌,
  arith, Bool-cases, inl, inr,
}
use kronroe.Common.Text.{Text}
use kronroe.Json.Write.{write_byte, write_bytes, write_string, hex_char}

abbrev pub no_newline : Text → Bool
no_newline [] = true
no_newline (c ∷ cs) = not (c == 10) && no_newline cs

pub no_newline-append :
    (s t : Text) → no_newline s ≡ true → no_newline t ≡ true → no_newline (s ++ t) ≡ true
no_newline-append [] t h g = g
no_newline-append (c ∷ cs) t h g =
    let e : (c == 10) ≡ false = ground arith in rw (e, no_newline-append cs t (ground arith) g) refl

-- One byte in front.
pub no_newline_cons :
    (c : ℕ) (t : Text) → (c == 10) ≡ false → no_newline t ≡ true → no_newline (c ∷ t) ≡ true
no_newline_cons c t e h = rw (e, h) refl

either :
    (b : Bool) (s t : Text)
    → no_newline s ≡ true
    → no_newline t ≡ true
    → no_newline (if b then s else t) ≡ true
either true s t h g = h
either false s t h g = g

hex : (d : ℕ) → (hex_char d == 10) ≡ false
unfolding hex_char
hex d = ground arith

escaped :
    (b : ℕ)
    → no_newline (b'\\' ∷ b'u' ∷ b'0' ∷ b'0' ∷ hex_char (b / 16) ∷ hex_char (b % 16) ∷ []) ≡ true
escaped b = rw (hex (b / 16), hex (b % 16)) refl

-- A byte that is no newline.
other_byte : (b : ℕ) → (b == 10) ≡ false → no_newline (write_byte b) ≡ true
unfolding write_byte
other_byte b e = either (b == b'"') _ _ refl (
    either (b == b'\\') _ _ refl (
      either (b == 10) _ _ refl (
        either (b == 13) _ _ refl (
          either (b == 9) _ _ refl
            (either (ltb b 0x20) _ _ (escaped b) (no_newline_cons b [] e refl))))))

newline_byte : (b : ℕ) → (b == 10) ≡ true → no_newline (write_byte b) ≡ true
unfolding write_byte
newline_byte b e =
    let quote : (b == b'"') ≡ false = ground arith in
    let backslash : (b == b'\\') ≡ false = ground arith in rw (quote, backslash, e) refl

no_newline-write_byte : (b : ℕ) → no_newline (write_byte b) ≡ true
no_newline-write_byte b = elim (Bool-cases (b == 10)) [
  | inl e ↦ newline_byte b e
  | inr e ↦ other_byte b e
]

no_newline-write_bytes :
    (s rest : Text) → no_newline rest ≡ true → no_newline (write_bytes s rest) ≡ true
unfolding write_bytes
no_newline-write_bytes [] rest h = h
no_newline-write_bytes (b ∷ bs) rest h =
    no_newline-append (write_byte b) (write_bytes bs rest) (no_newline-write_byte b)
      (no_newline-write_bytes bs rest h)

pub no_newline-write_string : (s : Text) → no_newline (write_string s) ≡ true
unfolding write_string
no_newline-write_string s = no_newline-write_bytes s (b'"' ∷ []) refl
