-- ===== src/Json/Parse/Leaves.antt =====
-- crates/core/src/json_read.rs: what the parsers of scalars leave of a text.
use kronroe.Common.{ℕ, suc, ◌≤◌, ◌||◌, true, false, [], ◌∷◌, ◌++◌, length, drop, ◌==◌, arith}
use kronroe.Common.Text.{Text, starts_with}
use kronroe.Float.Decimal.{is_ascii_digit, f64_of_text}
use kronroe.Json.Scan.{parse_literal, parse_string}
use kronroe.Json.Parse.{
  int_part, signed_part, fraction_part, exponent_digits, exponent_part, number_of, parse_number,
  parse_scalar,
}
use kronroe.Json.{ParseError, JsonValue, ParseError, Outcome, ok, ◌>>=◌}
use kronroe.Json.Scan.Bounds.{
  left, failed, Leaves, Leaves-bind, Leaves-if, drop_le, or_err-bind, parse_string-Leaves,
  consume_digits-Leaves,
}

int_part-Leaves : (n : ℕ) (t : Text) → length t ≤ suc n → Leaves n (int_part t)
unfolding int_part
int_part-Leaves n [] h = consume_digits-Leaves n [] h
int_part-Leaves n (b ∷ bs) h =
    Leaves-if n (b == b'0') _ _ (left (b ∷ []) bs (omega arith))
      (consume_digits-Leaves n (b ∷ bs) h)

-- A byte in front of a part.
prefixed-Leaves :
    (b n : ℕ) (m : Outcome (Text × Text))
    → Leaves n m
    → Leaves n (m >>= λ (digits, rest). ok (b ∷ digits, rest))
prefixed-Leaves b n m h = Leaves-bind n n m _ h (λ digits rest le. left (b ∷ digits) rest le)

signed_part-Leaves : (n : ℕ) (t : Text) → length t ≤ suc n → Leaves n (signed_part t)
unfolding signed_part
signed_part-Leaves n [] h = int_part-Leaves n [] h
signed_part-Leaves n (b ∷ bs) h =
    Leaves-if n (b == b'-') _ _ (prefixed-Leaves b n _ (int_part-Leaves n bs (omega arith)))
      (int_part-Leaves n (b ∷ bs) h)

fraction_part-Leaves : (n : ℕ) (t : Text) → length t ≤ n → Leaves n (fraction_part t)
unfolding fraction_part
fraction_part-Leaves n [] h = left [] [] h
fraction_part-Leaves n (b ∷ bs) h =
    Leaves-if n (b == b'.') _ _ (prefixed-Leaves b n _ (consume_digits-Leaves n bs (omega arith)))
      (left [] (b ∷ bs) h)

exponent_digits-Leaves : (n : ℕ) (t : Text) → length t ≤ n → Leaves n (exponent_digits t)
unfolding exponent_digits
exponent_digits-Leaves n [] h = consume_digits-Leaves n [] (omega arith)
exponent_digits-Leaves n (b ∷ bs) h =
    Leaves-if n _ _ _ (prefixed-Leaves b n _ (consume_digits-Leaves n bs (omega arith)))
      (consume_digits-Leaves n (b ∷ bs) (omega arith))

exponent_part-Leaves : (n : ℕ) (t : Text) → length t ≤ n → Leaves n (exponent_part t)
unfolding exponent_part
exponent_part-Leaves n [] h = left [] [] h
exponent_part-Leaves n (b ∷ bs) h =
    Leaves-if n (b == b'e' || b == b'E') _ (ok ([], b ∷ bs))
      (prefixed-Leaves b n _ (exponent_digits-Leaves n bs (omega arith))) (left [] (b ∷ bs) h)

number_of-Leaves : (n : ℕ) (s t : Text) → length t ≤ n → Leaves n (number_of s t)
unfolding number_of
number_of-Leaves n s t h =
    or_err-bind n ParseError.invalid_number (f64_of_text s) (λ v. ok (JsonValue.number v, t))
      (λ v. left (JsonValue.number v) t h)

parse_number-Leaves : (n : ℕ) (t : Text) → length t ≤ suc n → Leaves n (parse_number t)
unfolding parse_number
parse_number-Leaves n t h =
    Leaves-bind n n (signed_part t) _ (signed_part-Leaves n t h) λ int r1 h1.
      Leaves-bind n n (fraction_part r1) _ (fraction_part-Leaves n r1 h1) λ fraction r2 h2.
        Leaves-bind n n (exponent_part r2) _ (exponent_part-Leaves n r2 h2)
          λ exponent r3 h3. number_of-Leaves n (int ++ (fraction ++ exponent)) r3 h3

-- A literal takes one byte at least.
parse_literal-Leaves :
    (n e : ℕ) (es : Text) (v : JsonValue) (t : Text)
    → length t ≤ suc n
    → Leaves n (parse_literal (e ∷ es) v t)
unfolding parse_literal starts_with
parse_literal-Leaves n e es v [] h = failed _
parse_literal-Leaves n e es v (b ∷ bs) h =
    Leaves-if n (starts_with (e ∷ es) (b ∷ bs)) _ _
      (left v (drop (length es) bs) (omega (arith, drop_le (length es) bs))) (failed _)

pub parse_scalar-Leaves : (n : ℕ) (t : Text) → length t ≤ suc n → Leaves n (parse_scalar t)
unfolding parse_scalar
parse_scalar-Leaves n [] h = failed _
parse_scalar-Leaves n (c ∷ cs) h =
    Leaves-if n (c == b'"') _ _
      (Leaves-bind n n (parse_string (c ∷ cs)) _ (parse_string-Leaves n (c ∷ cs) h)
        (λ s rest le. left (JsonValue.str s) rest le))
      (Leaves-if n (c == b't') _ _
        (parse_literal-Leaves n _
          (Prim.Native.Char.code "r" ∷ Prim.Native.Char.code "u" ∷ Prim.Native.Char.code "e" ∷ [])
          (JsonValue.boolean true) (c ∷ cs) h)
        (Leaves-if n (c == b'f') _ _
          (parse_literal-Leaves n (Prim.Native.Char.code "f")
            (Prim.Native.Char.code "a"
              ∷ Prim.Native.Char.code "l"
              ∷ Prim.Native.Char.code "s"
              ∷ Prim.Native.Char.code "e"
              ∷ [])
            (JsonValue.boolean false) (c ∷ cs) h)
          (Leaves-if n (c == b'n') _ _
            (parse_literal-Leaves n (Prim.Native.Char.code "n")
              (Prim.Native.Char.code "u"
                ∷ Prim.Native.Char.code "l"
                ∷ Prim.Native.Char.code "l"
                ∷ [])
              JsonValue.null (c ∷ cs) h)
            (Leaves-if n (c == b'-' || is_ascii_digit c) _ _ (parse_number-Leaves n (c ∷ cs) h)
              (failed ParseError.unexpected_character)))))
