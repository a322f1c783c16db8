-- ===== src/Json/Numbers.antt =====
-- crates/core/src/json_read.rs: a number inside of other text ends at the delimiter behind it.
use kronroe.Common.{
  ℕ, zero, suc, ◌*◌, ◌<◌, ◌≡◌, refl, ◌∙◌, ap, Bool, true, false, ◌||◌, some, none, Option, [], ◌∷◌,
  ◌++◌, length, ◌==◌, arith, Bool-cases, inl, inr, if◌then◌else◌,
}
use kronroe.Common.Text.{Text}
use kronroe.Common.Utf8.{is_utf8}
use kronroe.Float.Decimal.{is_ascii_digit, f64_of_text}
use kronroe.Json.OneLine.{no_newline}
use kronroe.Json.Objects.{delimited, Reads}
use kronroe.Json.Parse.{
  int_part, signed_part, fraction_part, exponent_digits, exponent_part, number_of, parse_number,
  parse_scalar, value_at, parse_value,
}
use kronroe.Json.Scan.{is_space, skip_whitespace, span_digits, some_digit, consume_digits}
use kronroe.Json.{number, ParseError, Outcome, ok, err, panicked, out_of_fuel, ◌>>=◌, or_err}

-- The same result, with more behind what is left.
grow : {A : Type 0} → Outcome (A × Text) → Text → Outcome (A × Text)
grow (ok (a, r)) rest = ok (a, r ++ rest)
grow (err e) rest = err e
grow panicked rest = panicked
grow out_of_fuel rest = out_of_fuel

grow-bind :
    {A B : Type 0} (rest : Text) (m : Outcome (A × Text)) (f g : A × Text → Outcome (B × Text))
    → ((a : A) (r : Text) → g (a, r ++ rest) ≡ grow (f (a, r)) rest)
    → (grow m rest >>= g) ≡ grow (m >>= f) rest
unfolding grow
grow-bind rest (ok (a, r)) f g h = h a r
grow-bind rest (err e) f g h = refl
grow-bind rest panicked f g h = refl
grow-bind rest out_of_fuel f g h = refl

then_grows :
    {A B : Type 0} (rest : Text) (m m' : Outcome (A × Text)) (f g : A × Text → Outcome (B × Text))
    → m' ≡ grow m rest
    → ((a : A) (r : Text) → g (a, r ++ rest) ≡ grow (f (a, r)) rest)
    → (m' >>= g) ≡ grow (m >>= f) rest
then_grows rest m m' f g e h = ap (λ x. x >>= g) e ∙ grow-bind rest m f g h

grow-if :
    {A : Type 0} (rest : Text) (b : Bool) (x y x' y' : Outcome (A × Text))
    → x' ≡ grow x rest
    → y' ≡ grow y rest
    → (if b then x' else y') ≡ grow (if b then x else y) rest
grow-if rest true x y x' y' h g = h
grow-if rest false x y x' y' h g = g

-- What the parts of a number do at a delimiter.
record Stops (r : Text) : Type 0 where
  span : span_digits r ≡ ([], r)
  int : int_part r ≡ consume_digits r
  signed : signed_part r ≡ consume_digits r
  fraction : fraction_part r ≡ ok ([], r)
  exponent_sign : exponent_digits r ≡ consume_digits r
  exponent : exponent_part r ≡ ok ([], r)

delimited-Stops : (r : Text) → delimited r ≡ true → Stops r
unfolding span_digits int_part signed_part fraction_part exponent_digits exponent_part
    is_ascii_digit
delimited-Stops [] h = record {
  span = refl;
  int = refl;
  signed = refl;
  fraction = refl;
  exponent_sign = refl;
  exponent = refl;
}
delimited-Stops (c ∷ cs) h = record {
  span = ground arith;
  int = ground arith;
  signed = ground arith;
  fraction = ground arith;
  exponent_sign = ground arith;
  exponent = ground arith;
}

module _ (rest : Text) (stops : Stops rest) where
  span_grows : (t : Text) → span_digits (t ++ rest) ≡ ((span_digits t).0, (span_digits t).1 ++ rest)
  unfolding span_digits
  span_grows [] = stops.span
  span_grows (c ∷ cs) = elim (Bool-cases (is_ascii_digit c)) [
    | inl e ↦ rw (e, span_grows cs) refl
    | inr e ↦ rw e refl
  ]

  some_digit_grows : (ds r : Text) → some_digit (ds, r ++ rest) ≡ grow (some_digit (ds, r)) rest
  unfolding some_digit grow
  some_digit_grows [] r = refl
  some_digit_grows (c ∷ cs) r = refl

  digits_grow : (t : Text) → consume_digits (t ++ rest) ≡ grow (consume_digits t) rest
  unfolding consume_digits
  digits_grow t =
      ap some_digit (span_grows t) ∙ some_digit_grows (span_digits t).0 (span_digits t).1

  int_grows : (t : Text) → int_part (t ++ rest) ≡ grow (int_part t) rest
  unfolding int_part grow
  int_grows [] = stops.int ∙ digits_grow []
  int_grows (c ∷ cs) = grow-if rest (c == b'0') _ _ _ _ refl (digits_grow (c ∷ cs))

  -- A byte in front of a part.
  prefixed_grows :
      (c : ℕ) (m m' : Outcome (Text × Text))
      → m' ≡ grow m rest
      → (m' >>= λ (p : Text × Text). ok (c ∷ p.0, p.1))
        ≡ grow (m >>= λ (p : Text × Text). ok (c ∷ p.0, p.1)) rest
  unfolding grow
  prefixed_grows c m m' e =
      ap (λ x. x >>= λ (p : Text × Text). ok (c ∷ p.0, p.1)) e ∙ grow-bind rest m _ _ (λ a r. refl)

  signed_grows : (t : Text) → signed_part (t ++ rest) ≡ grow (signed_part t) rest
  unfolding signed_part int_part
  signed_grows [] = stops.signed ∙ digits_grow []
  signed_grows (c ∷ cs) =
      grow-if rest (c == b'-') _ _ _ _ (prefixed_grows c (int_part cs) _ (int_grows cs))
        (int_grows (c ∷ cs))

  fraction_grows : (t : Text) → fraction_part (t ++ rest) ≡ grow (fraction_part t) rest
  unfolding fraction_part grow
  fraction_grows [] = stops.fraction
  fraction_grows (c ∷ cs) =
      grow-if rest (c == b'.') _ _ _ _ (prefixed_grows c (consume_digits cs) _ (digits_grow cs))
        refl

  exponent_digits-grow : (t : Text) → exponent_digits (t ++ rest) ≡ grow (exponent_digits t) rest
  unfolding exponent_digits
  exponent_digits-grow [] = stops.exponent_sign ∙ digits_grow []
  exponent_digits-grow (c ∷ cs) =
      grow-if rest (c == b'+' || c == b'-') _ _ _ _
        (prefixed_grows c (consume_digits cs) _ (digits_grow cs)) (digits_grow (c ∷ cs))

  exponent_grows : (t : Text) → exponent_part (t ++ rest) ≡ grow (exponent_part t) rest
  unfolding exponent_part grow
  exponent_grows [] = stops.exponent
  exponent_grows (c ∷ cs) =
      grow-if rest (c == b'e' || c == b'E') _ _ _ _
        (prefixed_grows c (exponent_digits cs) _ (exponent_digits-grow cs)) refl

  number_of_grows : (s t : Text) → number_of s (t ++ rest) ≡ grow (number_of s t) rest
  unfolding number_of grow
  number_of_grows s t = at_value (f64_of_text s)
    where
      at_value :
          (o : Option ℕ)
          → (or_err ParseError.invalid_number o >>= λ (n : ℕ). ok (number n, t ++ rest))
            ≡ grow (or_err ParseError.invalid_number o >>= λ (n : ℕ). ok (number n, t)) rest
      at_value none = refl
      at_value (some n) = refl

  number_grows : (t : Text) → parse_number (t ++ rest) ≡ grow (parse_number t) rest
  unfolding parse_number
  number_grows t = then_grows rest (signed_part t) _ _ _ (signed_grows t) λ int r1.
      then_grows rest (fraction_part r1) _ _ _ (fraction_grows r1) λ fraction r2.
        then_grows rest (exponent_part r2) _ _ _ (exponent_grows r2)
          λ exponent r3. number_of_grows (int ++ (fraction ++ exponent)) r3

-- The text of a number begins with a digit or a minus sign.
abbrev pub starts : Text → Bool
starts [] = false
starts (c ∷ cs) = c == b'-' || is_ascii_digit c

-- A text that is a number, whole, on one line.
pub record IsNumber (t : Text) (n : ℕ) : Type 0 where
  pub start : starts t ≡ true
  pub utf8 : is_utf8 t ≡ true
  pub one_line : no_newline t ≡ true
  pub whole : parse_number t ≡ ok (number n, [])

-- The first byte of a number is none of those that begin another value.
record FirstByte (c : ℕ) : Type 0 where
  space : is_space c ≡ false
  brace : (c == b'{') ≡ false
  bracket : (c == b'[') ≡ false
  quote : (c == b'"') ≡ false
  t : (c == b't') ≡ false
  f : (c == b'f') ≡ false
  n : (c == b'n') ≡ false

first_byte : (c : ℕ) → (c == b'-' || is_ascii_digit c) ≡ true → FirstByte c
unfolding is_ascii_digit
first_byte c h = record {
  space = ground arith;
  brace = ground arith;
  bracket = ground arith;
  quote = ground arith;
  t = ground arith;
  f = ground arith;
  n = ground arith;
}

-- At such a byte the value is a number.
value_is_number :
    (fuel c : ℕ) (cs : Text)
    → (c == b'-' || is_ascii_digit c) ≡ true
    → parse_value (suc fuel) (c ∷ cs) ≡ parse_number (c ∷ cs)
unfolding parse_value value_at parse_scalar skip_whitespace
value_is_number fuel c cs h =
    let b = first_byte c h in rw (b.space, b.brace, b.bracket, b.quote, b.t, b.f, b.n, h) refl

number_value :
    (fuel n : ℕ) (t rest : Text)
    → IsNumber t n
    → delimited rest ≡ true
    → parse_value (suc fuel) (t ++ rest) ≡ ok (number n, rest)
unfolding grow
number_value fuel n [] rest h d = absurd (cc h.start)
number_value fuel n (c ∷ cs) rest h d =
    value_is_number fuel c (cs ++ rest) h.start
    ∙ number_grows rest (delimited-Stops rest d) (c ∷ cs)
    ∙ ap (λ m. grow m rest) h.whole

pub number-Reads : (t : Text) (n : ℕ) → IsNumber t n → Reads t (number n)
number-Reads t n h = record { utf8 = h.utf8; one_line = h.one_line; apply = at_fuel }
  where
    at_fuel :
        (fuel : ℕ) (rest : Text)
        → delimited rest ≡ true
        → 3 * length t < fuel
        → parse_value fuel (t ++ rest) ≡ ok (number n, rest)
    at_fuel zero rest d g = absurd (omega arith)
    at_fuel (suc fuel) rest d g = number_value fuel n t rest h d
