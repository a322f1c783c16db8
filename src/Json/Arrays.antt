-- ===== src/Json/Arrays.antt =====
-- crates/core/src/json_read.rs: arrays of numbers, written between commas and read back.
use mathlib.Core.List.{append_assoc}
use kronroe.Common.{
  ℕ, zero, suc, ◌*◌, ◌<◌, ◌≡◌, refl, ◌∙◌, ap, true, false, List, [], ◌∷◌, ◌++◌, length, All,
  length-append, ◌==◌, arith,
}
use kronroe.Common.Text.{Text}
use kronroe.Common.Utf8.{is_utf8, utf8_after, announced}
use kronroe.Common.Utf8.Laws.{is_utf8-append, byte_utf8}
use kronroe.Float.Decimal.{is_ascii_digit}
use kronroe.Json.Numbers.{IsNumber, number-Reads, starts}
use kronroe.Json.OneLine.{no_newline, no_newline-append, no_newline_cons}
use kronroe.Json.Objects.{delimited, Reads}
use kronroe.Json.Parse.{
  parse_value, parse_array, parse_elements, parse_separator, value_at, opened, entry_end,
}
use kronroe.Json.Scan.{skip_whitespace, is_space}
use kronroe.Json.{number, array, Elements, nil, push, ok}

-- A number as it is written.
abbrev pub Item : Type 0
Item = Text × ℕ

abbrev pub items_text : Item → List Item → Text
items_text (t, n) [] = t ++ (b']' ∷ [])
items_text (t, n) (f ∷ es) = t ++ (b',' ∷ items_text f es)

abbrev pub array_text : List Item → Text
array_text [] = b'[' ∷ b']' ∷ []
array_text (e ∷ es) = b'[' ∷ items_text e es

abbrev pub pushed : Elements → List Item → Elements
pushed items [] = items
pushed items ((t, n) ∷ es) = pushed (push (number n) items) es

abbrev pub ItemReads : Item → Type 0
ItemReads (t, n) = IsNumber t n

items_read :
    (e : Item) (es : List Item) (items : Elements) (fuel : ℕ) (rest : Text)
    → ItemReads e
    → All ItemReads es
    → 3 * length (items_text e es) < fuel
    → parse_elements fuel items (items_text e es ++ rest) ≡ ok (array (pushed items (e ∷ es)), rest)
unfolding parse_elements parse_separator entry_end skip_whitespace
items_read e es items zero rest r rs h = absurd (omega arith)
items_read (t, n) [] items (suc fuel) rest r rs h =
    let reads = number-Reads t n r in
    ap (λ x. parse_elements (suc fuel) items x) (append_assoc t (b']' ∷ []) rest)
    ∙ rw (reads.apply fuel (b']' ∷ rest) refl (omega (arith, length-append {0} t (b']' ∷ [])))) refl
items_read (t, n) (f ∷ es) items (suc fuel) rest r rs h =
    let reads = number-Reads t n r in
    ap (λ x. parse_elements (suc fuel) items x) (append_assoc t (b',' ∷ items_text f es) rest)
    ∙ rw
        (reads.apply fuel (b',' ∷ (items_text f es ++ rest)) refl
          (omega (arith, length-append {0} t (b',' ∷ items_text f es))))
        (items_read f es (push (number n) items) fuel rest rs.0 rs.1
          (omega (arith, length-append {0} t (b',' ∷ items_text f es))))

-- At the start of an item the array does not end.
opened_item :
    (fuel n : ℕ) (t u : Text)
    → starts t ≡ true
    → opened b']' (array nil) (parse_elements fuel nil) (skip_whitespace (t ++ u))
      ≡ parse_elements fuel nil (t ++ u)
unfolding opened skip_whitespace is_ascii_digit
opened_item fuel n [] u h = absurd (cc h)
opened_item fuel n (c ∷ cs) u h =
    let space : is_space c ≡ false = ground arith in
    let bracket : (c == b']') ≡ false = ground arith in rw (space, bracket) refl

items_start :
    (e : Item) (es : List Item) (fuel : ℕ) (rest : Text)
    → ItemReads e
    → parse_array (suc fuel) (items_text e es ++ rest)
      ≡ parse_elements fuel nil (items_text e es ++ rest)
unfolding parse_array
items_start (t, n) [] fuel rest r =
    rw (append_assoc t (b']' ∷ []) rest) (opened_item fuel n t (b']' ∷ rest) r.start)
items_start (t, n) (f ∷ es) fuel rest r =
    rw (append_assoc t (b',' ∷ items_text f es) rest)
      (opened_item fuel n t (b',' ∷ (items_text f es ++ rest)) r.start)

array_value :
    (fuel : ℕ) (es : List Item) (rest : Text)
    → All ItemReads es
    → 3 * length (array_text es) < suc (suc fuel)
    → parse_value (suc (suc fuel)) (array_text es ++ rest) ≡ ok (array (pushed nil es), rest)
unfolding parse_value value_at parse_array opened skip_whitespace
array_value fuel [] rest rs h = refl
array_value fuel (e ∷ es) rest rs h =
    items_start e es fuel rest rs.0 ∙ items_read e es nil fuel rest rs.0 rs.1 (omega arith)

item_utf8 : (e : Item) → ItemReads e → is_utf8 (e.0) ≡ true
item_utf8 e r = r.utf8

items_utf8 :
    (e : Item) (es : List Item) → ItemReads e → All ItemReads es → is_utf8 (items_text e es) ≡ true
unfolding is_utf8 utf8_after announced
items_utf8 e [] r rs = is_utf8-append (e.0) (b']' ∷ []) (item_utf8 e r) refl
items_utf8 e (f ∷ es) r rs =
    is_utf8-append (e.0) (b',' ∷ items_text f es) (item_utf8 e r)
      (byte_utf8 b',' (items_text f es) (omega arith) (items_utf8 f es rs.0 rs.1))

array_utf8 : (es : List Item) → All ItemReads es → is_utf8 (array_text es) ≡ true
unfolding is_utf8 utf8_after announced
array_utf8 [] rs = refl
array_utf8 (e ∷ es) rs = byte_utf8 b'[' (items_text e es) (omega arith) (items_utf8 e es rs.0 rs.1)

items_line :
    (e : Item) (es : List Item)
    → ItemReads e
    → All ItemReads es
    → no_newline (items_text e es) ≡ true
items_line (t, n) [] r rs = no_newline-append t (b']' ∷ []) r.one_line refl
items_line (t, n) (f ∷ es) r rs =
    no_newline-append t (b',' ∷ items_text f es) r.one_line
      (no_newline_cons b',' (items_text f es) refl (items_line f es rs.0 rs.1))

array_line : (es : List Item) → All ItemReads es → no_newline (array_text es) ≡ true
array_line [] rs = refl
array_line (e ∷ es) rs = no_newline_cons b'[' (items_text e es) refl (items_line e es rs.0 rs.1)

-- An array of numbers, in the order in which it is written.
pub array-Reads :
    (es : List Item) → All ItemReads es → Reads (array_text es) (array (pushed nil es))
array-Reads es rs = record { utf8 = array_utf8 es rs; one_line = array_line es rs; apply = at_fuel }
  where
    at_fuel :
        (fuel : ℕ) (rest : Text)
        → delimited rest ≡ true
        → 3 * length (array_text es) < fuel
        → parse_value fuel (array_text es ++ rest) ≡ ok (array (pushed nil es), rest)
    at_fuel zero rest d h = absurd (omega arith)
    at_fuel (suc zero) rest d h = absurd (at_least es (omega arith))
      where
        at_least : (es : List Item) → length (array_text es) ≡ 0 → ⊥
        at_least [] e = absurd (omega arith)
        at_least (e ∷ es) h = absurd (omega arith)
    at_fuel (suc (suc fuel)) rest d h = array_value fuel es rest rs h
