-- ===== src/Json.antt =====
-- crates/core/src/json_read.rs: the JSON values, their accessors, and the errors of the parser. The
-- reader is below.
pub mod Scan
pub mod Parse
pub mod Write
pub mod RoundTrip
pub mod OneLine
pub mod Decoded
pub mod Reads
pub mod Objects
pub mod Numbers
pub mod Arrays
use kronroe.Common.{
  ℕ, suc, ◌+◌, Bool, true, false, Option, none, some, List, [], ◌∷◌, if◌then◌else◌, is_some,
}
use kronroe.Common.Text.{Text, text_eq, text_lt}
use kronroe.Float.Decimal.{is_whole, u64_of_f64, f32_of_f64}
use mathlib.Core.Option

-- A number is the bit pattern of its `f64`. The members of an object ascend by key, as in the
-- `BTreeMap` of the source.
mutual
  pub data JsonValue : Type 0 where
    null : JsonValue
    boolean : Bool → JsonValue
    number : ℕ → JsonValue
    str : Text → JsonValue
    array : Elements → JsonValue
    object : Members → JsonValue

  pub data Elements : Type 0 where
    nil : Elements
    cons : JsonValue → Elements → Elements

  pub data Members : Type 0 where
    empty : Members
    member : Text → JsonValue → Members → Members

-- `items.push(value)`
unfoldable pub push : JsonValue → Elements → Elements
push v nil = cons v nil
push v (cons w vs) = cons w (push v vs)

-- `map.insert(key, value)`
unfoldable pub insert_member : Text → JsonValue → Members → Members
insert_member k v empty = member k v empty
insert_member k v (member j w m) =
    let rest = insert_member k v m in
    if text_eq j k
    then member k v m
    else if text_lt k j
    then member k v (member j w m)
    else member j w rest

unfoldable pub get_member : Text → Members → Option JsonValue
get_member k empty = none
get_member k (member j w m) = if text_eq j k then some w else get_member k m

unfoldable pub get : JsonValue → Text → Option JsonValue
unfolding get_member
get (object map) key = get_member key map
get _ key = none

unfoldable pub as_str : JsonValue → Option Text
as_str (str s) = some s
as_str _ = none

unfoldable pub as_f64 : JsonValue → Option ℕ
as_f64 (number n) = some n
as_f64 _ = none

unfoldable pub as_bool : JsonValue → Option Bool
as_bool (boolean b) = some b
as_bool _ = none

unfoldable pub as_array : JsonValue → Option Elements
as_array (array a) = some a
as_array _ = none

unfoldable pub is_null : JsonValue → Bool
is_null null = true
is_null _ = false

unfoldable pub as_u64 : JsonValue → Option ℕ
unfolding is_whole u64_of_f64
as_u64 (number n) = if is_whole n then some (u64_of_f64 n) else none
as_u64 _ = none

unfoldable pub as_f32 : JsonValue → Option ℕ
unfolding f32_of_f64
as_f32 (number n) = some (f32_of_f64 n)
as_f32 _ = none

-- What a `ParseError` reports, without the text and the position of its message.
pub data ParseError : Type 0 where
  invalid_utf8 trailing_data unexpected_character unexpected_end : ParseError
  unterminated_string unterminated_escape invalid_escape : ParseError
  incomplete_unicode_escape invalid_unicode_escape invalid_surrogate_pair invalid_codepoint :
      ParseError
  invalid_number expected_digit expected_separator expected_literal : ParseError
  expected_byte : ℕ → ParseError

-- A call of the parser returns a value, returns an error, or panics; `out_of_fuel` is a run that
-- the model did not finish.
pub data Outcome {ℓ} (A : Type ℓ) : Type ℓ where
  ok : A → Outcome A
  err : ParseError → Outcome A
  panicked out_of_fuel : Outcome A

infixl 5 ◌>>=◌
abbrev pub ◌>>=◌ {ℓ κ} : {A : Type ℓ} {B : Type κ} → Outcome A → (A → Outcome B) → Outcome B
ok a >>= f = f a
err e >>= f = err e
panicked >>= f = panicked
out_of_fuel >>= f = out_of_fuel

-- `ok_or_else`
abbrev pub or_err {ℓ} : {A : Type ℓ} → ParseError → Option A → Outcome A
or_err e none = err e
or_err e (some a) = ok a
