-- ===== src/FactId.antt =====
-- crates/core/src/fact_id.rs: 128-bit fact ids of a millisecond clock, a sequence number and random
-- bits, their base-32 text, and the generator that keeps them in order.
pub mod Codec
pub mod Order
pub mod Parts
pub mod Generator
use kronroe.Common.{
  ℕ, zero, suc, ◌+◌, ◌-◌, ◌*◌, ◌/◌, ◌%◌, ◌^◌, Bool, true, false, ◌&&◌, Option, none, some, List, [],
  ◌∷◌, ◌++◌, ltb, leb, ◌==◌, if◌then◌else◌, length, drop,
}
use kronroe.Common.Digits.{digits}
use kronroe.Common.Text.{Text, codes, starts_with}

abbrev pub prefix : Text
prefix = codes "kf_"

abbrev pub body_len : ℕ
body_len = 26

abbrev pub alphabet : Text
alphabet = codes "0123456789ABCDEFGHJKMNPQRSTVWXYZ"

pub record FactId : Type 0 where
  pub bytes : List ℕ
  pub text : Text

pub data FactIdParseError : Type 0 where
  invalid_length : ℕ → FactIdParseError
  missing_prefix : FactIdParseError
  invalid_character : ℕ → ℕ → FactIdParseError
  overflow : FactIdParseError

pub data Parsed {ℓ} (A : Type ℓ) : Type ℓ where
  ok : A → Parsed A
  err : FactIdParseError → Parsed A

-- `u128::from_be_bytes`, `u64::from_be_bytes`
unfoldable pub from_be_bytes : ℕ → List ℕ → ℕ
from_be_bytes acc [] = acc
from_be_bytes acc (b ∷ bs) = from_be_bytes (acc * 256 + b) bs

-- `to_be_bytes`, for a number of bytes
unfoldable pub to_be_bytes : ℕ → ℕ → List ℕ
unfolding digits
to_be_bytes n v = digits 256 (λ b. b) n v []

-- `ALPHABET[i]`
digit_in : Text → ℕ → ℕ
digit_in [] i = 0
digit_in (c ∷ cs) zero = c
digit_in (c ∷ cs) (suc i) = digit_in cs i

unfoldable pub digit : ℕ → ℕ
unfolding digit_in
digit i = digit_in alphabet i

-- The loop of `encode_text`: the last digit first.
unfoldable pub encode_body : ℕ → Text
unfolding digits
encode_body value = digits 32 digit body_len value []

unfoldable pub encode_text : List ℕ → Text
unfolding encode_body from_be_bytes digit
encode_text bytes = prefix ++ encode_body (from_be_bytes 0 bytes)

unfoldable pub to_ascii_uppercase : ℕ → ℕ
to_ascii_uppercase c = if leb b'a' c && leb c b'z' then c - 32 else c

position : ℕ → Text → ℕ → Option ℕ
position c [] i = none
position c (x ∷ xs) i = if x == c then some i else position c xs (i + 1)

unfoldable pub decode_char : ℕ → Option ℕ
unfolding position to_ascii_uppercase
decode_char ch = position (to_ascii_uppercase ch) alphabet 0

-- The code point that a UTF-8 text begins with.
first_char : Text → ℕ
first_char [] = 0
first_char (a ∷ []) = a
first_char (a ∷ b ∷ []) = if ltb a 192 then a else (a % 32) * 64 + b % 64
first_char (a ∷ b ∷ c ∷ []) =
    if ltb a 192
    then a
    else if ltb a 224
    then (a % 32) * 64 + b % 64
    else ((a % 16) * 64 + b % 64) * 64 + c % 64
first_char (a ∷ b ∷ c ∷ d ∷ rest) =
    if ltb a 192
    then a
    else if ltb a 224
    then (a % 32) * 64 + b % 64
    else if ltb a 240
    then ((a % 16) * 64 + b % 64) * 64 + c % 64
    else (((a % 8) * 64 + b % 64) * 64 + c % 64) * 64 + d % 64

-- The loop of `parse`, with the index in the body. The digits are ASCII, so that it stops at the
-- first byte of any longer character.
unfoldable pub parse_body : Text → ℕ → ℕ → Parsed ℕ
unfolding decode_char first_char
parse_body [] idx value = ok value
parse_body (ch ∷ rest) idx value = elim (decode_char ch) [
  | none ↦ err (invalid_character (first_char (ch ∷ rest)) (3 + idx))
  | some decoded ↦
      let next = parse_body rest (idx + 1) (value * 32 + decoded) in
      if (idx == 0) && ltb 7 decoded then err overflow else next
]

parsed_id : Parsed ℕ → Parsed FactId
unfolding to_be_bytes encode_text
parsed_id (err e) = err e
parsed_id (ok value) =
    let bytes = to_be_bytes 16 value in ok (record { bytes = bytes; text = encode_text bytes })

unfoldable pub parse : Text → Parsed FactId
unfolding parse_body parsed_id starts_with
parse text =
    if starts_with prefix text
    then (let body = drop 3 text in
        if length body == body_len
        then parsed_id (parse_body body 0 0)
        else err (invalid_length (length text)))
    else err missing_prefix

-- `bytes` of `from_parts`: shifts and masks of a `u64`, a `u16` and a `u64`.
unfoldable pub part_bytes : ℕ → ℕ → ℕ → List ℕ
unfolding to_be_bytes
part_bytes timestamp_ms sequence entropy =
    (timestamp_ms / 2 ^ 40 % 256)
    ∷ (timestamp_ms / 2 ^ 32 % 256)
    ∷ (timestamp_ms / 2 ^ 24 % 256)
    ∷ (timestamp_ms / 2 ^ 16 % 256)
    ∷ (timestamp_ms / 2 ^ 8 % 256)
    ∷ (timestamp_ms % 256)
    ∷ (sequence / 2 ^ 8 % 256)
    ∷ (sequence % 256)
    ∷ to_be_bytes 8 entropy

unfoldable pub from_parts : ℕ → ℕ → ℕ → FactId
unfolding part_bytes encode_text
from_parts timestamp_ms sequence entropy =
    let bytes = part_bytes timestamp_ms sequence entropy in
    record { bytes = bytes; text = encode_text bytes }

-- `self.bytes[i]` as a number
byte_at : List ℕ → ℕ → ℕ
byte_at [] i = 0
byte_at (b ∷ bs) zero = b
byte_at (b ∷ bs) (suc i) = byte_at bs i

unfoldable pub timestamp_ms : FactId → ℕ
unfolding byte_at
timestamp_ms id =
    byte_at id.bytes 0 * 2 ^ 40
    + byte_at id.bytes 1 * 2 ^ 32
    + byte_at id.bytes 2 * 2 ^ 24
    + byte_at id.bytes 3 * 2 ^ 16
    + byte_at id.bytes 4 * 2 ^ 8
    + byte_at id.bytes 5

unfoldable pub sequence : FactId → ℕ
unfolding byte_at
sequence id = byte_at id.bytes 6 * 2 ^ 8 + byte_at id.bytes 7
