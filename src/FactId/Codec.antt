-- ===== src/FactId/Codec.antt =====
-- crates/core/src/fact_id.rs: the text of a fact id, and the id that is read from it.
use native.Mathlib.Nat.{pow-suc, pow-zero}
use kronroe.Common.{
  Bool-cases, inl, inr, ℕ, zero, suc, ◌+◌, ◌*◌, ◌/◌, ◌%◌, ◌^◌, ◌<◌, ◌≤◌, ◌≡◌, refl, ap, ◌∙◌, Bool,
  true, false, ◌&&◌, Option, none, some, List, [], ◌∷◌, ◌++◌, arith, ◌==◌, length, All,
}
use kronroe.Common.Digits.{digits, Split, split, digits-head}
use kronroe.Common.Text.{Text, starts_with}
use kronroe.FactId.{
  FactId, Parsed, ok, digit, decode_char, encode_body, encode_text, parse_body, parse, parsed_id,
  prefix, from_be_bytes, to_be_bytes,
}

-- Whether a test passes at each number under a limit.
unfoldable pub passes_up_to : (ℕ → Bool) → ℕ → Bool
passes_up_to test zero = true
passes_up_to test (suc last) = passes_up_to test last && test last

-- A table that evaluates to `true` gives the test at any of its numbers.
pub passes-at :
    (test : ℕ → Bool) (limit : ℕ)
    → passes_up_to test limit ≡ true
    → (i : ℕ) → i < limit
    → test i ≡ true
unfolding passes_up_to
passes-at test zero table i l = absurd (omega arith)
passes-at test (suc last) table i l = elim (Bool-cases (i == last)) [
  | inl here ↦ ground (arith, here)
  | inr earlier ↦ passes-at test last (ground arith) i (ground (arith, earlier))
]

decodes : ℕ → Bool
decodes i = elim (decode_char (digit i)) [ none ↦ false | some j ↦ i == j ]

decodes_table : passes_up_to decodes 32 ≡ true
unfolding passes_up_to decodes decode_char digit
decodes_table = refl

decode_char-digit : (i : ℕ) → i < 32 → decode_char (digit i) ≡ some i
decode_char-digit i h =
    decoded (decode_char (digit i)) (unfold decodes in passes-at decodes 32 decodes_table i h)
  where
    decoded : (o : Option ℕ) → (elim o [ none ↦ false | some j ↦ i == j ]) ≡ true → o ≡ some i
    decoded none e = cc
    decoded (some j) e = ground arith

parse_body-digit :
    (d idx acc : ℕ) (rest : Text)
    → d < 32
    → (idx ≡ 0 → d ≤ 7)
    → parse_body (digit d ∷ rest) idx acc ≡ parse_body rest (idx + 1) (acc * 32 + d)
unfolding parse_body
parse_body-digit d idx acc rest h first = ground (arith, decode_char-digit d h, first)

-- The digits after the first read as the value that they stand for, after what came before.
parse_body-digits :
    (n r idx acc : ℕ)
    → r < 32 ^ n
    → 0 < idx
    → parse_body (digits 32 digit n r []) idx acc ≡ ok (acc * 32 ^ n + r)
parse_body-digits zero r idx acc h p =
    unfold parse_body digits in
    ap ok (omega (arith, h, pow-zero 32, ap (λ (t : ℕ). acc * t) (pow-zero 32)))
parse_body-digits (suc n) r idx acc h p =
    let s : Split 32 n r = split 32 (omega arith) n r h in
    rw (s.value, digits-head 32 (omega arith) digit n s.high s.low [] s.high_lt s.low_lt)
      (parse_body-digit s.high idx acc (digits 32 digit n s.low []) s.high_lt (λ e. omega arith)
        ∙ parse_body-digits n s.low (idx + 1) (acc * 32 + s.high) s.low_lt (omega arith)
        ∙ ap ok (omega (arith, pow-suc 32 n, ap (λ (t : ℕ). acc * t) (pow-suc 32 n))))

parse_body-encode_body : (v : ℕ) → v < 2 ^ 128 → parse_body (encode_body v) 0 0 ≡ ok v
unfolding encode_body
parse_body-encode_body v h = whole (split 32 (omega arith) 25 v (omega arith))
  where
    whole : Split 32 25 v → parse_body (digits 32 digit 26 v []) 0 0 ≡ ok v
    whole s =
        rw (s.value, digits-head 32 (omega arith) digit 25 s.high s.low [] s.high_lt s.low_lt)
          (parse_body-digit s.high 0 0 (digits 32 digit 25 s.low []) s.high_lt (λ e. omega arith)
            ∙ parse_body-digits 25 s.low (0 + 1) (0 * 32 + s.high) s.low_lt (omega arith)
            ∙ ap ok (omega arith))

from_be_bytes-head :
    (a : ℕ) (bs : List ℕ) → from_be_bytes a bs ≡ a * 256 ^ length bs + from_be_bytes 0 bs
unfolding from_be_bytes
from_be_bytes-head a [] = omega (arith, pow-zero 256, ap (λ (t : ℕ). a * t) (pow-zero 256))
from_be_bytes-head a (b ∷ bs) = omega (
  arith,
  from_be_bytes-head (a * 256 + b) bs,
  from_be_bytes-head (0 * 256 + b) bs,
  pow-suc 256 (length bs),
  ap (λ (t : ℕ). a * t) (pow-suc 256 (length bs)),
)

from_be_bytes-cons :
    (b : ℕ) (bs : List ℕ) → from_be_bytes 0 (b ∷ bs) ≡ b * 256 ^ length bs + from_be_bytes 0 bs
from_be_bytes-cons b bs = unfold from_be_bytes in from_be_bytes-head (0 * 256 + b) bs ∙ omega arith

-- Bytes, each of eight bits.
abbrev pub Bytes : List ℕ → Type 0
Bytes = All (λ b. b < 256)

pub from_be_bytes-lt : (bs : List ℕ) → Bytes bs → from_be_bytes 0 bs < 256 ^ length bs
unfolding from_be_bytes
from_be_bytes-lt [] h = omega (arith, pow-zero 256)
from_be_bytes-lt (b ∷ bs) h =
    grind
      (arith, from_be_bytes-head (0 * 256 + b) bs, from_be_bytes-lt bs h.1, pow-suc 256 (length bs))

to_be_bytes-from_be_bytes :
    (bs : List ℕ) → Bytes bs → to_be_bytes (length bs) (from_be_bytes 0 bs) ≡ bs
unfolding to_be_bytes
to_be_bytes-from_be_bytes [] h = unfold digits in refl
to_be_bytes-from_be_bytes (b ∷ bs) h = rw (from_be_bytes-cons b bs) (
    digits-head 256 (omega arith) (λ c. c) (length bs) b (from_be_bytes 0 bs) [] h.0
      (from_be_bytes-lt bs h.1)
    ∙ ap (λ (t : List ℕ). b ∷ t) (to_be_bytes-from_be_bytes bs h.1))

length-digits : (n v : ℕ) (acc : Text) → length (digits 32 digit n v acc) ≡ n + length acc
unfolding digits
length-digits zero v acc = omega arith
length-digits (suc n) v acc = omega (arith, length-digits n (v / 32) (digit (v % 32) ∷ acc))

length-encode_body : (v : ℕ) → length (encode_body v) ≡ 26
unfolding encode_body
length-encode_body v = omega (arith, length-digits 26 v [])

parse-body :
    (body : Text) (v : ℕ)
    → length body ≡ 26
    → parse_body body 0 0 ≡ ok v
    → parse (prefix ++ body) ≡ parsed_id (ok v)
unfolding parse starts_with
parse-body body v n e = ground arith

-- Parsing the text that sixteen bytes are encoded as gives back the bytes and the text.
pub parse-encode_text :
    (bs : List ℕ)
    → Bytes bs
    → length bs ≡ 16
    → parse (encode_text bs) ≡ ok (record { bytes = bs; text = encode_text bs })
parse-encode_text bs h n =
    unfold encode_text in
    parse-body (encode_body value) value (length-encode_body value)
      (parse_body-encode_body value small)
    ∙ (unfold parsed_id in ap sealed back)
  where
    value : ℕ
    value = from_be_bytes 0 bs

    small : from_be_bytes 0 bs < 2 ^ 128
    small =
        let e : 256 ^ length bs ≡ 2 ^ 128 = ap (λ (k : ℕ). 256 ^ k) n in
        omega (arith, from_be_bytes-lt bs h, e)

    sealed : List ℕ → Parsed FactId
    sealed bytes = ok (record { bytes = bytes; text = encode_text bytes })

    back : to_be_bytes 16 (from_be_bytes 0 bs) ≡ bs
    back = rw n at (to_be_bytes-from_be_bytes bs h)
