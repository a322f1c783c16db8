-- ===== src/FactId/Parts.antt =====
-- crates/core/src/fact_id.rs, `from_parts`: the parts that it packs, the text, and the order.
use native.Mathlib.Nat.{pow-suc, pow-zero}
use kronroe.Common.{
  ℕ, zero, suc, ◌+◌, ◌*◌, ◌/◌, ◌%◌, ◌^◌, ◌<◌, ◌≡◌, refl, ap, ◌∙◌, true, List, [], ◌∷◌, arith,
  length,
}
use kronroe.Common.Digits.{digits, Split, split, digits-head}
use kronroe.Common.Text.{text_lt}
use kronroe.FactId.{
  ok, parse, from_be_bytes, to_be_bytes, part_bytes, from_parts, timestamp_ms, sequence,
}
use kronroe.FactId.Codec.{Bytes, parse-encode_text}
use kronroe.FactId.Order.{encode_text_mono}

-- An id made of a time, a 16-bit sequence number and random bits reads back the time reduced to
-- 48 bits and the sequence number.
pub from_parts_fields :
    (t s e : ℕ)
    → s < 2 ^ 16
    → (timestamp_ms (from_parts t s e) ≡ t % 2 ^ 48) × (sequence (from_parts t s e) ≡ s)
unfolding from_parts timestamp_ms sequence
from_parts_fields t s e h = (omega arith, omega arith)

from_be_bytes-digits :
    (n a v : ℕ) → v < 256 ^ n → from_be_bytes a (digits 256 (λ b. b) n v []) ≡ a * 256 ^ n + v
from_be_bytes-digits zero a v h =
    unfold from_be_bytes digits in
    omega (arith, h, pow-zero 256, ap (λ (t : ℕ). a * t) (pow-zero 256))
from_be_bytes-digits (suc n) a v h =
    let s : Split 256 n v = split 256 (omega arith) n v h in
    let e : v ≡ s.high * 256 ^ n + s.low = s.value in
    rw (e, digits-head 256 (omega arith) (λ b. b) n s.high s.low [] s.high_lt s.low_lt)
      (from_be_bytes-step s.high a (digits 256 (λ b. b) n s.low [])
        ∙ from_be_bytes-digits n (a * 256 + s.high) s.low s.low_lt
        ∙ omega (arith, pow-suc 256 n, ap (λ (t : ℕ). a * t) (pow-suc 256 n)))
  where
    from_be_bytes-step :
        (b c : ℕ) (bs : List ℕ) → from_be_bytes c (b ∷ bs) ≡ from_be_bytes (c * 256 + b) bs
    from_be_bytes-step b c bs = unfold from_be_bytes in refl

digits-Bytes : (n v : ℕ) (acc : List ℕ) → Bytes acc → Bytes (digits 256 (λ b. b) n v acc)
unfolding digits
digits-Bytes zero v acc h = h
digits-Bytes (suc n) v acc h = digits-Bytes n (v / 256) ((v % 256) ∷ acc) (omega arith, h)

length-digits : (n v : ℕ) (acc : List ℕ) → length (digits 256 (λ b. b) n v acc) ≡ n + length acc
unfolding digits
length-digits zero v acc = omega arith
length-digits (suc n) v acc = omega (arith, length-digits n (v / 256) ((v % 256) ∷ acc))

module _ (t s e : ℕ) where
  part_bytes-Bytes : Bytes (part_bytes t s e)
  unfolding part_bytes
  part_bytes-Bytes = omega arith

  length-part_bytes : length (part_bytes t s e) ≡ 16
  unfolding part_bytes to_be_bytes
  length-part_bytes = omega (arith, length-digits 8 e [])

  -- The value is the three parts, the timestamp in the high bits.
  part_bytes_value :
      t < 2 ^ 48
      → s < 2 ^ 16
      → e < 2 ^ 64
      → from_be_bytes 0 (part_bytes t s e) ≡ (t * 2 ^ 16 + s) * 2 ^ 64 + e
  unfolding part_bytes to_be_bytes from_be_bytes
  part_bytes_value ht hs he = from_be_bytes-digits 8 _ e (omega arith) ∙ omega arith

  -- The text of an id made of any time, sequence number and random bits parses to that id.
  pub parse-from_parts : parse (from_parts t s e).text ≡ ok (from_parts t s e)
  unfolding from_parts
  parse-from_parts = parse-encode_text (part_bytes t s e) part_bytes-Bytes length-part_bytes

-- Of two ids made of parts in range, the one with the later 48-bit time, or the same time and a
-- greater sequence number, has the greater text, whatever the random bits are.
pub from_parts_sorted :
    (t s e t' s' e' : ℕ)
    → t' < 2 ^ 48
    → s < 2 ^ 16
    → s' < 2 ^ 16
    → e < 2 ^ 64
    → e' < 2 ^ 64
    → t * 2 ^ 16 + s < t' * 2 ^ 16 + s'
    → text_lt (from_parts t s e).text (from_parts t' s' e').text ≡ true
unfolding from_parts
from_parts_sorted t s e t' s' e' ht hs hs' he he' h =
    encode_text_mono (part_bytes t s e) (part_bytes t' s' e') (part_bytes-Bytes t' s' e')
      (length-part_bytes t' s' e')
      (omega
        (arith, part_bytes_value t s e (omega arith) hs he, part_bytes_value t' s' e' ht hs' he'))
