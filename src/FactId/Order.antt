-- ===== src/FactId/Order.antt =====
-- crates/core/src/fact_id.rs: the order of the texts of fact ids, and that of their 128-bit
-- values.
use native.Mathlib.Nat.{pow-zero}
use kronroe.Common.{
  ℕ, zero, suc, ◌*◌, ◌^◌, ◌<◌, ◌≤◌, ◌≡◌, inl, inr, refl, ap, Bool, true, not, ◌||◌, List, [], ◌∷◌,
  arith, ltb, ◌==◌, length, Bool-cases,
}
use kronroe.Common.Digits.{digits, Split, split, digits-head}
use kronroe.Common.Text.{Text, text_lt}
use kronroe.FactId.{digit, encode_body, encode_text, from_be_bytes}
use kronroe.FactId.Codec.{passes_up_to, passes-at, Bytes, from_be_bytes-lt}

ascends : ℕ → Bool
ascends j = passes_up_to (λ i. not (ltb i j) || ltb (digit i) (digit j)) 32

ascends_table : passes_up_to ascends 32 ≡ true
unfolding passes_up_to ascends digit
ascends_table = refl

digit_mono : (i j : ℕ) → i < j → j < 32 → digit i < digit j
digit_mono i j h hj =
    let row : ascends j ≡ true = passes-at ascends 32 ascends_table j hj in
    let l : i < 32 = omega (arith, h, hj) in
    ground (
      arith,
      passes-at (λ k. not (ltb k j) || ltb (digit k) (digit j)) 32 (unfold ascends in row) i l,
      h,
    )

text_lt-digits :
    (i j : ℕ) (xs ys : Text)
    → j < 32
    → i ≤ j
    → (i ≡ j → text_lt xs ys ≡ true)
    → text_lt (digit i ∷ xs) (digit j ∷ ys) ≡ true
unfolding text_lt
text_lt-digits i j xs ys hj le rest = elim (Bool-cases (i == j)) [
  | inl e ↦
      let e' : i ≡ j = ground arith in
      let d : digit i ≡ digit j = ap digit e' in ground (arith, rest e', d)
  | inr e ↦ let l : i < j = ground arith in ground (arith, digit_mono i j l hj)
]

digits-step :
    (n v w : ℕ) (s : Split 32 n v) (t : Split 32 n w)
    → v < w
    → (s.low < t.low → text_lt (digits 32 digit n s.low []) (digits 32 digit n t.low []) ≡ true)
    → text_lt (digits 32 digit (suc n) v []) (digits 32 digit (suc n) w []) ≡ true
digits-step n v w s t h rest =
    rw
      (
        s.value,
        t.value,
        digits-head 32 (omega arith) digit n s.high s.low [] s.high_lt s.low_lt,
        digits-head 32 (omega arith) digit n t.high t.low [] t.high_lt t.low_lt,
      )
      (text_lt-digits s.high t.high _ _ t.high_lt (grind arith)
        (λ e. rest (grind (arith, ap (λ (d : ℕ). d * 32 ^ n) e))))

-- The digits of a smaller value are smaller as a text.
digits-text_lt :
    (n v w : ℕ)
    → v < w
    → w < 32 ^ n
    → text_lt (digits 32 digit n v []) (digits 32 digit n w []) ≡ true
digits-text_lt zero v w h b = absurd (omega (arith, pow-zero 32))
digits-text_lt (suc n) v w h b =
    let s : Split 32 n v = split 32 (omega arith) n v (omega arith) in
    let t : Split 32 n w = split 32 (omega arith) n w b in
    digits-step n v w s t h (λ l. digits-text_lt n s.low t.low l t.low_lt)

encode_body_mono : (v w : ℕ) → v < w → w < 2 ^ 128 → text_lt (encode_body v) (encode_body w) ≡ true
unfolding encode_body
encode_body_mono v w h b = digits-text_lt 26 v w h (omega arith)

-- The text of sixteen bytes that stand for a greater 128-bit value is greater as a text.
pub encode_text_mono :
    (xs ys : List ℕ)
    → Bytes ys
    → length ys ≡ 16
    → from_be_bytes 0 xs < from_be_bytes 0 ys
    → text_lt (encode_text xs) (encode_text ys) ≡ true
unfolding encode_text text_lt
encode_text_mono xs ys h n l = encode_body_mono (from_be_bytes 0 xs) (from_be_bytes 0 ys) l small
  where
    small : from_be_bytes 0 ys < 2 ^ 128
    small =
        let e : 256 ^ length ys ≡ 2 ^ 128 = ap (λ (k : ℕ). 256 ^ k) n in
        omega (arith, from_be_bytes-lt ys h, e)
