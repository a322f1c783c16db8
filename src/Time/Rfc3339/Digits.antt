-- ===== src/Time/Rfc3339/Digits.antt =====
-- crates/core/src/kronroe_time.rs: the zero-padded numbers of a timestamp read back.
use mathlib.Core.Path.{subst}
use native.Mathlib.Nat.{pow-zero, pow-suc}
use kronroe.Common.Decimal.{padded, width_of, digit_char}
use kronroe.Common.{
  ℕ, ◌&&◌, zero, suc, ◌+◌, ◌-◌, ◌*◌, ◌/◌, ◌^◌, ◌≤◌, ◌<◌, ◌≡◌, refl, ◌∙◌, sym, is_empty, ap, true,
  false, some, [], ◌∷◌, length, ltb, leb, ◌==◌, arith, Bool-cases, inl, inr, ltb→lt,
}
use kronroe.Common.Digits.{digits, digits-head, split, Split}
use kronroe.Common.Parse.{decimal, parse_unsigned, parse_signed}
use kronroe.Common.Parse.Laws.{AllDigits, parse_unsigned-digits, parse_signed-digits}
use kronroe.Common.Text.{Text}
use kronroe.Common.Int.{pos}
use kronroe.Time.Rfc3339.{pad_right, trimmed, trim_zeros}

-- The digits of a number below `10 ^ w`.
pub record Reads (w n : ℕ) (t : Text) : Type 0 where
  pub width : length t ≡ w
  pub all : AllDigits t
  pub value : (acc : ℕ) → decimal acc t ≡ some (acc * 10 ^ w + n)

regroup_at : (acc d p r : ℕ) → (acc * 10 + d) * p + r ≡ acc * (p * 10) + (d * p + r)
regroup_at acc d p r = grind arith

regroup : (acc d w r : ℕ) → (acc * 10 + d) * 10 ^ w + r ≡ acc * 10 ^ suc w + (d * 10 ^ w + r)
regroup acc d w r =
    regroup_at acc d (10 ^ w) r ∙ ap (λ (t : ℕ). acc * t + (d * 10 ^ w + r)) (sym (pow-suc 10 w))

zero_width : (acc n : ℕ) → n < 10 ^ 0 → acc ≡ acc * 10 ^ 0 + n
zero_width acc n h = omega (arith, pow-zero 10, h, ap (λ (t : ℕ). acc * t) (pow-zero 10))

padded-head :
    (w d r : ℕ) → d < 10 → r < 10 ^ w → padded (suc w) (d * 10 ^ w + r) ≡ digit_char d ∷ padded w r
unfolding padded
padded-head w d r h g = digits-head 10 (omega arith) digit_char w d r [] h g

Reads-cons :
    (w d r : ℕ) (t : Text)
    → d < 10
    → Reads w r t
    → Reads (suc w) (d * 10 ^ w + r) (digit_char d ∷ t)
unfolding decimal
Reads-cons w d r t h g = record {
  width = ap suc g.width;
  all = (ground arith, g.all);
  value = λ acc.
      let digit : (leb b'0' (digit_char d) && leb (digit_char d) b'9') ≡ true = ground arith in
      let place : acc * 10 + (digit_char d - b'0') ≡ acc * 10 + d = omega arith in
      rw (digit, place) (g.value (acc * 10 + d) ∙ ap some (regroup acc d w r));
}

pub padded-Reads : (w n : ℕ) → n < 10 ^ w → Reads w n (padded w n)
unfolding padded decimal
padded-Reads zero n h = record {
  width = refl;
  all = tt;
  value = λ acc. ap some (zero_width acc n h);
}
padded-Reads (suc w) n h =
    let s : Split 10 w n = split 10 (omega arith) w n h in
    rw (s.value, padded-head w s.high s.low s.high_lt s.low_lt)
      (Reads-cons w s.high s.low _ s.high_lt (padded-Reads w s.low s.low_lt))

-- The number of digits that a number is given is enough for it.
pub width_of_enough :
    (fuel w n : ℕ) → n < 10 ^ (w + fuel) → (n < 10 ^ width_of fuel w n) × (w ≤ width_of fuel w n)
unfolding width_of
width_of_enough zero w n h = (subst (λ (k : ℕ). n < 10 ^ k) (omega arith) h, omega arith)
width_of_enough (suc fuel) w n h = elim (Bool-cases (ltb n (10 ^ w))) [
  | inl e ↦ rw e (ltb→lt n (10 ^ w) e, omega arith)
  | inr e ↦
      let (enough, more) =
        width_of_enough fuel (w + 1) n (subst (λ (k : ℕ). n < 10 ^ k) (omega arith) h) in
      rw e (enough, omega (arith, more))
]

pad_right-trimmed : (n c : ℕ) (t : Text) → pad_right (suc n) (trimmed c t) ≡ c ∷ pad_right n t
unfolding pad_right trimmed
pad_right-trimmed n c [] = ground arith
pad_right-trimmed n c (d ∷ ds) = refl

-- Padding puts back the zeros that were trimmed.
pub pad_right-trim_zeros : (t : Text) → pad_right (length t) (trim_zeros t) ≡ t
unfolding trim_zeros
pad_right-trim_zeros [] = unfold pad_right in refl
pad_right-trim_zeros (c ∷ cs) =
    pad_right-trimmed (length cs) c (trim_zeros cs) ∙ ap (λ t. c ∷ t) (pad_right-trim_zeros cs)

trimmed-digits :
    (c : ℕ) (t : Text) (n : ℕ)
    → (leb b'0' c && leb c b'9') ≡ true
    → AllDigits t × (length t ≤ n)
    → AllDigits (trimmed c t) × (length (trimmed c t) ≤ suc n)
unfolding trimmed
trimmed-digits c [] n h g = elim (Bool-cases (c == b'0')) [
  | inl e ↦ rw e (tt, omega arith)
  | inr e ↦ rw e ((h, tt), omega arith)
]
trimmed-digits c (d ∷ ds) n h g = ((h, g.0), omega (arith, g.1))

-- What is trimmed is no longer, and its bytes are digits if those of the text are.
pub trim_zeros-digits :
    (t : Text) → AllDigits t → AllDigits (trim_zeros t) × (length (trim_zeros t) ≤ length t)
unfolding trim_zeros
trim_zeros-digits [] h = (tt, omega arith)
trim_zeros-digits (c ∷ cs) h =
    trimmed-digits c (trim_zeros cs) (length cs) h.0 (trim_zeros-digits cs h.1)

decimal-zeros : (k : ℕ) → decimal 0 (pad_right k []) ≡ some 0
unfolding decimal pad_right
decimal-zeros zero = refl
decimal-zeros (suc k) = decimal-zeros k

nothing : (t : Text) → is_empty t ≡ true → t ≡ []
nothing [] h = refl
nothing (c ∷ cs) h = cc

-- The digits of a number other than zero are not all trimmed.
pub trim_zeros_nonempty :
    (t : Text) (n : ℕ) → 0 < n → decimal 0 t ≡ some n → is_empty (trim_zeros t) ≡ false
trim_zeros_nonempty t n h e = elim (Bool-cases (is_empty (trim_zeros t))) [
  | inl gone ↦
      let zeros : pad_right (length t) [] ≡ t =
        ap (pad_right (length t)) (sym (nothing (trim_zeros t) gone)) ∙ pad_right-trim_zeros t in
      let zero_value : some n ≡ some 0 =
        sym e ∙ ap (decimal 0) (sym zeros) ∙ decimal-zeros (length t) in
      absurd (ground arith)
  | inr kept ↦ kept
]

-- The digits of a number, of which there is one at least, in front of a byte that is no digit.
pub parse_unsigned-padded :
    (bound w n : ℕ) → n < 10 ^ suc w → n ≤ bound → parse_unsigned bound (padded (suc w) n) ≡ some n
parse_unsigned-padded bound w n h le = at_first (padded (suc w) n) (padded-Reads (suc w) n h)
  where
    at_first : (t : Text) → Reads (suc w) n t → parse_unsigned bound t ≡ some n
    at_first [] r = absurd (omega (arith, r.width))
    at_first (c ∷ cs) r =
        parse_unsigned-digits bound n c cs r.all (r.value 0 ∙ ap some (omega arith)) le

pub parse_signed-padded :
    (bound w n : ℕ)
    → n < 10 ^ suc w
    → n ≤ bound
    → parse_signed bound (padded (suc w) n) ≡ some (pos n)
parse_signed-padded bound w n h le = at_first (padded (suc w) n) (padded-Reads (suc w) n h)
  where
    at_first : (t : Text) → Reads (suc w) n t → parse_signed bound t ≡ some (pos n)
    at_first [] r = absurd (omega (arith, r.width))
    at_first (c ∷ cs) r =
        parse_signed-digits bound n c cs r.all (r.value 0 ∙ ap some (omega arith)) le

digits_at : (n v : ℕ) (acc : Text) → AllDigits acc → AllDigits (digits 10 digit_char n v acc)
unfolding digits
digits_at zero v acc h = h
digits_at (suc n) v acc h = digits_at n (v / 10) _ (ground arith, h)

-- Every byte that is printed is a digit, also of a number that is too large for the width.
pub padded-AllDigits : (w n : ℕ) → AllDigits (padded w n)
unfolding padded
padded-AllDigits w n = digits_at w n [] tt
