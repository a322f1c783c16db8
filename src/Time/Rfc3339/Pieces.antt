-- ===== src/Time/Rfc3339/Pieces.antt =====
-- crates/core/src/kronroe_time.rs: the date and the time of day of a timestamp read back.
use mathlib.Core.Path.{subst}
use mathlib.Core.List.{append-nil}
use kronroe.Common.Decimal.{padded, width_of}
use kronroe.Common.{
  ℕ, suc, ◌-◌, ◌^◌, ◌≤◌, ◌<◌, ◌≡◌, refl, ◌∙◌, sym, ap, true, false, ◌&&◌, Option, some, none, [],
  ◌∷◌, ◌++◌, length, ltb, leb, ◌==◌, arith, Bool-cases, inl, inr, if◌then◌else◌, ==_iff,
}
use kronroe.Common.Int.{pos}
use kronroe.Common.Parse.{split, decimal}
use kronroe.Common.Parse.Laws.{
  Without, Without-append, AllDigits-Without, split_once-append, split_once-Without, split-append,
  split-Without,
}
use kronroe.Common.Text.{Text}
use kronroe.Error.{ok}
use kronroe.Time.Calendar.{validate_date}
use kronroe.Time.Calendar.Valid.{validate_date_bounds}
use kronroe.Time.Rfc3339.Digits.{
  padded-Reads, width_of_enough, pad_right-trim_zeros, trim_zeros-digits, trim_zeros_nonempty,
  parse_unsigned-padded, parse_signed-padded,
}
use kronroe.Time.Rfc3339.{
  validate_time, date_parts, parse_date, time_parts, pad_right, fraction_micros, base_and_fraction,
  parse_time, format_year, trim_zeros, format_fraction,
}

-- The digits of a number hold no other byte.
pub padded-Without :
    (sep w n : ℕ) → (leb b'0' sep && leb sep b'9') ≡ false → n < 10 ^ w → Without sep (padded w n)
padded-Without sep w n h lt = AllDigits-Without sep (padded w n) h (padded-Reads w n lt).all

-- Three parts around a separator.
abbrev pub Joined : ℕ → Text → Text → Text → Text
Joined sep a b c = a ++ (sep ∷ (b ++ (sep ∷ c)))

split-Joined :
    (sep : ℕ) (a b c : Text)
    → Without sep a
    → Without sep b
    → Without sep c
    → split sep (Joined sep a b c) ≡ a ∷ b ∷ c ∷ []
split-Joined sep a b c h g f =
    split-append sep a (b ++ (sep ∷ c)) h
    ∙ ap (λ ps. a ∷ ps) (split-append sep b c g ∙ ap (λ ps. b ∷ ps) (split-Without sep c f))

pub Joined-Without :
    (other sep : ℕ) (a b c : Text)
    → (sep == other) ≡ false
    → Without other a
    → Without other b
    → Without other c
    → Without other (Joined sep a b c)
Joined-Without other sep a b c n h g f =
    Without-append other a _ h (n, Without-append other b _ g (n, f))

-- The width that a year is printed with.
pub year_width : ℕ → ℕ
year_width n = width_of 6 4 n - 1

pub format_year_pos :
    (n : ℕ)
    → n < 10 ^ 10
    → (format_year (pos n) ≡ padded (suc (year_width n)) n) × (n < 10 ^ suc (year_width n))
unfolding format_year year_width
format_year_pos n h =
    let (enough, wide) = width_of_enough 6 4 n h in
    let whole : width_of 6 4 n ≡ suc (width_of 6 4 n - 1) = omega (arith, wide) in
    (ap (λ w. padded w n) whole, subst (λ w. n < 10 ^ w) whole enough)

pub parse_date-Joined :
    (n m d : ℕ)
    → n < 10 ^ 10
    → n ≤ 0x7fff_ffff
    → validate_date (pos n) m d ≡ true
    → parse_date (Joined b'-' (format_year (pos n)) (padded 2 m) (padded 2 d)) ≡ ok (pos n, m, d)
unfolding parse_date date_parts
parse_date-Joined n m d h le v =
    let (printed, fits) = format_year_pos n h in
    let (month, day) = validate_date_bounds (pos n) m d v in
    rw
      (
        printed,
        split-Joined b'-' (padded (suc (year_width n)) n) (padded 2 m) (padded 2 d)
            (padded-Without b'-' (suc (year_width n)) n refl fits)
            (padded-Without b'-' 2 m refl month) (padded-Without b'-' 2 d refl day),
        parse_signed-padded 0x7fff_ffff (year_width n) n fits le,
        parse_unsigned-padded 0xffff_ffff 1 m month (omega (arith, month)),
        parse_unsigned-padded 0xffff_ffff 1 d day (omega (arith, day)),
        v,
      )
      refl

-- The text of a fraction, before the Z.
pub fraction : ℕ → Text
fraction us = if us == 0 then [] else b'.' ∷ trim_zeros (padded 6 us)

pub fraction-Z : (us : ℕ) → format_fraction us ≡ fraction us ++ (b'Z' ∷ [])
unfolding format_fraction fraction
fraction-Z us = elim (Bool-cases (us == 0)) [ inl e ↦ rw e refl | inr e ↦ rw e refl ]

fraction_micros-trim_zeros :
    (us : ℕ)
    → (us == 0) ≡ false
    → us < 10 ^ 6
    → fraction_micros (some (trim_zeros (padded 6 us))) ≡ ok us
unfolding fraction_micros
fraction_micros-trim_zeros us n h =
    let r = padded-Reads 6 us h in
    let value : decimal 0 (padded 6 us) ≡ some us = r.value 0 ∙ ap some (omega arith) in
    let some_digit = trim_zeros_nonempty (padded 6 us) us (ground arith) value in
    let short : ltb 6 (length (trim_zeros (padded 6 us))) ≡ false =
      ground (arith, trim_zeros-digits (padded 6 us) r.all, r.width) in
    let padded_again : pad_right 6 (trim_zeros (padded 6 us)) ≡ padded 6 us =
      subst (λ k. pad_right k (trim_zeros (padded 6 us)) ≡ padded 6 us) r.width
        (pad_right-trim_zeros (padded 6 us)) in
    rw (some_digit, short, padded_again, value) refl

abbrev fraction_text : ℕ → Option Text
fraction_text us = if us == 0 then none else some (trim_zeros (padded 6 us))

base_and_fraction-fraction :
    (base : Text) (us : ℕ)
    → Without b'.' base
    → base_and_fraction (base ++ fraction us) ≡ (base, fraction_text us)
unfolding base_and_fraction fraction
base_and_fraction-fraction base us h = elim (Bool-cases (us == 0)) [
  | inl e ↦ rw e (rw (append-nil, split_once-Without b'.' base h) refl)
  | inr e ↦ rw e (rw (split_once-append b'.' base (trim_zeros (padded 6 us)) h) refl)
]

fraction_micros-fraction_text : (us : ℕ) → us < 10 ^ 6 → fraction_micros (fraction_text us) ≡ ok us
fraction_micros-fraction_text us h = elim (Bool-cases (us == 0)) [
  | inl e ↦ rw e (unfold fraction_micros in ap ok (sym ((==_iff us 0).0 e)))
  | inr e ↦ rw e (fraction_micros-trim_zeros us e h)
]

time_parts-Joined :
    (h m s : ℕ)
    → h < 10 ^ 2
    → m < 10 ^ 2
    → s < 10 ^ 2
    → time_parts (split b':' (Joined b':' (padded 2 h) (padded 2 m) (padded 2 s))) ≡ ok (h, m, s)
unfolding time_parts
time_parts-Joined h m s hh hm hs =
    rw
      (
        split-Joined b':' (padded 2 h) (padded 2 m) (padded 2 s) (padded-Without b':' 2 h refl hh)
            (padded-Without b':' 2 m refl hm) (padded-Without b':' 2 s refl hs),
        parse_unsigned-padded 0xffff_ffff 1 h hh (omega (arith, hh)),
        parse_unsigned-padded 0xffff_ffff 1 m hm (omega (arith, hm)),
        parse_unsigned-padded 0xffff_ffff 1 s hs (omega (arith, hs)),
      )
      refl

pub parse_time-Joined :
    (h m s us : ℕ)
    → h < 24
    → m < 60
    → s < 60
    → us < 10 ^ 6
    → parse_time (Joined b':' (padded 2 h) (padded 2 m) (padded 2 s) ++ fraction us)
      ≡ ok (h, m, s, us)
unfolding parse_time validate_time
parse_time-Joined h m s us hh hm hs hus =
    let base = Joined b':' (padded 2 h) (padded 2 m) (padded 2 s) in
    let no_stop : Without b'.' base =
      Joined-Without b'.' b':' (padded 2 h) (padded 2 m) (padded 2 s) refl
        (padded-Without b'.' 2 h refl (omega arith)) (padded-Without b'.' 2 m refl (omega arith))
        (padded-Without b'.' 2 s refl (omega arith)) in
    let b1 : ltb 23 h ≡ false = ground arith in
    let b2 : ltb 59 m ≡ false = ground arith in
    let b3 : ltb 59 s ≡ false = ground arith in
    let b4 : ltb 999_999 us ≡ false = ground arith in
    rw
      (
        base_and_fraction-fraction base us no_stop,
        time_parts-Joined h m s (omega arith) (omega arith) (omega arith),
        fraction_micros-fraction_text us hus,
        b1,
        b2,
        b3,
        b4,
      )
      refl
