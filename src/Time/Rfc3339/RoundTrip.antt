-- ===== src/Time/Rfc3339/RoundTrip.antt =====
-- crates/core/src/kronroe_time.rs: `parse_rfc3339` after `to_rfc3339_z`.
use mathlib.Core.Path.{subst}
use mathlib.Core.List.{append_assoc}
use kronroe.Common.Decimal.{padded}
use kronroe.Common.{
  ℕ, suc, ◌+◌, ◌*◌, ◌/◌, ◌%◌, ◌^◌, ◌≤◌, ◌<◌, ◌≡◌, refl, true, false, [], ◌∷◌, ◌++◌, ltb, arith,
}
use kronroe.Common.Int.{ℤ, pos, negsuc, ◌≤ℤ◌, ◌+ℤ◌, ◌-ℤ◌, ◌*ℤ◌}
use kronroe.Common.Parse.Laws.{Without, split_once-append, strip_suffix-append}
use kronroe.Common.Text.{Text}
use kronroe.Error.{ok}
use kronroe.Time.{
  KronroeTimestamp, i64_max, in_range, saturate, div_euclid, rem_euclid, micros_per_day,
  micros_per_hour, micros_per_minute, micros_per_second,
}
use kronroe.Time.Calendar.{validate_date, civil_from_days}
use kronroe.Time.Calendar.Dates.{days_from_civil-civil_from_days}
use kronroe.Time.Calendar.Valid.{
  civil_from_days_valid, validate_date_bounds, year_number, year_number_le, day_number,
}
use kronroe.Time.Rfc3339.{
  validate_time, from_utc_components, parse_date, time_and_offset, offset_micros, date_and_rest,
  parse_rfc3339, format_year, format_date, format_time, to_rfc3339_z,
}
use kronroe.Time.Rfc3339.Pieces.{
  Joined, Joined-Without, parse_date-Joined, format_year_pos, fraction, fraction-Z,
  parse_time-Joined, padded-Without, year_width,
}

-- 1 March of year 0, in days and in microseconds.
abbrev first_day : ℤ
first_day = negsuc 719_467

abbrev pub first_micros : ℤ
first_micros = negsuc 62_162_035_199_999_999

-- The day and the microsecond of the day of a timestamp.
abbrev pub day_of : ℤ → ℤ
day_of u = div_euclid u micros_per_day

abbrev time_of : ℤ → ℕ
time_of u = rem_euclid u micros_per_day

whole_day : (u : ℤ) → day_of u *ℤ pos micros_per_day +ℤ pos (time_of u) ≡ u
unfolding div_euclid rem_euclid ◌*ℤ◌ ◌+ℤ◌
whole_day (pos n) = ground arith
whole_day (negsuc n) = ground arith

time_of-lt : (u : ℤ) → time_of u < micros_per_day
unfolding rem_euclid
time_of-lt (pos n) = omega arith
time_of-lt (negsuc n) = omega arith

day_bounds :
    (u : ℤ)
    → first_micros ≤ℤ u
    → u ≤ℤ i64_max
    → (first_day ≤ℤ day_of u) × (day_of u ≤ℤ pos 106_751_991)
unfolding div_euclid
day_bounds (pos n) l h = (omega arith, omega arith)
day_bounds (negsuc n) l h = (omega arith, omega arith)

-- The sums that are checked do not overflow.
sums_fit :
    (u : ℤ)
    → first_micros ≤ℤ u
    → u ≤ℤ i64_max
    → (in_range (day_of u *ℤ pos micros_per_day) ≡ true) × (in_range u ≡ true)
unfolding div_euclid ◌*ℤ◌
sums_fit (pos n) l h = (ground arith, ground arith)
sums_fit (negsuc n) l h = (ground arith, ground arith)

-- The parts of the time of day.
abbrev hours : ℤ → ℕ
hours u = time_of u / micros_per_hour

abbrev minutes : ℤ → ℕ
minutes u = time_of u % micros_per_hour / micros_per_minute

abbrev seconds : ℤ → ℕ
seconds u = time_of u % micros_per_minute / micros_per_second

abbrev rest_of_second : ℤ → ℕ
rest_of_second u = time_of u % micros_per_second

sum_of_parts :
    (m : ℕ)
    → m / micros_per_hour * micros_per_hour
        + m % micros_per_hour / micros_per_minute * micros_per_minute
        + m % micros_per_minute / micros_per_second * micros_per_second
        + m % micros_per_second
      ≡ m
sum_of_parts m = omega arith

time_bounds :
    (m : ℕ)
    → m < micros_per_day
    → (m / micros_per_hour < 24)
      × (m % micros_per_hour / micros_per_minute < 60)
      × (m % micros_per_minute / micros_per_second < 60)
      × (m % micros_per_second < 10 ^ 6)
time_bounds m h = (omega arith, omega arith, omega arith, omega arith)

components-day :
    (u : ℤ)
    → first_micros ≤ℤ u
    → u ≤ℤ i64_max
    → let c = civil_from_days (day_of u) in
      from_utc_components c.year c.month c.day (hours u) (minutes u) (seconds u) (rest_of_second u)
      ≡ ok (record { unix_micros = u })
unfolding from_utc_components validate_time
components-day u l h =
    let (first, last) = day_bounds u l h in
    let (whole_fits, fits) = sums_fit u l h in
    let (b1, b2, b3, b4) = time_bounds (time_of u) (time_of-lt u) in
    let t1 : ltb 23 (hours u) ≡ false = ground (arith, b1) in
    let t2 : ltb 59 (minutes u) ≡ false = ground (arith, b2) in
    let t3 : ltb 59 (seconds u) ≡ false = ground (arith, b3) in
    let t4 : ltb 999_999 (rest_of_second u) ≡ false = ground (arith, b4) in
    rw
      (
        (civil_from_days_valid (day_of u) first).0,
        t1,
        t2,
        t3,
        t4,
        days_from_civil-civil_from_days (day_of u) (omega (arith, first)) (omega (arith, last)),
        whole_fits,
        sum_of_parts (time_of u),
        whole_day u,
        fits,
      )
      refl

-- The text of a timestamp, around its separators.
abbrev date_text : ℤ → Text
date_text u =
    let c = civil_from_days (day_of u) in
    Joined b'-' (format_year c.year) (padded 2 c.month) (padded 2 c.day)

abbrev pub time_text : ℤ → Text
time_text u =
    Joined b':' (padded 2 (hours u)) (padded 2 (minutes u)) (padded 2 (seconds u))
    ++ fraction (rest_of_second u)

pub to_rfc3339_z-texts :
    (u : ℤ)
    → to_rfc3339_z (record { unix_micros = u })
      ≡ date_text u ++ (b'T' ∷ (time_text u ++ (b'Z' ∷ [])))
unfolding to_rfc3339_z format_date format_time
to_rfc3339_z-texts u = rw (fraction-Z (rest_of_second u)) (simp append_assoc)

date_reads :
    (year : ℤ) (n m d : ℕ)
    → year ≡ pos n
    → n ≤ 1_000_000
    → validate_date year m d ≡ true
    → (parse_date (Joined b'-' (format_year year) (padded 2 m) (padded 2 d)) ≡ ok (year, m, d))
      × Without b'T' (Joined b'-' (format_year year) (padded 2 m) (padded 2 d))
date_reads year n m d e small v =
    let valid : validate_date (pos n) m d ≡ true = subst (λ y. validate_date y m d ≡ true) e v in
    let wide : n < 10 ^ 10 = omega (arith, small) in
    let (printed, fits) = format_year_pos n wide in
    let (month, day) = validate_date_bounds (pos n) m d valid in
    rw e (
      parse_date-Joined n m d wide (omega (arith, small)) valid,
      Joined-Without b'T' b'-' (format_year (pos n)) (padded 2 m) (padded 2 d) refl
          (rw printed (padded-Without b'T' (suc (year_width n)) n refl fits))
          (padded-Without b'T' 2 m refl month) (padded-Without b'T' 2 d refl day),
    )

day_number_le : (days : ℤ) → days ≤ℤ pos 106_751_991 → day_number days ≤ 107_471_459
unfolding ◌+ℤ◌
day_number_le (pos n) h = ground arith
day_number_le (negsuc n) h = ground arith

year_number_small :
    (days : ℤ)
    → first_day ≤ℤ days
    → days ≤ℤ pos 106_751_991
    → year_number (day_number days / 146097) (day_number days % 146097) ≤ 1_000_000
year_number_small days l h = omega (arith, year_number_le (day_number days), day_number_le days h)

parse_date-date_text :
    (u : ℤ)
    → first_micros ≤ℤ u
    → u ≤ℤ i64_max
    → let c = civil_from_days (day_of u) in
      (parse_date (date_text u) ≡ ok (c.year, c.month, c.day)) × Without b'T' (date_text u)
parse_date-date_text u l h =
    let (first, last) = day_bounds u l h in
    let (valid, year) = civil_from_days_valid (day_of u) first in
    date_reads (civil_from_days (day_of u)).year _ (civil_from_days (day_of u)).month
      (civil_from_days (day_of u)).day year (year_number_small (day_of u) first last) valid

saturate-same : (u : ℤ) → in_range u ≡ true → saturate (u -ℤ pos 0) ≡ u
unfolding saturate ◌-ℤ◌
saturate-same (pos n) h = ground arith
saturate-same (negsuc n) h = ground arith

-- A time between 1 March of year 0 and the last that an i64 holds is read back from the RFC 3339
-- text that is written of it.
pub parse_rfc3339-to_rfc3339_z :
    (t : KronroeTimestamp)
    → first_micros ≤ℤ t.unix_micros
    → t.unix_micros ≤ℤ i64_max
    → parse_rfc3339 (to_rfc3339_z t) ≡ ok t
unfolding parse_rfc3339 date_and_rest time_and_offset offset_micros
parse_rfc3339-to_rfc3339_z t l h =
    let u = t.unix_micros in
    let (date, no_t) = parse_date-date_text u l h in
    let (b1, b2, b3, b4) = time_bounds (time_of u) (time_of-lt u) in
    rw
      (
        to_rfc3339_z-texts u,
        split_once-append b'T' (date_text u) (time_text u ++ (b'Z' ∷ [])) no_t,
        strip_suffix-append b'Z' (time_text u),
        date,
        parse_time-Joined (hours u) (minutes u) (seconds u) (rest_of_second u) b1 b2 b3 b4,
        components-day u l h,
        saturate-same u (sums_fit u l h).1,
      )
      refl
