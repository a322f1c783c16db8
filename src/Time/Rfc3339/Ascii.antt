-- ===== src/Time/Rfc3339/Ascii.antt =====
-- crates/core/src/kronroe_time.rs: `to_rfc3339_z` writes ASCII.
use kronroe.Common.{ℕ, ◌≡◌, true, arith, ◌==◌}
use kronroe.Common.Decimal.{padded}
use kronroe.Common.Int.{ℤ, pos, negsuc}
use kronroe.Common.Text.{Text}
use kronroe.Common.Utf8.{is_utf8}
use kronroe.Common.Utf8.Laws.{
  AllAscii, AllAscii-append, AllAscii-digits, AllAscii-if, AllAscii-is_utf8,
}
use kronroe.Time.{KronroeTimestamp, div_euclid, rem_euclid, micros_per_day}
use kronroe.Time.Calendar.{civil_from_days}
use kronroe.Time.Rfc3339.{
  format_year, trim_zeros, format_date, format_fraction, format_time, to_rfc3339_z,
}
use kronroe.Time.Rfc3339.Digits.{padded-AllDigits, trim_zeros-digits}

padded-ascii : (w n : ℕ) → AllAscii (padded w n)
padded-ascii w n = AllAscii-digits (padded w n) (padded-AllDigits w n)

year-ascii : (y : ℤ) → AllAscii (format_year y)
unfolding format_year
year-ascii (pos n) = padded-ascii _ n
year-ascii (negsuc n) = (omega arith, padded-ascii _ _)

date-ascii : (days : ℤ) (rest : Text) → AllAscii rest → AllAscii (format_date days rest)
unfolding format_date
date-ascii days rest h =
    AllAscii-append (format_year (civil_from_days days).year) _ (year-ascii _) (
      omega arith,
      AllAscii-append (padded 2 (civil_from_days days).month) _ (padded-ascii 2 _) (
        omega arith,
        AllAscii-append (padded 2 (civil_from_days days).day) rest (padded-ascii 2 _) h,
      ),
    )

fraction-ascii : (us : ℕ) → AllAscii (format_fraction us)
unfolding format_fraction
fraction-ascii us =
    AllAscii-if (us == 0) _ _ (omega arith, tt)
      (
        omega arith,
        AllAscii-append (trim_zeros (padded 6 us)) _
            (AllAscii-digits _ (trim_zeros-digits (padded 6 us) (padded-AllDigits 6 us)).0)
            (omega arith, tt),
      )

time-ascii : (m : ℕ) → AllAscii (format_time m)
unfolding format_time
time-ascii m = AllAscii-append (padded 2 _) _ (padded-ascii 2 _) (
  omega arith,
  AllAscii-append (padded 2 _) _ (padded-ascii 2 _)
      (omega arith, AllAscii-append (padded 2 _) _ (padded-ascii 2 _) (fraction-ascii _)),
)

pub to_rfc3339_z-is_utf8 : (t : KronroeTimestamp) → is_utf8 (to_rfc3339_z t) ≡ true
unfolding to_rfc3339_z
to_rfc3339_z-is_utf8 t = AllAscii-is_utf8 _ (
    date-ascii (div_euclid t.unix_micros micros_per_day) _
      (omega arith, time-ascii (rem_euclid t.unix_micros micros_per_day)))
