-- ===== src/Time/Calendar.antt =====
-- crates/core/src/kronroe_time.rs: `days_from_civil` and `civil_from_days`, the days since 1970 of the
-- proleptic Gregorian calendar, and the check of a date.
pub mod Dates
pub mod Valid
use kronroe.Common.{
  ℕ, ◌+◌, ◌-◌, ◌*◌, ◌/◌, ◌%◌, ◌^◌, Bool, true, false, not, ◌&&◌, ◌||◌, ltb, leb, ◌==◌,
  if◌then◌else◌,
}
use kronroe.Common.Int.{ℤ, pos, negsuc, sub_ℕ, ◌+ℤ◌, ◌-ℤ◌, ◌*ℤ◌, leb_ℤ, pos_part}
use kronroe.Time.{div_trunc, rem_euclid}

pub record Civil : Type 0 where
  pub year : ℤ
  pub month : ℕ
  pub day : ℕ

-- `if z >= 0 { z } else { z - (d - 1) } / d`
unfoldable pub era_of : ℤ → ℕ → ℤ
unfolding div_trunc
era_of z d = div_trunc (if leb_ℤ (pos 0) z then z else z -ℤ pos (d - 1)) d

-- What is left of a number after its eras, which is not negative.
unfoldable pub of_era : ℤ → ℕ → ℕ
unfolding era_of
of_era z d = pos_part (z -ℤ era_of z d *ℤ pos d)

-- An `i32` in a release build, where the arithmetic wraps.
unfoldable pub wrap_i32 : ℤ → ℤ
unfolding rem_euclid
wrap_i32 z = sub_ℕ (rem_euclid (z +ℤ pos 0x8000_0000) 0x1_0000_0000) 0x8000_0000

-- The first day of a year of an era, which begins in March, from the first day of the era.
unfoldable pub year_start : ℕ → ℕ
year_start yoe = yoe * 365 + yoe / 4 - yoe / 100

-- The days before a month of a year that begins in March.
unfoldable pub month_start : ℕ → ℕ
month_start mp = (153 * mp + 2) / 5

-- The sum is formed in `i32`: it is wrapped as a whole, since wrapping is compatible with sums and
-- products. A year within 400 of the bounds of `i32` is not modelled.
unfoldable pub days_from_civil : ℤ → ℕ → ℕ → ℤ
unfolding era_of of_era wrap_i32 year_start month_start
days_from_civil year month day =
    let y = if leb month 2 then year -ℤ pos 1 else year in
    let doy = pos (month_start (if ltb 2 month then month - 3 else month + 9) + day) -ℤ pos 1 in
    let doe = pos (year_start (of_era y 400)) +ℤ doy in
    wrap_i32 (era_of y 400 *ℤ pos 146097 +ℤ doe -ℤ pos 719468)

unfoldable pub year_of_era : ℕ → ℕ
year_of_era doe = (doe - doe / 1460 + doe / 36524 - doe / 146096) / 365

-- The date of a day of an era.
unfoldable pub civil_of_era : ℤ → ℕ → Civil
unfolding year_of_era year_start month_start
civil_of_era era doe =
    let yoe = year_of_era doe in
    let y = pos yoe +ℤ era *ℤ pos 400 in
    let doy = doe - year_start yoe in
    let mp = (5 * doy + 2) / 153 in
    let month = if ltb mp 10 then mp + 3 else mp - 9 in
    record {
      year = if leb month 2 then y +ℤ pos 1 else y;
      month = month;
      day = doy - month_start mp + 1;
    }

-- The casts of the year to `i32` keep it for the days of any timestamp.
unfoldable pub civil_from_days : ℤ → Civil
unfolding era_of of_era civil_of_era
civil_from_days days =
    let d = days +ℤ pos 719468 in civil_of_era (era_of d 146097) (of_era d 146097)

unfoldable pub is_leap_year : ℤ → Bool
unfolding rem_euclid
is_leap_year year =
    ((rem_euclid year 4 == 0) && not (rem_euclid year 100 == 0)) || (rem_euclid year 400 == 0)

unfoldable pub days_in_month : ℤ → ℕ → ℕ
unfolding is_leap_year
days_in_month year month =
    if (month == 1)
      || (month == 3)
      || (month == 5)
      || (month == 7)
      || (month == 8)
      || (month == 10)
      || (month == 12)
    then 31
    else if (month == 4) || (month == 6) || (month == 9) || (month == 11)
    then 30
    else if month == 2
    then (if is_leap_year year then 29 else 28)
    else 0

-- `validate_date`, whether it returns `Ok`
unfoldable pub validate_date : ℤ → ℕ → ℕ → Bool
unfolding days_in_month
validate_date year month day =
    leb 1 month && leb month 12 && not (day == 0) && leb day (days_in_month year month)
