-- ===== src/Time/Calendar/Valid.antt =====
-- crates/core/src/kronroe_time.rs: the dates of `civil_from_days` pass `validate_date`.
use kronroe.Common.{
  ℕ, Bool, ◌+◌, ◌-◌, ◌*◌, ◌/◌, ◌%◌, ◌<◌, ◌≤◌, ◌≡◌, ◌≢◌, ◌⊎◌, refl, ap, ◌∙◌, true, false, ltb, leb,
  if◌then◌else◌, arith, inl, inr,
}
use kronroe.Common.Int.{ℤ, pos, negsuc, ◌+ℤ◌, ◌-ℤ◌, ◌*ℤ◌, ◌≤ℤ◌, pos_part}
use kronroe.Time.{rem_euclid, div_trunc}
use kronroe.Time.Calendar.{
  Civil, era_of, of_era, year_start, month_start, year_of_era, civil_of_era, civil_from_days,
  validate_date, days_in_month, is_leap_year,
}
use kronroe.Time.Calendar.Dates.{year_start_le, year_of_era-lt}

-- A year of 366 days ends in the February of a leap year.
leap_end :
    (doe : ℕ)
    → doe < 146097
    → doe ≡ year_start (year_of_era doe) + 365
    → ((year_of_era doe + 1) % 4 ≡ 0)
      × (((year_of_era doe + 1) % 100 ≢ 0) ⊎ ((year_of_era doe + 1) % 400 ≡ 0))
unfolding year_of_era year_start
leap_end doe h e = (omega arith, omega arith)

abbrev pub month_of : ℕ → ℕ
month_of mp = if ltb mp 10 then mp + 3 else mp - 9

-- A day of a year that begins in March, in its month.
valid_day :
    (year : ℤ) (doy : ℕ)
    → doy ≤ 365
    → (doy ≡ 365 → is_leap_year year ≡ true)
    → validate_date year
        (month_of ((5 * doy + 2) / 153))
        (doy - month_start ((5 * doy + 2) / 153) + 1)
      ≡ true
unfolding validate_date days_in_month month_start
valid_day year doy h leap = ground arith

leap_of_residues :
    (n : ℕ) → n % 4 ≡ 0 → ((n % 100 ≢ 0) ⊎ (n % 400 ≡ 0)) → is_leap_year (pos n) ≡ true
unfolding is_leap_year rem_euclid
leap_of_residues n h g = ground arith

-- The year of a date of an era that is not negative.
abbrev pub year_number : ℕ → ℕ → ℕ
year_number e doe =
    let doy = doe - year_start (year_of_era doe) in
    let y = year_of_era doe + e * 400 in if leb (month_of ((5 * doy + 2) / 153)) 2 then y + 1 else y

year_pos :
    (b : Bool) (y e : ℕ)
    → (if b then pos y +ℤ pos e *ℤ pos 400 +ℤ pos 1 else pos y +ℤ pos e *ℤ pos 400)
      ≡ pos (if b then y + e * 400 + 1 else y + e * 400)
unfolding ◌+ℤ◌ ◌*ℤ◌
year_pos true y e = ground arith
year_pos false y e = ground arith

year_of_full :
    (e doe : ℕ)
    → doe - year_start (year_of_era doe) ≡ 365
    → year_number e doe ≡ year_of_era doe + e * 400 + 1
year_of_full e doe full = rw full refl

civil_year : (e doe : ℕ) → (civil_of_era (pos e) doe).year ≡ pos (year_number e doe)
unfolding civil_of_era
civil_year e doe = year_pos _ (year_of_era doe) e

leap_year :
    (e doe : ℕ)
    → doe < 146097
    → doe - year_start (year_of_era doe) ≡ 365
    → is_leap_year (pos (year_of_era doe + e * 400 + 1)) ≡ true
leap_year e doe h full =
    let (four, other) = leap_end doe h (omega arith) in
    leap_of_residues (year_of_era doe + e * 400 + 1) (omega (arith, four)) (residue other)
  where
    residue :
        ((year_of_era doe + 1) % 100 ≢ 0) ⊎ ((year_of_era doe + 1) % 400 ≡ 0)
        → ((year_of_era doe + e * 400 + 1) % 100 ≢ 0) ⊎ ((year_of_era doe + e * 400 + 1) % 400 ≡ 0)
    residue (inl n) = inl (omega arith)
    residue (inr z) = inr (omega arith)

civil_valid :
    (e doe : ℕ)
    → doe < 146097
    → validate_date
        (civil_of_era (pos e) doe).year
        (civil_of_era (pos e) doe).month
        (civil_of_era (pos e) doe).day
      ≡ true
civil_valid e doe h =
    let (lo, hi) = year_start_le doe h in
    rw (civil_year e doe) (
      unfold civil_of_era in
      valid_day (pos (year_number e doe)) (doe - year_start (year_of_era doe))
        (omega (arith, lo, hi)) λ full. rw (year_of_full e doe full) (leap_year e doe h full))

era_of_pos :
    (d : ℕ) → (era_of (pos d) 146097 ≡ pos (d / 146097)) × (of_era (pos d) 146097 ≡ d % 146097)
unfolding era_of of_era div_trunc ◌-ℤ◌ ◌*ℤ◌
era_of_pos d = (ground arith, ground arith)

-- The days from 1 March of year 0 on.
abbrev pub day_number : ℤ → ℕ
day_number days = pos_part (days +ℤ pos 719468)

day_number_lem : (days : ℤ) → negsuc 719467 ≤ℤ days → days +ℤ pos 719468 ≡ pos (day_number days)
unfolding ◌+ℤ◌
day_number_lem (pos n) h = ground arith
day_number_lem (negsuc n) h = ground arith

civil_of_number :
    (days : ℤ)
    → negsuc 719467 ≤ℤ days
    → civil_from_days days
      ≡ civil_of_era (pos (day_number days / 146097)) (day_number days % 146097)
unfolding civil_from_days
civil_of_number days h =
    ap (λ z. civil_of_era (era_of z 146097) (of_era z 146097)) (day_number_lem days h)
    ∙ ap (λ z. civil_of_era z (of_era (pos (day_number days)) 146097))
        (era_of_pos (day_number days)).0
    ∙ ap (civil_of_era (pos (day_number days / 146097))) (era_of_pos (day_number days)).1

-- From 1 March of year 0 on, a date is valid and its year is a number.
pub civil_from_days_valid :
    (days : ℤ)
    → negsuc 719467 ≤ℤ days
    → (validate_date
          (civil_from_days days).year
          (civil_from_days days).month
          (civil_from_days days).day
        ≡ true)
      × ((civil_from_days days).year
          ≡ pos (year_number (day_number days / 146097) (day_number days % 146097)))
civil_from_days_valid days h =
    let e = civil_of_number days h in
    let d = day_number days in
    (
      ap (λ (c : Civil). validate_date c.year c.month c.day) e
          ∙ civil_valid (d / 146097) (d % 146097) (omega arith),
      ap (λ (c : Civil). c.year) e ∙ civil_year (d / 146097) (d % 146097),
    )

pub validate_date_bounds :
    (year : ℤ) (month day : ℕ) → validate_date year month day ≡ true → (month < 100) × (day < 100)
unfolding validate_date days_in_month
validate_date_bounds year month day h = (ground arith, ground arith)

pub year_number_le : (d : ℕ) → year_number (d / 146097) (d % 146097) ≤ d / 146097 * 400 + 400
year_number_le d = ground (arith, year_of_era-lt (d % 146097))
