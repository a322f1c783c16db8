-- ===== src/Time/Calendar/Dates.antt =====
-- crates/core/src/kronroe_time.rs: `days_from_civil` after `civil_from_days`.
use kronroe.Common.{
  ℕ, ◌+◌, ◌-◌, ◌*◌, ◌/◌, ◌<◌, ◌≤◌, ◌≡◌, refl, ap, ◌∙◌, true, false, ltb, leb, if◌then◌else◌, arith,
  inl, inr, Bool-cases,
}
use kronroe.Common.Int.{ℤ, pos, negsuc, ◌+ℤ◌, ◌-ℤ◌, ◌*ℤ◌, ◌≤ℤ◌, pos_part, neg_part, int_laws}
use kronroe.Time.{div_trunc, rem_euclid}
use kronroe.Time.Calendar.{
  era_of, of_era, wrap_i32, year_start, month_start, days_from_civil, year_of_era, civil_of_era,
  civil_from_days,
}

wrap_i32-small : (z : ℤ) → negsuc 0x7fff_ffff ≤ℤ z → z ≤ℤ pos 0x7fff_ffff → wrap_i32 z ≡ z
unfolding wrap_i32 rem_euclid ◌+ℤ◌
wrap_i32-small (pos n) l h = ground arith
wrap_i32-small (negsuc n) l h = ground arith

day_of_era :
    (z : ℤ)
    → (of_era z 146097 < 146097) × (z ≡ era_of z 146097 *ℤ pos 146097 +ℤ pos (of_era z 146097))
unfolding of_era era_of div_trunc ◌+ℤ◌ ◌-ℤ◌ ◌*ℤ◌
day_of_era (pos n) = (ground arith, ground arith)
day_of_era (negsuc n) = (ground arith, ground arith)

year_division : (z : ℤ) → (of_era z 400 < 400) × (z ≡ era_of z 400 *ℤ pos 400 +ℤ pos (of_era z 400))
unfolding of_era era_of div_trunc ◌+ℤ◌ ◌-ℤ◌ ◌*ℤ◌
year_division (pos n) = (ground arith, ground arith)
year_division (negsuc n) = (ground arith, ground arith)

times_parts :
    (e : ℤ)
    → (pos_part (e *ℤ pos 400) ≡ pos_part e * 400) × (neg_part (e *ℤ pos 400) ≡ neg_part e * 400)
unfolding ◌*ℤ◌
times_parts (pos n) = (ground arith, ground arith)
times_parts (negsuc n) = (ground arith, ground arith)

-- A year of an era has that era and that place in it.
year_era :
    (e : ℤ) (r : ℕ)
    → r < 400
    → (era_of (pos r +ℤ e *ℤ pos 400) 400 ≡ e) × (of_era (pos r +ℤ e *ℤ pos 400) 400 ≡ r)
year_era e r h =
    let (small, split) = year_division (pos r +ℤ e *ℤ pos 400) in
    let era : ℤ = era_of (pos r +ℤ e *ℤ pos 400) 400 in
    let p : pos_part (pos r +ℤ e *ℤ pos 400) ≡ _ = ap pos_part split in
    let n : neg_part (pos r +ℤ e *ℤ pos 400) ≡ _ = ap neg_part split in
    (
      omega (int_laws, h, small, p, n, times_parts e, times_parts era),
      omega (int_laws, h, small, p, n, times_parts e, times_parts era),
    )

pub year_of_era-lt : (doe : ℕ) → doe < 146097 → year_of_era doe < 400
unfolding year_of_era
year_of_era-lt doe h = omega arith

pub year_start_le :
    (doe : ℕ)
    → doe < 146097
    → (year_start (year_of_era doe) ≤ doe) × (doe ≤ year_start (year_of_era doe) + 365)
unfolding year_of_era year_start
year_start_le doe h = (omega arith, omega arith)

abbrev month_of : ℕ → ℕ
month_of mp = if ltb mp 10 then mp + 3 else mp - 9

abbrev year_of : ℕ → ℤ → ℤ
year_of mp y = if leb (month_of mp) 2 then y +ℤ pos 1 else y

march_year :
    (mp : ℕ) (y : ℤ)
    → mp < 12
    → ((if leb (month_of mp) 2 then year_of mp y -ℤ pos 1 else year_of mp y) ≡ y)
      × ((if ltb 2 (month_of mp) then month_of mp - 3 else month_of mp + 9) ≡ mp)
march_year mp y h = elim (Bool-cases (ltb mp 10)) [
  | inl l ↦
      let late : leb (mp + 3) 2 ≡ false = ground arith in
      let past : ltb 2 (mp + 3) ≡ true = ground arith in
      (rw (l, late) refl, rw (l, past) (omega arith))
  | inr g ↦
      let early : leb (mp - 9) 2 ≡ true = ground arith in
      let before : ltb 2 (mp - 9) ≡ false = ground arith in
      (rw (g, early) (omega int_laws), rw (g, before) (ground arith))
]

days_of_parts :
    (era : ℤ) (yoe mp day : ℕ)
    → yoe < 400
    → mp < 12
    → days_from_civil (year_of mp (pos yoe +ℤ era *ℤ pos 400)) (month_of mp) day
      ≡ wrap_i32 (
          era *ℤ pos 146097
          +ℤ (pos (year_start yoe) +ℤ (pos (month_start mp + day) -ℤ pos 1))
          -ℤ pos 719468)
unfolding days_from_civil
days_of_parts era yoe mp day h h' =
    let (y, m) = march_year mp (pos yoe +ℤ era *ℤ pos 400) h' in
    let (e, r) = year_era era yoe h in rw (y, m, r, e) refl

parts_bounds :
    (doe : ℕ)
    → doe < 146097
    → ((5 * (doe - year_start (year_of_era doe)) + 2) / 153 < 12)
      × (month_start ((5 * (doe - year_start (year_of_era doe)) + 2) / 153)
          ≤ doe - year_start (year_of_era doe))
unfolding month_start
parts_bounds doe h =
    let (lo, hi) = year_start_le doe h in (omega (arith, lo, hi), omega (arith, lo, hi))

-- For every number of days that an i32 holds, before 1970 included, the days of the civil date
-- of the number are the number.
pub days_from_civil-civil_from_days :
    (days : ℤ)
    → negsuc 0x7fff_ffff ≤ℤ days
    → days ≤ℤ pos 0x7fff_ffff
    → days_from_civil
        (civil_from_days days).year
        (civil_from_days days).month
        (civil_from_days days).day
      ≡ days
unfolding civil_from_days civil_of_era
days_from_civil-civil_from_days days l h =
    let (small, split) = day_of_era (days +ℤ pos 719468) in
    let era : ℤ = era_of (days +ℤ pos 719468) 146097 in
    let doe : ℕ = of_era (days +ℤ pos 719468) 146097 in
    let yoe : ℕ = year_of_era doe in
    let mp : ℕ = (5 * (doe - year_start yoe) + 2) / 153 in
    let (mp_lt, month_le) = parts_bounds doe small in
    let (year_le, year_ge) = year_start_le doe small in
    days_of_parts era yoe mp (doe - year_start yoe - month_start mp + 1) (year_of_era-lt doe small)
      mp_lt
    ∙ ap wrap_i32 (total days era doe yoe mp split month_le year_le)
    ∙ wrap_i32-small days l h
  where
    total :
        (days era : ℤ) (doe yoe mp : ℕ)
        → days +ℤ pos 719468 ≡ era *ℤ pos 146097 +ℤ pos doe
        → month_start mp ≤ doe - year_start yoe
        → year_start yoe ≤ doe
        → era *ℤ pos 146097
            +ℤ (pos (year_start yoe)
                +ℤ (pos (month_start mp + (doe - year_start yoe - month_start mp + 1)) -ℤ pos 1))
            -ℤ pos 719468
          ≡ days
    total days era doe yoe mp split month_le year_le =
        let p = ap pos_part split in
        let n = ap neg_part split in omega (int_laws, p, n, month_le, year_le)
