-- ===== src/Time/Rfc3339/Negative.antt =====
-- crates/core/src/kronroe_time.rs: `to_rfc3339_z` of a timestamp before year 0.
use kronroe.Common.Decimal.{padded, width_of}
use kronroe.Common.{ℕ, suc, ◌≡◌, refl, [], ◌∷◌, ◌++◌}
use kronroe.Common.Int.{negsuc}
use kronroe.Common.Parse.Laws.{Without, split_once-append, strip_suffix-append}
use kronroe.Common.Text.{Text}
use kronroe.Time.{KronroeTimestamp, div_euclid, micros_per_day}
use kronroe.Time.Calendar.{civil_from_days}
use kronroe.Time.Rfc3339.{
  parse_date, time_and_offset, date_and_rest, parse_rfc3339, format_year, to_rfc3339_z,
}
use kronroe.Time.Rfc3339.Pieces.{Joined, Joined-Without}
use kronroe.Common.{List}
use kronroe.Common.Parse.{split, parse_signed}
use kronroe.Common.Parse.Laws.{AllDigits-Without}
use kronroe.Error.{ErrorKind, fail}
use kronroe.Time.Rfc3339.Digits.{padded-AllDigits}
use kronroe.Time.Rfc3339.RoundTrip.{day_of, time_text, to_rfc3339_z-texts}
use kronroe.Time.Rfc3339.{date_parts}

date_parts_nameless : (ps : List Text) → date_parts ([] ∷ ps) ≡ fail ErrorKind.internal
unfolding date_parts parse_signed
date_parts_nameless [] = refl
date_parts_nameless (m ∷ []) = refl
date_parts_nameless (m ∷ d ∷ []) = refl
date_parts_nameless (m ∷ d ∷ x ∷ ps) = refl

date-Without_T :
    (n m d : ℕ) → Without b'T' (Joined b'-' (format_year (negsuc n)) (padded 2 m) (padded 2 d))
unfolding format_year
date-Without_T n m d =
    Joined-Without b'T' b'-' (format_year (negsuc n)) (padded 2 m) (padded 2 d) refl
      (
        refl,
        AllDigits-Without b'T' (padded (width_of 6 3 (suc n)) (suc n)) refl (padded-AllDigits _ _),
      )
      (AllDigits-Without b'T' (padded 2 m) refl (padded-AllDigits 2 m))
      (AllDigits-Without b'T' (padded 2 d) refl (padded-AllDigits 2 d))

parse_date_negative :
    (n m d : ℕ)
    → parse_date (Joined b'-' (format_year (negsuc n)) (padded 2 m) (padded 2 d))
      ≡ fail ErrorKind.internal
unfolding parse_date format_year split
parse_date_negative n m d = date_parts_nameless _

-- Parsing the RFC 3339 text of a time before year 0 fails with an internal error.
pub parse_rfc3339_negative_year :
    (t : KronroeTimestamp) {n : ℕ}
    → (civil_from_days (div_euclid t.unix_micros micros_per_day)).year ≡ negsuc n
    → parse_rfc3339 (to_rfc3339_z t) ≡ fail ErrorKind.internal
unfolding parse_rfc3339 date_and_rest time_and_offset
parse_rfc3339_negative_year t {n} e =
    let u = t.unix_micros in
    let c = civil_from_days (day_of u) in
    rw
      (
        to_rfc3339_z-texts u,
        e,
        split_once-append b'T'
            (Joined b'-' (format_year (negsuc n)) (padded 2 c.month) (padded 2 c.day))
            (time_text u ++ (b'Z' ∷ [])) (date-Without_T n c.month c.day),
        strip_suffix-append b'Z' (time_text u),
        parse_date_negative n c.month c.day,
      )
      refl
