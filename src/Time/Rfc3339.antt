-- ===== src/Time/Rfc3339.antt =====
-- crates/core/src/kronroe_time.rs: the RFC 3339 reader and writer, and the checked constructors.
pub mod Digits
pub mod Pieces
pub mod RoundTrip
pub mod Ascii
pub mod Negative
use kronroe.Common.Decimal.{padded, width_of, digit_char}
use kronroe.Common.{
  ℕ, zero, suc, ◌+◌, ◌*◌, ◌/◌, ◌%◌, ◌^◌, Bool, true, false, not, ◌||◌, Option, none, some, List, [],
  ◌∷◌, ◌++◌, length, is_empty, ltb, ◌==◌, if◌then◌else◌,
}
use kronroe.Common.Digits.{digits}
use kronroe.Common.Int.{sub_ℕ, ℤ, pos, negsuc, ◌+ℤ◌, ◌-ℤ◌, ◌*ℤ◌, ltb_ℤ}
use kronroe.Common.Parse.{
  split_once, split, split_last, strip_suffix, decimal, parse_unsigned, parse_signed,
}
use kronroe.Common.Text.{Text}
use kronroe.Error.{ErrorKind, Result, ok, fail, ◌>>=◌}
use kronroe.Time.{
  KronroeTimestamp, KronroeSpan, in_range, saturate, div_euclid, rem_euclid, micros_per_day,
  micros_per_hour, micros_per_minute, micros_per_second, micros_per_milli,
}
use kronroe.Time.Calendar.{validate_date, days_from_civil, civil_from_days}

abbrev pub or_internal {ℓ} : {A : Type ℓ} → Option A → Result A
or_internal none = fail ErrorKind.internal
or_internal (some a) = ok a

abbrev pub check : Bool → Result (Unit {0})
check true = ok tt
check false = fail ErrorKind.internal

-- `checked_mul` and `checked_add`, of an exact result
abbrev pub checked : ℤ → Result ℤ
checked z = if in_range z then ok z else fail ErrorKind.internal

unfoldable pub from_unix_millis : ℤ → Result KronroeTimestamp
from_unix_millis unix_millis = do
  unix_micros ← checked (unix_millis *ℤ pos micros_per_milli)
  ok (record { unix_micros = unix_micros })

unfoldable pub checked_add : KronroeSpan → KronroeSpan → Result KronroeSpan
checked_add self rhs = do
  micros ← checked (self.micros +ℤ rhs.micros)
  ok (record { micros = micros })

unfoldable pub checked_sub : KronroeSpan → KronroeSpan → Result KronroeSpan
checked_sub self rhs = do
  micros ← checked (self.micros -ℤ rhs.micros)
  ok (record { micros = micros })

unfoldable pub validate_time : ℕ → ℕ → ℕ → ℕ → Bool
validate_time hour minute second micros =
    not (ltb 23 hour || ltb 59 minute || ltb 59 second || ltb 999_999 micros)

unfoldable pub from_utc_components : ℤ → ℕ → ℕ → ℕ → ℕ → ℕ → ℕ → Result KronroeTimestamp
from_utc_components year month day hour minute second micros = do
  _ ← check (validate_date year month day)
  _ ← check (validate_time hour minute second micros)
  let days = days_from_civil year month day
  let day_micros =
      hour * micros_per_hour + minute * micros_per_minute + second * micros_per_second + micros
  whole ← checked (days *ℤ pos micros_per_day)
  unix_micros ← checked (whole +ℤ pos day_micros)
  ok (record { unix_micros = unix_micros })

-- The three numbers of a list of three parts.
unfoldable pub date_parts : List Text → Result (ℤ × ℕ × ℕ)
date_parts (y ∷ m ∷ d ∷ []) = do
  year ← or_internal (parse_signed 0x7fff_ffff y)
  month ← or_internal (parse_unsigned 0xffff_ffff m)
  day ← or_internal (parse_unsigned 0xffff_ffff d)
  _ ← check (validate_date year month day)
  ok (year, month, day)
date_parts _ = fail ErrorKind.internal

unfoldable pub parse_date : Text → Result (ℤ × ℕ × ℕ)
parse_date date = date_parts (split b'-' date)

unfoldable pub time_parts : List Text → Result (ℕ × ℕ × ℕ)
time_parts (h ∷ m ∷ s ∷ []) = do
  hour ← or_internal (parse_unsigned 0xffff_ffff h)
  minute ← or_internal (parse_unsigned 0xffff_ffff m)
  second ← or_internal (parse_unsigned 0xffff_ffff s)
  ok (hour, minute, second)
time_parts _ = fail ErrorKind.internal

-- `{raw:0<6}`, of at most six digits
unfoldable pub pad_right : ℕ → Text → Text
pad_right zero t = t
pad_right (suc n) [] = b'0' ∷ pad_right n []
pad_right (suc n) (c ∷ cs) = c ∷ pad_right n cs

unfoldable pub fraction_micros : Option Text → Result ℕ
fraction_micros none = ok 0
fraction_micros (some raw) =
    if is_empty raw || ltb 6 (length raw)
    then fail ErrorKind.internal
    else or_internal (decimal 0 (pad_right 6 raw))

unfoldable pub pieces : Text → Option (Text × Text) → Text × Option Text
pieces time none = (time, none)
pieces time (some (base, raw)) = (base, some raw)

-- The text before the first full stop, and what follows it if there is one.
unfoldable pub base_and_fraction : Text → Text × Option Text
unfolding pieces
base_and_fraction time = pieces time (split_once b'.' time)

unfoldable pub parse_time : Text → Result (ℕ × ℕ × ℕ × ℕ)
parse_time time = do
  (hour, minute, second) ← time_parts (split b':' (base_and_fraction time).0)
  micros ← fraction_micros (base_and_fraction time).1
  _ ← check (validate_time hour minute second micros)
  ok (hour, minute, second, micros)

-- The arithmetic of an offset, which wraps in a release build.
unfoldable pub wrap_i64 : ℤ → ℤ
unfolding rem_euclid
wrap_i64 z =
    sub_ℕ (rem_euclid (z +ℤ pos 0x8000_0000_0000_0000) 0x1_0000_0000_0000_0000)
      0x8000_0000_0000_0000

offset_parts : ℕ → List Text → Result ℤ
unfolding wrap_i64
offset_parts sign (h ∷ m ∷ []) = do
  hours ← or_internal (parse_signed 0x7fff_ffff_ffff_ffff h)
  minutes ← or_internal (parse_signed 0x7fff_ffff_ffff_ffff m)
  _ ← check (not (ltb_ℤ (pos 23) hours || ltb_ℤ (pos 59) minutes))
  let size = wrap_i64 (hours *ℤ pos micros_per_hour +ℤ minutes *ℤ pos micros_per_minute)
  if sign == b'+'
      then ok size
      else if sign == b'-'
      then ok (wrap_i64 (pos 0 -ℤ size))
      else fail ErrorKind.internal
offset_parts sign _ = fail ErrorKind.internal

unfoldable pub parse_offset : ℕ → Text → Result ℤ
unfolding offset_parts
parse_offset sign offset = offset_parts sign (split b':' offset)

abbrev is_sign : ℕ → Bool
is_sign c = c == b'+' || c == b'-'

-- The offset of a time that does not end in Z: its sign and what follows.
signed_offset : Option (Text × Text) → Result (Text × Option (ℕ × Text))
signed_offset none = fail ErrorKind.internal
signed_offset (some (time, [])) = fail ErrorKind.internal
signed_offset (some (time, (sign ∷ offset))) = ok (time, some (sign, offset))

unfoldable pub time_and_offset : Text → Option Text → Result (Text × Option (ℕ × Text))
unfolding signed_offset
time_and_offset rest (some stripped) = ok (stripped, none)
time_and_offset rest none = signed_offset (split_last is_sign rest)

unfoldable pub offset_micros : Option (ℕ × Text) → Result ℤ
unfolding parse_offset
offset_micros none = ok (pos 0)
offset_micros (some (sign, offset)) = parse_offset sign offset

unfoldable pub date_and_rest : Option (Text × Text) → Result KronroeTimestamp
date_and_rest none = fail ErrorKind.internal
date_and_rest (some (date, rest)) = do
  (time_part, offset_part) ← time_and_offset rest (strip_suffix b'Z' rest)
  (year, month, day) ← parse_date date
  (hour, minute, second, micros) ← parse_time time_part
  offset ← offset_micros offset_part
  local ← from_utc_components year month day hour minute second micros
  ok (record { unix_micros = saturate (local.unix_micros -ℤ offset) })

unfoldable pub parse_rfc3339 : Text → Result KronroeTimestamp
parse_rfc3339 input = date_and_rest (split_once b'T' input)

-- `{year:04}`: the sign counts as one of the four places. A year of a timestamp has six digits at
-- most.
unfoldable pub format_year : ℤ → Text
format_year (pos n) = padded (width_of 6 4 n) n
format_year (negsuc n) = b'-' ∷ padded (width_of 6 3 (suc n)) (suc n)

unfoldable pub trimmed : ℕ → Text → Text
trimmed c [] = if c == b'0' then [] else c ∷ []
trimmed c (d ∷ ds) = c ∷ d ∷ ds

-- `while frac.ends_with('0') { frac.pop(); }`
unfoldable pub trim_zeros : Text → Text
unfolding trimmed
trim_zeros [] = []
trim_zeros (c ∷ cs) = trimmed c (trim_zeros cs)

unfoldable pub format_date : ℤ → Text → Text
format_date days rest =
    let date = civil_from_days days in
    format_year date.year ++ (b'-' ∷ (padded 2 date.month ++ (b'-' ∷ (padded 2 date.day ++ rest))))

unfoldable pub date_ymd : KronroeTimestamp → Text
date_ymd t = format_date (div_euclid t.unix_micros micros_per_day) []

unfoldable pub format_fraction : ℕ → Text
format_fraction micros =
    if micros == 0 then b'Z' ∷ [] else b'.' ∷ (trim_zeros (padded 6 micros) ++ (b'Z' ∷ []))

unfoldable pub format_time : ℕ → Text
format_time micros_of_day =
    padded 2 (micros_of_day / micros_per_hour)
    ++ (b':'
        ∷ (padded 2 (micros_of_day % micros_per_hour / micros_per_minute)
            ++ (b':'
                ∷ (padded 2 (micros_of_day % micros_per_minute / micros_per_second)
                    ++ format_fraction (micros_of_day % micros_per_second)))))

unfoldable pub to_rfc3339_z : KronroeTimestamp → Text
to_rfc3339_z t =
    format_date (div_euclid t.unix_micros micros_per_day)
      (b'T' ∷ format_time (rem_euclid t.unix_micros micros_per_day))
