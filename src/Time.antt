-- ===== src/Time.antt =====
-- crates/core/src/kronroe_time.rs: timestamps and spans in microseconds, held in an `i64`, with the
-- saturating arithmetic of the operators. The fallible operations and the calendar are below.
pub mod Arithmetic
pub mod Calendar
pub mod Rfc3339
use kronroe.Common.{ℕ, suc, ◌+◌, ◌-◌, ◌*◌, ◌/◌, ◌%◌, ◌^◌, ◌≤◌, Bool, if◌then◌else◌}
use kronroe.Common.Int.{
  ℤ, pos, negsuc, ◌+ℤ◌, ◌-ℤ◌, ◌*ℤ◌, ◌≤ℤ◌, ltb_ℤ, leb_ℤ, eq_ℤ, sub_ℕ, pos_part, neg_part,
}

abbrev pub i64_max : ℤ
i64_max = pos 0x7fff_ffff_ffff_ffff

abbrev pub i64_min : ℤ
i64_min = negsuc 0x7fff_ffff_ffff_ffff

-- An integer that an `i64` holds.
abbrev pub InRange : ℤ → Type 0
InRange z = (i64_min ≤ℤ z) × (z ≤ℤ i64_max)

abbrev pub in_range : ℤ → Bool
in_range z = if ltb_ℤ z i64_min then Bool.false else leb_ℤ z i64_max

-- The nearest value of an `i64`, which the `saturating_` operations return.
unfoldable pub saturate : ℤ → ℤ
saturate z = if ltb_ℤ i64_max z then i64_max else if ltb_ℤ z i64_min then i64_min else z

-- `a / d` truncates toward zero.
unfoldable pub div_trunc : ℤ → ℕ → ℤ
div_trunc (pos n) d = pos (n / d)
div_trunc (negsuc n) d = sub_ℕ 0 (suc n / d)

-- `a.div_euclid(d)` and `a.rem_euclid(d)` round toward minus infinity.
unfoldable pub div_euclid : ℤ → ℕ → ℤ
div_euclid (pos n) d = pos (n / d)
div_euclid (negsuc n) d = negsuc (n / d)

unfoldable pub rem_euclid : ℤ → ℕ → ℕ
rem_euclid (pos n) d = n % d
rem_euclid (negsuc n) d = d - 1 - n % d

abbrev pub micros_per_milli : ℕ
micros_per_milli = 1_000

abbrev pub micros_per_second : ℕ
micros_per_second = 1_000_000

abbrev pub micros_per_minute : ℕ
micros_per_minute = 60_000_000

abbrev pub micros_per_hour : ℕ
micros_per_hour = 3_600_000_000

abbrev pub micros_per_day : ℕ
micros_per_day = 86_400_000_000

pub record KronroeTimestamp : Type 0 where
  pub unix_micros : ℤ

pub record KronroeSpan : Type 0 where
  pub micros : ℤ

abbrev pub max_timestamp : KronroeTimestamp
max_timestamp = record { unix_micros = i64_max }

abbrev pub min_timestamp : KronroeTimestamp
min_timestamp = record { unix_micros = i64_min }

-- The derived order of the timestamps.
abbrev pub before : KronroeTimestamp → KronroeTimestamp → Bool
before a b = ltb_ℤ a.unix_micros b.unix_micros

abbrev pub not_after : KronroeTimestamp → KronroeTimestamp → Bool
not_after a b = leb_ℤ a.unix_micros b.unix_micros

abbrev pub same_time : KronroeTimestamp → KronroeTimestamp → Bool
same_time a b = eq_ℤ a.unix_micros b.unix_micros

abbrev pub earlier : KronroeTimestamp → KronroeTimestamp → KronroeTimestamp
earlier a b = if before b a then b else a

abbrev pub later : KronroeTimestamp → KronroeTimestamp → KronroeTimestamp
later a b = if before b a then a else b

unfoldable pub to_unix_millis : KronroeTimestamp → ℤ
unfolding div_trunc
to_unix_millis t = div_trunc t.unix_micros micros_per_milli

-- `timestamp + span`
unfoldable pub add_span : KronroeTimestamp → KronroeSpan → KronroeTimestamp
unfolding saturate
add_span t s = record { unix_micros = saturate (t.unix_micros +ℤ s.micros) }

-- `timestamp - span`
unfoldable pub sub_span : KronroeTimestamp → KronroeSpan → KronroeTimestamp
unfolding saturate
sub_span t s = record { unix_micros = saturate (t.unix_micros -ℤ s.micros) }

-- `timestamp - timestamp`
unfoldable pub since : KronroeTimestamp → KronroeTimestamp → KronroeSpan
unfolding saturate
since a b = record { micros = saturate (a.unix_micros -ℤ b.unix_micros) }

-- The constructors of a span from a number of larger units.
unfoldable pub span_of : ℤ → ℕ → KronroeSpan
unfolding saturate
span_of n unit = record { micros = saturate (n *ℤ pos unit) }

unfoldable pub milliseconds : ℤ → KronroeSpan
unfolding span_of
milliseconds n = span_of n micros_per_milli

unfoldable pub seconds : ℤ → KronroeSpan
unfolding span_of
seconds n = span_of n micros_per_second

unfoldable pub minutes : ℤ → KronroeSpan
unfolding span_of
minutes n = span_of n micros_per_minute

unfoldable pub hours : ℤ → KronroeSpan
unfolding span_of
hours n = span_of n micros_per_hour

unfoldable pub days : ℤ → KronroeSpan
unfolding span_of
days n = span_of n micros_per_day

unfoldable pub num_seconds : KronroeSpan → ℤ
unfolding div_trunc
num_seconds s = div_trunc s.micros micros_per_second

unfoldable pub num_days : KronroeSpan → ℤ
unfolding div_trunc
num_days s = div_trunc s.micros micros_per_day
