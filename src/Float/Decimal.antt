-- ===== src/Float/Decimal.antt =====
-- `str::parse::<f64>` of the Rust library and the conversions between the number types: a decimal
-- is a ratio, counted in the smallest subnormal and rounded to nearest, ties to even.
use kronroe.Common.{
  ℕ, ◌+◌, ◌-◌, ◌*◌, ◌/◌, ◌%◌, ◌^◌, Bool, true, false, ◌&&◌, ◌||◌, not, [], ◌∷◌, Option, none, some,
  ltb, leb, ◌==◌, if◌then◌else◌,
}
use kronroe.Common.Text.{Text}
use mathlib.Core.Option
use kronroe.Float.{Format, f32, f64, excess, abs, units, with_sign, is_negative, is_nan, is_finite}

unfoldable pub is_ascii_digit : ℕ → Bool
is_ascii_digit c = leb b'0' c && leb c b'9'

-- The magnitude nearest to `num / den` units.
unfoldable pub nearest_ratio : Format → ℕ → ℕ → ℕ
unfolding excess
nearest_ratio fmt num den =
    let shift = excess fmt fmt.width (num / den) in
    let unit = den * 2 ^ shift in
    let q = num / unit in
    let r = num % unit in
    let rounded = if ltb unit (2 * r) || ((2 * r == unit) && (q % 2 == 1)) then q + 1 else q in
    let bits = shift * 2 ^ fmt.mantissa_bits + rounded in
    if ltb bits fmt.infinity then bits else fmt.infinity

-- A decimal `mantissa * 10 ^ (raised - lowered)` under a sign.
pub record Decimal : Type 0 where
  pub negative : Bool
  pub mantissa : ℕ
  pub raised : ℕ
  pub lowered : ℕ

-- 1.0 is 2 ^ 1074 units of `f64`.
abbrev pub f64_unit_exponent : ℕ
f64_unit_exponent = 1074

unfoldable pub f64_of_decimal : Decimal → ℕ
unfolding nearest_ratio with_sign
f64_of_decimal d =
    let num = d.mantissa * 10 ^ d.raised * 2 ^ f64_unit_exponent in
    with_sign f64 d.negative (nearest_ratio f64 num (10 ^ d.lowered))

-- The digits at the head of a text: their value after `acc`, their number after `n`, and the rest.
unfoldable pub read_digits : ℕ → ℕ → Text → ℕ × ℕ × Text
unfolding is_ascii_digit
read_digits acc n [] = (acc, n, [])
read_digits acc n (c ∷ cs) =
    let rest = read_digits (acc * 10 + (c - b'0')) (n + 1) cs in
    if is_ascii_digit c then rest else (acc, n, c ∷ cs)

finish_exponent : Decimal → Bool → ℕ × ℕ × Text → Option Decimal
finish_exponent d down (e, n, []) =
    if n == 0
    then none
    else if down
    then some (record d { lowered = d.lowered + e })
    else some (record d { raised = d.raised + e })
finish_exponent d down (e, n, (x ∷ xs)) = none

signed_exponent : Decimal → Text → Option Decimal
unfolding read_digits finish_exponent
signed_exponent d [] = none
signed_exponent d (s ∷ t) =
    if s == b'-'
    then finish_exponent d true (read_digits 0 0 t)
    else if s == b'+'
    then finish_exponent d false (read_digits 0 0 t)
    else finish_exponent d false (read_digits 0 0 (s ∷ t))

read_exponent : Decimal → Text → Option Decimal
unfolding signed_exponent
read_exponent d [] = some d
read_exponent d (c ∷ cs) = if (c == b'e') || (c == b'E') then signed_exponent d cs else none

-- The digits after the point: with those before it, there is one at least.
read_fraction : Bool → ℕ → ℕ × ℕ × Text → Option Decimal
unfolding read_exponent
read_fraction negative before (m, n, t) =
    if before + n == 0
    then none
    else read_exponent (record { negative = negative; mantissa = m; raised = 0; lowered = n }) t

read_point : Bool → ℕ × ℕ × Text → Option Decimal
unfolding read_fraction read_digits
read_point negative (m, n, []) = read_fraction negative n (m, 0, [])
read_point negative (m, n, (c ∷ cs)) =
    if c == b'.'
    then read_fraction negative n (read_digits m 0 cs)
    else read_fraction negative n (m, 0, c ∷ cs)

unfoldable pub decimal_of_text : Text → Option Decimal
unfolding read_point read_digits
decimal_of_text [] = none
decimal_of_text (s ∷ t) =
    if s == b'-'
    then read_point true (read_digits 0 0 t)
    else if s == b'+'
    then read_point false (read_digits 0 0 t)
    else read_point false (read_digits 0 0 (s ∷ t))

-- `s.parse::<f64>()` of a text that is not one of the words for an infinity or no number
unfoldable pub f64_of_text : Text → Option ℕ
unfolding decimal_of_text f64_of_decimal
f64_of_text s = Option.map f64_of_decimal (decimal_of_text s)

-- `n as f32`
unfoldable pub f32_of_f64 : ℕ → ℕ
unfolding nearest_ratio with_sign is_negative is_nan is_finite units
f32_of_f64 n =
    if is_nan f64 n
    then f32.not_a_number
    else with_sign f32 (is_negative f64 n)
        (if is_finite f64 n then nearest_ratio f32 (units f64 n) (2 ^ 925) else f32.infinity)

-- `n >= 0.0 && n.fract() == 0.0`: a zero of either sign, or a positive number of whole units of 1.0
unfoldable pub is_whole : ℕ → Bool
unfolding is_nan is_negative is_finite units abs
is_whole n =
    is_finite f64 n
    && (not (is_negative f64 n) || (abs f64 n == 0))
    && (units f64 n % 2 ^ f64_unit_exponent == 0)

-- `n as u64`, of a number that is not negative: truncated, and at most the largest.
unfoldable pub u64_of_f64 : ℕ → ℕ
unfolding units
u64_of_f64 n =
    let whole = units f64 n / 2 ^ f64_unit_exponent in
    if ltb whole (2 ^ 64) then whole else 0xffff_ffff_ffff_ffff
