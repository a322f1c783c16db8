-- ===== src/Float.antt =====
-- The `f32` and `f64` of the Rust language, as their IEEE 754 bit patterns: the comparisons, `abs`,
-- `is_finite`, `clamp` and the subtraction that the crates use. Subtraction is exact on integers
-- counted in the smallest subnormal, then rounded to nearest, ties to even.
mod Tests
pub mod Difference
pub mod Decimal
pub mod Display
pub mod Arithmetic
use kronroe.Common.{
  ℕ, zero, suc, ◌+◌, ◌-◌, ◌*◌, ◌/◌, ◌%◌, ◌^◌, Bool, true, false, not, ◌&&◌, ◌||◌, ltb, leb, ◌==◌,
  if◌then◌else◌,
}

pub record Format : Type 0 where
  pub mantissa_bits : ℕ
  pub sign_bit : ℕ
  pub infinity : ℕ
  pub not_a_number : ℕ
  -- more than the bits of the largest finite value, counted in the smallest subnormal
  pub width : ℕ

abbrev pub f32 : Format
f32 = record {
  mantissa_bits = 23;
  sign_bit = 0x80000000;
  infinity = 0x7f800000;
  not_a_number = 0x7fc00000;
  width = 300;
}

abbrev pub f64 : Format
f64 = record {
  mantissa_bits = 52;
  sign_bit = 0x8000000000000000;
  infinity = 0x7ff0000000000000;
  not_a_number = 0x7ff8000000000000;
  width = 2200;
}

module _ (fmt : Format) where
  unfoldable pub is_negative : ℕ → Bool
  is_negative x = leb fmt.sign_bit x

  -- `x.abs()`: the sign bit is cleared.
  unfoldable pub abs : ℕ → ℕ
  abs x = if leb fmt.sign_bit x then x - fmt.sign_bit else x

  unfoldable pub is_nan : ℕ → Bool
  unfolding abs
  is_nan x = ltb fmt.infinity (abs x)

  unfoldable pub is_finite : ℕ → Bool
  unfolding abs
  is_finite x = ltb (abs x) fmt.infinity

  -- `x < y`
  unfoldable pub lt : ℕ → ℕ → Bool
  unfolding is_nan is_negative abs
  lt x y =
      if is_nan x || is_nan y
      then false
      else if is_negative x
      then (if is_negative y then ltb (abs y) (abs x) else ltb 0 (abs x + abs y))
      else if is_negative y
      then false
      else ltb (abs x) (abs y)

  -- `x >= y`
  unfoldable pub ge : ℕ → ℕ → Bool
  unfolding is_nan lt
  ge x y = if is_nan x || is_nan y then false else not (lt x y)

  -- `x.clamp(lo, hi)`
  unfoldable pub clamp : ℕ → ℕ → ℕ → ℕ
  unfolding lt
  clamp lo hi x = let raised = if lt x lo then lo else x in if lt hi raised then hi else raised

  -- The size of a finite value, in units of the smallest subnormal.
  unfoldable pub units : ℕ → ℕ
  unfolding abs
  units x =
      let exponent = abs x / 2 ^ fmt.mantissa_bits in
      let fraction = abs x % 2 ^ fmt.mantissa_bits in
      if exponent == 0 then fraction else (fraction + 2 ^ fmt.mantissa_bits) * 2 ^ (exponent - 1)

  -- The excess of a number of units over the precision, in bits.
  unfoldable pub excess : ℕ → ℕ → ℕ
  excess zero d = 0
  excess (suc n) d =
      let rest = excess n (d / 2) in if ltb d (2 ^ (fmt.mantissa_bits + 1)) then 0 else suc rest

  round_at : ℕ → ℕ → ℕ
  round_at shift d =
      let q = d / 2 ^ shift in
      let r = d % 2 ^ shift in
      if ltb (2 ^ shift) (2 * r) || ((2 * r == 2 ^ shift) && (q % 2 == 1) && ltb 0 r)
      then q + 1
      else q

  -- The magnitude nearest to a number of units.
  unfoldable pub nearest : ℕ → ℕ
  unfolding excess round_at
  nearest d =
      let shift = excess fmt.width d in
      let bits = shift * 2 ^ fmt.mantissa_bits + round_at shift d in
      if ltb bits fmt.infinity then bits else fmt.infinity

  unfoldable pub with_sign : Bool → ℕ → ℕ
  with_sign negative magnitude = if negative then magnitude + fmt.sign_bit else magnitude

  -- The difference of two numbers of units under a sign each.
  unfoldable pub signed_difference : Bool → ℕ → Bool → ℕ → ℕ
  unfolding with_sign nearest
  signed_difference false a false b =
      if ltb a b then with_sign true (nearest (b - a)) else nearest (a - b)
  signed_difference false a true b = nearest (a + b)
  signed_difference true a false b = with_sign true (nearest (a + b))
  signed_difference true a true b =
      if ltb b a then with_sign true (nearest (a - b)) else nearest (b - a)

  -- `x - y`
  unfoldable pub sub : ℕ → ℕ → ℕ
  sub x y =
      if is_nan x || is_nan y
      then fmt.not_a_number
      else if not (is_finite x) && not (is_finite y)
      then (if (is_negative x && is_negative y) || (not (is_negative x) && not (is_negative y))
          then fmt.not_a_number
          else x)
      else if not (is_finite x)
      then x
      else if not (is_finite y)
      then with_sign (not (is_negative y)) (abs y)
      else signed_difference (is_negative x) (units x) (is_negative y) (units y)
