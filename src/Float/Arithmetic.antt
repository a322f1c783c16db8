-- ===== src/Float/Arithmetic.antt =====
-- The sum, product, quotient and square root of `f32` and `f64` of the Rust language: exact on
-- integers counted in the smallest subnormal, then rounded to nearest, ties to even.
use kronroe.Common.{
  ℕ, zero, suc, ◌+◌, ◌*◌, ◌/◌, ◌^◌, Bool, not, ◌&&◌, ◌||◌, ltb, leb, ◌==◌, if◌then◌else◌,
}
use kronroe.Float.{Format, abs, sub, units, is_negative, is_nan, is_finite, with_sign, excess}
use kronroe.Float.Decimal.{nearest_ratio}

module _ (fmt : Format) (unit_exponent : ℕ) where
  -- `-x`
  unfoldable pub neg : ℕ → ℕ
  neg x = with_sign fmt (not (is_negative fmt x)) (abs fmt x)

  unfoldable pub add : ℕ → ℕ → ℕ
  unfolding neg
  add x y = sub fmt x (neg y)

  -- The sign of a product and of a quotient.
  opposite : ℕ → ℕ → Bool
  opposite x y = if is_negative fmt x then not (is_negative fmt y) else is_negative fmt y

  unfoldable pub mul : ℕ → ℕ → ℕ
  unfolding opposite
  mul x y =
      if is_nan fmt x || is_nan fmt y
      then fmt.not_a_number
      else if is_finite fmt x && is_finite fmt y
      then with_sign fmt (opposite x y)
          (nearest_ratio fmt (units fmt x * units fmt y) (2 ^ unit_exponent))
      else if (abs fmt x == 0) || (abs fmt y == 0)
      then fmt.not_a_number
      else with_sign fmt (opposite x y) fmt.infinity

  unfoldable pub div : ℕ → ℕ → ℕ
  unfolding opposite
  div x y =
      if is_nan fmt x || is_nan fmt y
      then fmt.not_a_number
      else if not (is_finite fmt x)
      then (if is_finite fmt y then with_sign fmt (opposite x y) fmt.infinity else fmt.not_a_number)
      else if not (is_finite fmt y)
      then with_sign fmt (opposite x y) 0
      else if abs fmt y == 0
      then (if abs fmt x == 0 then fmt.not_a_number else with_sign fmt (opposite x y) fmt.infinity)
      else with_sign fmt (opposite x y)
          (nearest_ratio fmt (units fmt x * 2 ^ unit_exponent) (units fmt y))

  -- The integer square root, a bit at a time: the root of `n / 4`, doubled, and one more if it fits.
  root : ℕ → ℕ → ℕ
  root zero n = 0
  root (suc fuel) n =
      let r = 2 * root fuel (n / 4) in if leb ((r + 1) * (r + 1)) n then r + 1 else r

  -- The root of a magnitude: no root of a number of the format is half way between two others.
  unfoldable pub sqrt : ℕ → ℕ
  unfolding root
  sqrt x =
      if is_nan fmt x || (is_negative fmt x && ltb 0 (abs fmt x))
      then fmt.not_a_number
      else if not (is_finite fmt x) || (abs fmt x == 0)
      then x
      else (let n = units fmt x * 2 ^ unit_exponent in
          let shift = excess fmt fmt.width (root fmt.width n) in
          let q = root fmt.width n / 2 ^ shift in
          let above = ltb ((2 * q + 1) * (2 * q + 1) * (2 ^ shift * 2 ^ shift)) (4 * n) in
          shift * 2 ^ fmt.mantissa_bits + (if above then q + 1 else q))
