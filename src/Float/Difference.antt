-- ===== src/Float/Difference.antt =====
-- The size of a difference of floating-point numbers, and its direction.
use kronroe.Common.{ℕ, ◌+◌, ◌-◌, ◌<◌, ◌≡◌, Bool, true, false, not, arith, ap, ltb, if◌then◌else◌}
use kronroe.Float.{
  Format, f32, f64, abs, sub, is_nan, is_finite, is_negative, with_sign, nearest, signed_difference,
  units,
}

-- The special values lie below the sign bit.
pub record IsFormat (fmt : Format) : Type 0 where
  pub infinity_lt : fmt.infinity < fmt.sign_bit
  pub nan_lt : fmt.not_a_number < fmt.sign_bit

module _ (fmt : Format) (ok : IsFormat fmt) where
  nearest-lt : (d : ℕ) → nearest fmt d < fmt.sign_bit
  unfolding nearest
  nearest-lt d = ground arith

  abs-with_sign : (b : Bool) (m : ℕ) → m < fmt.sign_bit → abs fmt (with_sign fmt b m) ≡ m
  unfolding abs with_sign
  abs-with_sign b m h = ground arith

  abs-nearest : (d : ℕ) → abs fmt (nearest fmt d) ≡ nearest fmt d
  unfolding abs
  abs-nearest d = ground (arith, nearest-lt d)

  -- The magnitude of a signed difference.
  magnitude : Bool → ℕ → Bool → ℕ → ℕ
  magnitude false a false b = nearest fmt (if ltb a b then b - a else a - b)
  magnitude true a true b = nearest fmt (if ltb b a then a - b else b - a)
  magnitude _ a _ b = nearest fmt (a + b)

  abs-signed_difference :
      (s : Bool) (a : ℕ) (t : Bool) (b : ℕ)
      → abs fmt (signed_difference fmt s a t b) ≡ magnitude s a t b
  unfolding signed_difference magnitude
  abs-signed_difference false a false b =
      ground
        (arith, abs-nearest (a - b), abs-with_sign true (nearest fmt (b - a)) (nearest-lt (b - a)))
  abs-signed_difference false a true b = abs-nearest (a + b)
  abs-signed_difference true a false b =
      abs-with_sign true (nearest fmt (a + b)) (nearest-lt (a + b))
  abs-signed_difference true a true b =
      ground
        (arith, abs-nearest (b - a), abs-with_sign true (nearest fmt (a - b)) (nearest-lt (a - b)))

  magnitude_comm : (s : Bool) (a : ℕ) (t : Bool) (b : ℕ) → magnitude s a t b ≡ magnitude t b s a
  unfolding magnitude
  magnitude_comm false a false b = ap (nearest fmt) (ground arith)
  magnitude_comm false a true b = ap (nearest fmt) (omega arith)
  magnitude_comm true a false b = ap (nearest fmt) (omega arith)
  magnitude_comm true a true b = ap (nearest fmt) (ground arith)

  abs_infinite : (x : ℕ) → is_nan fmt x ≡ false → is_finite fmt x ≡ false → abs fmt x ≡ fmt.infinity
  unfolding is_nan is_finite
  abs_infinite x n f = ground arith

  -- The size of `x - y` is that of `y - x`, for all numbers, infinities and NaN.
  pub abs-sub_comm : (x y : ℕ) → abs fmt (sub fmt x y) ≡ abs fmt (sub fmt y x)
  unfolding sub
  abs-sub_comm x y = ground (
    arith,
    abs_infinite x,
    abs_infinite y,
    abs-with_sign (not (is_negative fmt x)) (abs fmt x),
    abs-with_sign (not (is_negative fmt y)) (abs fmt y),
    abs-signed_difference (is_negative fmt x) (units fmt x) (is_negative fmt y) (units fmt y),
    abs-signed_difference (is_negative fmt y) (units fmt y) (is_negative fmt x) (units fmt x),
    magnitude_comm (is_negative fmt x) (units fmt x) (is_negative fmt y) (units fmt y),
  )

pub f32-IsFormat : IsFormat f32
f32-IsFormat = record { infinity_lt = omega arith; nan_lt = omega arith }

pub f64-IsFormat : IsFormat f64
f64-IsFormat = record { infinity_lt = omega arith; nan_lt = omega arith }
