-- ===== src/Float/Tests.antt =====
-- Runs of the floating-point operations on literals of the source.
use kronroe.Common.{◌≡◌, refl, true, false}
use kronroe.Float.{
  f32, f64, lt, ge, clamp, sub, is_nan, is_finite, is_negative, units, signed_difference,
}

-- 1.0 - 0.3 = 0.7 in f32
sub_test : sub f32 0x3f800000 0x3e99999a ≡ 0x3f333333
unfolding sub is_nan is_finite is_negative units signed_difference
sub_test = refl

-- 0.3 - 1.0
sub_neg_test : sub f32 0x3e99999a 0x3f800000 ≡ 0xbf333333
unfolding sub is_nan is_finite is_negative units signed_difference
sub_neg_test = refl

-- 1.5 - 0.1 = 1.4 in f64
sub-f64_test : sub f64 0x3ff8000000000000 0x3fb999999999999a ≡ 0x3ff6666666666666
unfolding sub is_nan is_finite is_negative units signed_difference
sub-f64_test = refl

lt_test : lt f64 0xbff0000000000000 0 ≡ true
unfolding lt
lt_test = refl

zeros_test : lt f32 0x80000000 0 ≡ false
unfolding lt
zeros_test = refl

nan_test : ge f32 0x7fc00000 0 ≡ false
unfolding ge
nan_test = refl

clamp_test : clamp f32 0 0x3f800000 0x40000000 ≡ 0x3f800000
unfolding clamp
clamp_test = refl
