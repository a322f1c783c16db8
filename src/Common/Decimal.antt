-- ===== src/Common/Decimal.antt =====
-- The decimal digits of a number, as `{n}` and `{n:0width}` print them.
use Prim.Native.Nat.{ℕ, zero, suc, ◌+◌, ◌^◌}
use mathlib.Core.List.{[]}
use kronroe.Common.Digits.{digits}
use kronroe.Common.Tests.{ltb, if◌then◌else◌}
use kronroe.Common.Text.{Text}

abbrev pub digit_char : ℕ → ℕ
digit_char d = b'0' + d

-- `{n:0width}` of a number below `10 ^ width`
unfoldable pub padded : ℕ → ℕ → Text
unfolding digits
padded width n = digits 10 digit_char width n []

-- The number of digits of a number below `10 ^ (width + fuel)`, at least `width`.
unfoldable pub width_of : ℕ → ℕ → ℕ → ℕ
width_of zero width n = width
width_of (suc fuel) width n =
    let more = width_of fuel (width + 1) n in if ltb n (10 ^ width) then width else more

-- `{n}` of a number below `10 ^ (fuel + 1)`
unfoldable pub decimal_text : ℕ → ℕ → Text
decimal_text fuel n = padded (width_of fuel 1 n) n
