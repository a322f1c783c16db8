-- ===== src/Float/Display.antt =====
-- `Display` of the floats of the Rust library: the shortest decimal that rounds to the number, without
-- an exponent.
use kronroe.Common.{
  ℕ, zero, suc, ◌+◌, ◌-◌, ◌*◌, ◌/◌, ◌%◌, ◌^◌, ◌&&◌, ◌||◌, [], ◌∷◌, ◌++◌, length, take, drop, ltb,
  leb, ◌==◌, if◌then◌else◌,
}
use kronroe.Common.Decimal.{decimal_text}
use kronroe.Common.Text.{Text, codes}
use kronroe.Float.{Format, f32, f64, abs, units, is_negative, is_nan, is_finite}
use kronroe.Float.Decimal.{nearest_ratio}

-- More than the decimal places of the smallest subnormal of either format.
abbrev places : ℕ
places = 400

-- A format with the exponent of 1.0 in its units, and the digits that tell its numbers apart.
pub record Printed : Type 0 where
  pub format : Format
  pub unit_exponent : ℕ
  pub most_digits : ℕ

abbrev pub printed_f64 : Printed
printed_f64 = record { format = f64; unit_exponent = 1074; most_digits = 17 }

abbrev pub printed_f32 : Printed
printed_f32 = record { format = f32; unit_exponent = 149; most_digits = 9 }

-- A decimal `digits * 10 ^ raised / 10 ^ places`.
pub record Shortest : Type 0 where
  pub digits : ℕ
  pub raised : ℕ

module _ (p : Printed) where
  -- The magnitude nearest to a decimal.
  read_decimal : Shortest → ℕ
  unfolding nearest_ratio
  read_decimal d =
      nearest_ratio p.format (d.digits * 10 ^ d.raised * 2 ^ p.unit_exponent) (10 ^ places)

  -- The decimal nearest to `u` units at a power of ten, ties to even.
  decimal_at : ℕ → ℕ → Shortest
  decimal_at u raised =
      let den = 10 ^ raised * 2 ^ p.unit_exponent in
      let q = u * 10 ^ places / den in
      let r = u * 10 ^ places % den in
      record {
        digits = if ltb den (2 * r) || ((2 * r == den) && (q % 2 == 1)) then q + 1 else q;
        raised = raised;
      }

  -- The first decimal that rounds to the magnitude, with one digit more at each round.
  search_decimal : ℕ → ℕ → ℕ → Shortest
  unfolding decimal_at read_decimal
  search_decimal zero x raised = decimal_at (units p.format x) raised
  search_decimal (suc more) x raised =
      let d = decimal_at (units p.format x) raised in
      let rest = search_decimal more x (raised - 1) in if read_decimal d == x then d else rest

  -- The number of decimal places before `u` units, counted from the last of `places`.
  magnitude : ℕ → ℕ
  magnitude u = length (decimal_text 800 (u * 10 ^ places / 2 ^ p.unit_exponent))

  strip_zeros : ℕ → Shortest → Shortest
  strip_zeros zero d = d
  strip_zeros (suc n) d =
      let rest = strip_zeros n (record { digits = d.digits / 10; raised = d.raised + 1 }) in
      if d.digits % 10 == 0 then rest else d

  zeros : ℕ → Text
  zeros zero = []
  zeros (suc n) = b'0' ∷ zeros n

  -- The digits around the point.
  positional : Shortest → Text
  unfolding zeros
  positional d =
      let ds = decimal_text 20 d.digits in
      if leb places d.raised
      then ds ++ zeros (d.raised - places)
      else (let down = places - d.raised in
          if ltb down (length ds)
          then take (length ds - down) ds ++ (b'.' ∷ drop (length ds - down) ds)
          else b'0' ∷ b'.' ∷ (zeros (down - length ds) ++ ds))

  display_magnitude : ℕ → Text
  unfolding search_decimal magnitude strip_zeros positional
  display_magnitude x =
      if x == 0
      then b'0' ∷ []
      else positional
          (strip_zeros 20 (search_decimal (p.most_digits - 1) x (magnitude (units p.format x) - 1)))

  -- `{x}`
  unfoldable pub display : ℕ → Text
  unfolding display_magnitude
  display x =
      if is_nan p.format x
      then codes "NaN"
      else (let text =
            if is_finite p.format x then display_magnitude (abs p.format x) else codes "inf" in
          if is_negative p.format x then b'-' ∷ text else text)
