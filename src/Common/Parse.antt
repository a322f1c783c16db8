-- ===== src/Common/Parse.antt =====
-- `str::split`, `split_once`, `rfind`, and `str::parse` of integers, of the Rust library.
pub mod Laws
use Prim.Native.Nat.{ℕ, suc, ◌+◌, ◌-◌, ◌*◌}
use mathlib.Core.Bool.{Bool, true, false, ◌&&◌, ◌||◌}
use mathlib.Core.List.{List, [], ◌∷◌}
use mathlib.Core.Option
use mathlib.Core.Option.{Option, none, some}
use kronroe.Common.Tests.{ltb, leb, ◌==◌, if◌then◌else◌}
use kronroe.Common.Text.{Text}
use kronroe.Common.Int.{ℤ, pos, sub_ℕ}

-- `find(byte)` and the texts on both sides of the place: `split_once(byte)`
unfoldable pub split_once : ℕ → Text → Option (Text × Text)
split_once sep [] = none
split_once sep (c ∷ cs) =
    let rest = Option.map (λ (p : Text × Text). (c ∷ p.0, p.1)) (split_once sep cs) in
    if c == sep then some ([], cs) else rest

-- A piece in front of the first of the pieces.
unfoldable pub onto_first : ℕ → List Text → List Text
onto_first c [] = (c ∷ []) ∷ []
onto_first c (p ∷ ps) = (c ∷ p) ∷ ps

-- `split(byte)`
unfoldable pub split : ℕ → Text → List Text
unfolding onto_first
split sep [] = [] ∷ []
split sep (c ∷ cs) = let rest = split sep cs in if c == sep then [] ∷ rest else onto_first c rest

-- `rfind(test)` and the texts before the place, from the place on.
unfoldable pub split_last : (ℕ → Bool) → Text → Option (Text × Text)
split_last test [] = none
split_last test (c ∷ cs) = elim (split_last test cs) [
  | some p ↦ some (c ∷ p.0, p.1)
  | none ↦ if test c then some ([], c ∷ cs) else none
]

-- `strip_suffix(byte)`
unfoldable pub strip_suffix : ℕ → Text → Option Text
strip_suffix byte [] = none
strip_suffix byte (c ∷ []) = if c == byte then some [] else none
strip_suffix byte (c ∷ d ∷ cs) = Option.map (λ (t : Text). c ∷ t) (strip_suffix byte (d ∷ cs))

-- The value of decimal digits after `acc`; none at any other byte.
unfoldable pub decimal : ℕ → Text → Option ℕ
decimal acc [] = some acc
decimal acc (c ∷ cs) =
    let rest = decimal (acc * 10 + (c - b'0')) cs in if leb b'0' c && leb c b'9' then rest else none

unfoldable pub digits_of : Text → Option ℕ
unfolding decimal
digits_of [] = none
digits_of (c ∷ cs) = decimal 0 (c ∷ cs)

abbrev pub at_most : ℕ → Option ℕ → Option ℕ
at_most bound none = none
at_most bound (some n) = if leb n bound then some n else none

-- `parse` into an unsigned integer that is at most `bound`
unfoldable pub parse_unsigned : ℕ → Text → Option ℕ
unfolding digits_of
parse_unsigned bound [] = none
parse_unsigned bound (c ∷ cs) =
    at_most bound (if c == b'+' then digits_of cs else digits_of (c ∷ cs))

-- `parse` into a signed integer from `- bound - 1` to `bound`
unfoldable pub parse_signed : ℕ → Text → Option ℤ
unfolding digits_of
parse_signed bound [] = none
parse_signed bound (c ∷ cs) =
    if c == b'-'
    then Option.map (λ (n : ℕ). sub_ℕ 0 n) (at_most (suc bound) (digits_of cs))
    else Option.map pos (at_most bound (if c == b'+' then digits_of cs else digits_of (c ∷ cs)))
