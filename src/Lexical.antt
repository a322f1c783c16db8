-- ===== src/Lexical.antt =====
-- crates/core/src/lexical.rs, `is_edit_distance_le_one`: the test that lets a query find a term with
-- one typing error. A text is the list of its characters here.
pub mod Near
use kronroe.Common.{
  ℕ, zero, suc, ◌+◌, ◌-◌, Bool, true, false, ◌&&◌, Option, none, some, List, [], ◌∷◌, length,
  get_elem?, ltb, ◌==◌, if◌then◌else◌,
}
use kronroe.Common.Text.{text_eq}

abbrev pub Chars : Type 0
Chars = List ℕ

-- The places at which two texts differ, counted from a number.
unfoldable pub mismatches : Chars → Chars → ℕ → List ℕ
mismatches [] right idx = []
mismatches (l ∷ left) [] idx = []
mismatches (l ∷ left) (r ∷ right) idx =
    let rest = mismatches left right (suc idx) in if l == r then rest else idx ∷ rest

-- `left_chars[i] == right_chars[j]`
abbrev pub same_char : Option ℕ → Option ℕ → Bool
same_char (some l) (some r) = l == r
same_char (some l) none = false
same_char none r = false

-- The match on the slice of mismatches.
unfoldable pub one_place : Chars → Chars → List ℕ → Bool
one_place left right [] = false
one_place left right (first ∷ []) = true
one_place left right (first ∷ second ∷ []) =
    (second == first + 1)
    && same_char (get_elem? left first) (get_elem? right second)
    && same_char (get_elem? left second) (get_elem? right first)
one_place left right (first ∷ second ∷ third ∷ rest) = false

-- The loop over the rests of the shorter and the longer text.
unfoldable pub one_skip : Bool → Chars → Chars → Bool
one_skip skipped [] longer = true
one_skip skipped (x ∷ shorter) [] = true
one_skip skipped (x ∷ shorter) (y ∷ longer) =
    let both = one_skip skipped shorter longer in
    let skip = one_skip true (x ∷ shorter) longer in
    if x == y then both else if skipped then false else skip

unfoldable pub is_edit_distance_le_one : Chars → Chars → Bool
is_edit_distance_le_one left right =
    if text_eq left right
    then true
    else if ltb 1 ((length left - length right) + (length right - length left))
    then false
    else if length left == length right
    then one_place left right (mismatches left right 0)
    else if ltb (length left) (length right)
    then one_skip false left right
    else one_skip false right left
