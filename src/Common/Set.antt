-- ===== src/Common/Set.antt =====
-- `BTreeSet<String>`: a list of texts in ascending order.
use mathlib.Core.Path.{◌≡◌, refl}
use mathlib.Core.Bool.{Bool, false, ◌||◌}
use mathlib.Core.List.{List, [], ◌∷◌}
use native.Mathlib.Omega.{arith}
use kronroe.Common.Tests.{if◌then◌else◌}
use kronroe.Common.Text.{Text, text_eq, text_lt, text_eq_iff}

abbrev pub Set : Type 0
Set = List Text

unfoldable pub member : Text → Set → Bool
member k [] = false
member k (j ∷ s) = text_eq j k || member k s

unfoldable pub insert : Text → Set → Set
insert k [] = k ∷ []
insert k (j ∷ s) =
    let rest = insert k s in
    if text_eq j k then j ∷ s else if text_lt k j then k ∷ j ∷ s else j ∷ rest

unfoldable pub remove : Text → Set → Set
remove k [] = []
remove k (j ∷ s) = if text_eq j k then remove k s else j ∷ remove k s

pub member-insert : (k j : Text) (s : Set) → member j (insert k s) ≡ (text_eq k j || member j s)
unfolding member insert
member-insert k j [] = refl
member-insert k j (i ∷ s) =
    ground (arith, text_eq_iff k j, text_eq_iff i k, text_eq_iff i j, member-insert k j s)

pub member-remove :
    (k j : Text) (s : Set) → member j (remove k s) ≡ (if text_eq k j then false else member j s)
unfolding member remove
member-remove k j [] = ground arith
member-remove k j (i ∷ s) =
    ground (arith, text_eq_iff k j, text_eq_iff i k, text_eq_iff i j, member-remove k j s)
