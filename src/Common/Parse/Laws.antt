-- ===== src/Common/Parse/Laws.antt =====
-- Texts put together around a byte that stands in none of them are taken apart again.
use Prim.Native.Nat.{ℕ, ◌≤◌}
use mathlib.Core.Path.{◌≡◌, refl}
use mathlib.Core.Bool.{true, false, ◌&&◌}
use mathlib.Core.List.{[], ◌∷◌, ◌++◌}
use mathlib.Core.Option.{none, some}
use native.Mathlib.Omega.{arith}
use kronroe.Common.Tests.{◌==◌, leb}
use kronroe.Common.Lists.{All}
use kronroe.Common.Text.{Text}
use kronroe.Common.Int.{pos}
use kronroe.Common.Parse.{split_once, split, strip_suffix, decimal, parse_unsigned, parse_signed}

-- The byte is not in the text.
abbrev pub Without : ℕ → Text → Type 0
Without sep t = All (λ c. (c == sep) ≡ false) t

abbrev pub AllDigits : Text → Type 0
AllDigits t = All (λ c. (leb b'0' c && leb c b'9') ≡ true) t

pub Without-append : (sep : ℕ) (s t : Text) → Without sep s → Without sep t → Without sep (s ++ t)
Without-append sep [] t h g = g
Without-append sep (c ∷ cs) t h g = (h.0, Without-append sep cs t h.1 g)

pub AllDigits-Without :
    (sep : ℕ) (t : Text) → (leb b'0' sep && leb sep b'9') ≡ false → AllDigits t → Without sep t
AllDigits-Without sep [] h d = tt
AllDigits-Without sep (c ∷ cs) h d = (ground arith, AllDigits-Without sep cs h d.1)

pub split_once-append :
    (sep : ℕ) (s t : Text) → Without sep s → split_once sep (s ++ (sep ∷ t)) ≡ some (s, t)
unfolding split_once
split_once-append sep [] t h = ground arith
split_once-append sep (c ∷ cs) t h = rw (h.0, split_once-append sep cs t h.1) refl

pub split_once-Without : (sep : ℕ) (s : Text) → Without sep s → split_once sep s ≡ none
unfolding split_once
split_once-Without sep [] h = refl
split_once-Without sep (c ∷ cs) h = rw (h.0, split_once-Without sep cs h.1) refl

pub split-append :
    (sep : ℕ) (s t : Text) → Without sep s → split sep (s ++ (sep ∷ t)) ≡ s ∷ split sep t
unfolding split
split-append sep [] t h = ground arith
split-append sep (c ∷ cs) t h = rw (h.0, split-append sep cs t h.1) refl

pub split-Without : (sep : ℕ) (s : Text) → Without sep s → split sep s ≡ s ∷ []
unfolding split
split-Without sep [] h = refl
split-Without sep (c ∷ cs) h = rw (h.0, split-Without sep cs h.1) refl

pub strip_suffix-append : (byte : ℕ) (t : Text) → strip_suffix byte (t ++ (byte ∷ [])) ≡ some t
unfolding strip_suffix
strip_suffix-append byte [] = ground arith
strip_suffix-append byte (c ∷ []) = ground arith
strip_suffix-append byte (c ∷ d ∷ cs) = rw (strip_suffix-append byte (d ∷ cs)) refl

-- A text of digits reads as an unsigned number and as a signed one alike.
pub parse_unsigned-digits :
    (bound n c : ℕ) (cs : Text)
    → AllDigits (c ∷ cs)
    → decimal 0 (c ∷ cs) ≡ some n
    → n ≤ bound
    → parse_unsigned bound (c ∷ cs) ≡ some n
unfolding parse_unsigned
parse_unsigned-digits bound n c cs d e h =
    let plain : (c == b'+') ≡ false = ground arith in
    let fits : leb n bound ≡ true = ground arith in rw (plain, e, fits) refl

pub parse_signed-digits :
    (bound n c : ℕ) (cs : Text)
    → AllDigits (c ∷ cs)
    → decimal 0 (c ∷ cs) ≡ some n
    → n ≤ bound
    → parse_signed bound (c ∷ cs) ≡ some (pos n)
unfolding parse_signed
parse_signed-digits bound n c cs d e h =
    let plain : (c == b'+') ≡ false = ground arith in
    let positive : (c == b'-') ≡ false = ground arith in
    let fits : leb n bound ≡ true = ground arith in rw (positive, plain, e, fits) refl
