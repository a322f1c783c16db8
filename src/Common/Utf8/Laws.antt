-- ===== src/Common/Utf8/Laws.antt =====
-- Texts of ASCII bytes, and texts that are put together.
use Prim.Native.Nat.{ℕ, zero, suc, ◌<◌}
use mathlib.Core.Path.{◌≡◌, refl, sym, ◌∙◌}
use mathlib.Core.Bool.{Bool, true, false, ◌&&◌}
use mathlib.Core.List.{[], ◌∷◌, ◌++◌}
use mathlib.Core.List.{append-nil}
use mathlib.Core.Path.{ap}
use native.Mathlib.Omega.{arith}
use kronroe.Common.Lists.{All}
use kronroe.Common.Tests.{leb, if◌then◌else◌}
use kronroe.Common.Text.{Text}
use kronroe.Common.Utf8.{announced, utf8_after, is_utf8}

abbrev pub AllAscii : Text → Type 0
AllAscii t = All (λ c. c < 0x80) t

pub AllAscii-append : (s t : Text) → AllAscii s → AllAscii t → AllAscii (s ++ t)
AllAscii-append [] t h g = g
AllAscii-append (c ∷ cs) t h g = (h.0, AllAscii-append cs t h.1 g)

pub AllAscii-if : (b : Bool) (s t : Text) → AllAscii s → AllAscii t → AllAscii (if b then s else t)
AllAscii-if true s t h g = h
AllAscii-if false s t h g = g

pub AllAscii-digits : (t : Text) → All (λ c. (leb b'0' c && leb c b'9') ≡ true) t → AllAscii t
AllAscii-digits [] h = tt
AllAscii-digits (c ∷ cs) h = (ground arith, AllAscii-digits cs h.1)

pub announced_ascii : (b : ℕ) → b < 0x80 → announced b ≡ record { more = 0; low = 0; high = 0 }
unfolding announced
announced_ascii b h = ground arith

-- ASCII in front of a text is taken off.
pub utf8_ascii : (s t : Text) → AllAscii s → utf8_after 0 0 0 (s ++ t) ≡ utf8_after 0 0 0 t
unfolding utf8_after
utf8_ascii [] t h = refl
utf8_ascii (c ∷ cs) t h =
    ap (λ n. utf8_after n.more n.low n.high (cs ++ t)) (announced_ascii c h.0) ∙ utf8_ascii cs t h.1

pub AllAscii-is_utf8 : (t : Text) → AllAscii t → is_utf8 t ≡ true
unfolding is_utf8
AllAscii-is_utf8 t h =
    ap (utf8_after 0 0 0) (sym (append-nil t)) ∙ utf8_ascii t [] h ∙ unfold utf8_after in refl

-- Between two characters the range of a next byte is of no account.
pub utf8_start : (low high : ℕ) (t : Text) → utf8_after 0 low high t ≡ utf8_after 0 0 0 t
unfolding utf8_after
utf8_start low high [] = refl
utf8_start low high (c ∷ cs) = refl

-- The last part of a conjunction that holds, replaced.
pub and_rest :
    (a x : Bool) {x' : Bool} (y : Bool) → (a && x) ≡ true → (x ≡ true → x' ≡ y) → (a && x') ≡ y
and_rest true x y h g = g h
and_rest false x y h g = absurd (cc h)

-- A whole text in front of another is taken off.
pub utf8-append :
    (s t : Text) (more low high : ℕ)
    → utf8_after more low high s ≡ true
    → utf8_after more low high (s ++ t) ≡ utf8_after 0 0 0 t
unfolding utf8_after
utf8-append [] [] zero low high h = refl
utf8-append [] (c ∷ cs) zero low high h = refl
utf8-append [] t (suc more) low high h = absurd (cc h)
utf8-append (b ∷ bs) t zero low high h =
    utf8-append bs t (announced b).more (announced b).low (announced b).high h
utf8-append (b ∷ bs) t (suc more) low high h =
    and_rest (leb low b && leb b high) _ _ h (utf8-append bs t more 0x80 0xbf)

pub is_utf8-append : (s t : Text) → is_utf8 s ≡ true → is_utf8 t ≡ true → is_utf8 (s ++ t) ≡ true
unfolding is_utf8
is_utf8-append s t h g = utf8-append s t 0 0 0 h ∙ g

-- An ASCII byte in front of a text.
pub byte_utf8 : (c : ℕ) (t : Text) → c < 0x80 → is_utf8 t ≡ true → is_utf8 (c ∷ t) ≡ true
unfolding is_utf8
byte_utf8 c t h u = utf8_ascii (c ∷ []) t (h, tt) ∙ u
