-- ===== src/Common/Utf8.antt =====
-- `str::from_utf8`: which byte sequences are a text, by the table of the Unicode standard.
pub mod Laws
use Prim.Native.Nat.{ℕ, zero, suc}
use mathlib.Core.Bool.{Bool, true, false, ◌&&◌}
use mathlib.Core.List.{[], ◌∷◌}
use mathlib.Core.Path.{◌≡◌}
use native.Mathlib.Omega.{arith}
use kronroe.Common.Tests.{leb, ltb, if◌then◌else◌}
use kronroe.Common.Text.{Text}

-- How many bytes have yet to come, and the range of the next one.
pub record Pending : Type 0 where
  pub more : ℕ
  pub low : ℕ
  pub high : ℕ

-- What a first byte announces; an empty range after a byte that cannot stand first.
unfoldable pub announced : ℕ → Pending
announced b =
    if ltb b 0x80
    then record { more = 0; low = 0; high = 0 }
    else if ltb b 0xc2
    then record { more = 1; low = 1; high = 0 }
    else if ltb b 0xe0
    then record { more = 1; low = 0x80; high = 0xbf }
    else if leb b 0xe0
    then record { more = 2; low = 0xa0; high = 0xbf }
    else if leb 0xed b && leb b 0xed
    then record { more = 2; low = 0x80; high = 0x9f }
    else if ltb b 0xf0
    then record { more = 2; low = 0x80; high = 0xbf }
    else if leb b 0xf0
    then record { more = 3; low = 0x90; high = 0xbf }
    else if ltb b 0xf4
    then record { more = 3; low = 0x80; high = 0xbf }
    else if leb b 0xf4
    then record { more = 3; low = 0x80; high = 0x8f }
    else record { more = 1; low = 1; high = 0 }

unfoldable pub utf8_after : ℕ → ℕ → ℕ → Text → Bool
utf8_after zero low high [] = true
utf8_after (suc more) low high [] = false
utf8_after zero low high (b ∷ bs) =
    let next = announced b in utf8_after next.more next.low next.high bs
utf8_after (suc more) low high (b ∷ bs) = leb low b && leb b high && utf8_after more 0x80 0xbf bs

unfoldable pub is_utf8 : Text → Bool
is_utf8 s = utf8_after 0 0 0 s
