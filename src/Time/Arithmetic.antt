-- ===== src/Time/Arithmetic.antt =====
-- crates/core/src/kronroe_time.rs: the saturating arithmetic on timestamps and spans.
use native.Mathlib.Nat.{div-add-mod', mod-lt}
use kronroe.Common.{ℕ, ◌<◌, ◌≡◌, arith}
use kronroe.Common.Int.{ℤ, pos, negsuc, ◌+ℤ◌, ◌-ℤ◌, ◌*ℤ◌, ◌≤ℤ◌, int_laws}
use kronroe.Time.{
  InRange, saturate, KronroeTimestamp, KronroeSpan, add_span, since, div_euclid, rem_euclid,
  div_trunc, num_days, days, span_of, micros_per_day,
}

pub saturate-InRange : (z : ℤ) → InRange (saturate z)
unfolding saturate
saturate-InRange z = ground arith

pub saturate_self : (z : ℤ) → InRange z → saturate z ≡ z
unfolding saturate
saturate_self z h = ground arith

saturate_mono : (y z : ℤ) → y ≤ℤ z → saturate y ≤ℤ saturate z
unfolding saturate
saturate_mono y z h = ground arith

-- Adding one span to two timestamps keeps their order, where the sum saturates included.
pub add_span_mono :
    (a b : KronroeTimestamp) (s : KronroeSpan)
    → a.unix_micros ≤ℤ b.unix_micros
    → (add_span a s).unix_micros ≤ℤ (add_span b s).unix_micros
unfolding add_span
add_span_mono a b s h =
    saturate_mono (a.unix_micros +ℤ s.micros) (b.unix_micros +ℤ s.micros) (omega int_laws)

add_micros : (a b : ℤ) → InRange a → InRange (a -ℤ b) → saturate (b +ℤ saturate (a -ℤ b)) ≡ a
add_micros a b ha hd =
    let e : b +ℤ (a -ℤ b) ≡ a = omega int_laws in
    rw (saturate_self (a -ℤ b) hd, e) (saturate_self a ha)

-- Where a timestamp and its difference from another are in the range of i64, adding the
-- difference to the other gives the timestamp.
pub add_span-since :
    (a b : KronroeTimestamp)
    → InRange a.unix_micros
    → InRange (a.unix_micros -ℤ b.unix_micros)
    → add_span b (since a b) ≡ a
unfolding add_span since
add_span-since a b ha hd =
    λ i. record { unix_micros = add_micros a.unix_micros b.unix_micros ha hd i }

-- Euclidean division splits an integer into a multiple and a remainder below the divisor.
pub div_euclid_lem :
    (z : ℤ) (d : ℕ)
    → 0 < d
    → (z ≡ div_euclid z d *ℤ pos d +ℤ pos (rem_euclid z d)) × (rem_euclid z d < d)
unfolding div_euclid rem_euclid ◌*ℤ◌ ◌+ℤ◌
div_euclid_lem (pos n) d h = (ground (arith, div-add-mod' n d), mod-lt n h)
div_euclid_lem (negsuc n) d h =
    (ground (arith, div-add-mod' n d, mod-lt n h), ground (arith, mod-lt n h))

div_trunc-* : (m : ℤ) → div_trunc (m *ℤ pos micros_per_day) micros_per_day ≡ m
unfolding div_trunc ◌*ℤ◌
div_trunc-* (pos k) = ground arith
div_trunc-* (negsuc k) = ground arith

-- The number of whole days of a span made of a number of days, whose microseconds are in the
-- range of i64, is that number.
pub num_days-days : (n : ℤ) → InRange (n *ℤ pos micros_per_day) → num_days (days n) ≡ n
unfolding num_days days span_of
num_days-days n h = rw (saturate_self (n *ℤ pos micros_per_day) h) (div_trunc-* n)
