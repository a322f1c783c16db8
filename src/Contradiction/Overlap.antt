-- ===== src/Contradiction/Overlap.antt =====
-- crates/core/src/contradiction.rs, `valid_time_overlap`: the overlap of two valid-time windows.
use kronroe.Common.{
  Bool, true, false, ◌&&◌, ◌||◌, if◌then◌else◌, ◌≡◌, Option, none, some, arith, is_some,
}
use kronroe.Common.Int.{ℤ, ltb_ℤ, leb_ℤ, eq_ℤ}
use kronroe.Time.{KronroeTimestamp, max_timestamp, before, not_after, i64_max}
use kronroe.Fact.{Fact, none_or_after}
use kronroe.Contradiction.{Window, end_of, valid_time_overlap}

-- A fact's valid-time window has a moment.
abbrev pub covers : Fact → KronroeTimestamp → Bool
covers fact t = not_after fact.valid_from t && none_or_after fact.valid_to t

abbrev pub in_window : Option Window → KronroeTimestamp → Bool
in_window none t = false
in_window (some (start, end)) t = not_after start t && none_or_after end t

-- The overlap of two facts that are not expired, by their windows alone.
overlap_of : ℤ → ℤ → ℤ → ℤ → Option Window
overlap_of from_a end_a from_b end_b =
    if ltb_ℤ from_a end_b && ltb_ℤ from_b end_a
    then (let min_end = if ltb_ℤ end_b end_a then end_b else end_a in
        some (
          record { unix_micros = if ltb_ℤ from_b from_a then from_a else from_b },
          if eq_ℤ min_end i64_max then none else some (record { unix_micros = min_end }),
        ))
    else none

overlap_of_moments :
    (from_a end_a from_b end_b t : ℤ)
    → ltb_ℤ t i64_max ≡ true
    → in_window (overlap_of from_a end_a from_b end_b) (record { unix_micros = t })
      ≡ ((leb_ℤ from_a t && ltb_ℤ t end_a) && (leb_ℤ from_b t && ltb_ℤ t end_b))
unfolding overlap_of
overlap_of_moments from_a end_a from_b end_b t h = ground arith

overlap-eq-overlap_of :
    (a b : Fact)
    → a.expired_at ≡ none
    → b.expired_at ≡ none
    → valid_time_overlap a b
      ≡ overlap_of a.valid_from.unix_micros
          (end_of a).unix_micros
          b.valid_from.unix_micros
          (end_of b).unix_micros
unfolding valid_time_overlap overlap_of
overlap-eq-overlap_of a b ea eb = ground arith

covers-end_of :
    (a : Fact) (t : KronroeTimestamp)
    → before t max_timestamp ≡ true
    → covers a t
      ≡ (leb_ℤ a.valid_from.unix_micros t.unix_micros && ltb_ℤ t.unix_micros (end_of a).unix_micros)
covers-end_of a t h = ground arith

-- The overlap of two unexpired facts has a moment before the last timestamp exactly if the
-- valid-time windows of both facts have it.
pub valid_time_overlap_moments :
    (a b : Fact) (t : KronroeTimestamp)
    → a.expired_at ≡ none
    → b.expired_at ≡ none
    → before t max_timestamp ≡ true
    → in_window (valid_time_overlap a b) t ≡ (covers a t && covers b t)
valid_time_overlap_moments a b t ea eb h =
    rw (overlap-eq-overlap_of a b ea eb, covers-end_of a t h, covers-end_of b t h)
      (overlap_of_moments a.valid_from.unix_micros (end_of a).unix_micros b.valid_from.unix_micros
        (end_of b).unix_micros t.unix_micros h)

-- An expired fact overlaps nothing.
pub valid_time_overlap_expired :
    (a b : Fact)
    → (is_some a.expired_at || is_some b.expired_at) ≡ true
    → valid_time_overlap a b ≡ none
unfolding valid_time_overlap
valid_time_overlap_expired a b h = ground arith
