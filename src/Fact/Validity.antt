-- ===== src/Fact/Validity.antt =====
-- crates/core/src/temporal_graph.rs: when a fact is valid, what an invalidation changes of it, and
-- the range of a confidence.
use kronroe.Common.{ℕ, true, false, ◌&&◌, ◌≡◌, refl, arith, Bool-cases, inl, inr}
use kronroe.Float.{f32, is_finite, is_nan, lt, clamp, abs, is_negative}
use kronroe.Time.{KronroeTimestamp, before, not_after}
use kronroe.Fact.{
  Fact, was_valid_at, is_currently_valid, invalidate, with_confidence, zero_f32, one_f32,
}

-- A fact invalidated at a moment is not currently valid, and is valid exactly at the times from
-- its start up to the moment.
pub invalidate_lem :
    (fact : Fact) (at t : KronroeTimestamp)
    → (is_currently_valid (invalidate fact at) ≡ false)
      × (was_valid_at (invalidate fact at) t ≡ (not_after fact.valid_from t && before t at))
unfolding is_currently_valid was_valid_at invalidate
invalidate_lem fact at t = (refl, ground arith)

-- A fact that is currently valid is valid at every moment from its start on, and at no other.
pub is_currently_valid-was_valid_at :
    (fact : Fact) (t : KronroeTimestamp)
    → is_currently_valid fact ≡ true
    → was_valid_at fact t ≡ not_after fact.valid_from t
unfolding is_currently_valid was_valid_at
is_currently_valid-was_valid_at fact t h = ground arith

-- Between 0.0 and 1.0, and not a NaN.
abbrev pub IsConfidence : ℕ → Type 0
IsConfidence c = (is_nan f32 c ≡ false) × (lt f32 c zero_f32 ≡ false) × (lt f32 one_f32 c ≡ false)

clamp-IsConfidence : (c : ℕ) → is_nan f32 c ≡ false → IsConfidence (clamp f32 zero_f32 one_f32 c)
unfolding is_nan lt clamp abs is_negative
clamp-IsConfidence c h = (ground arith, ground arith, ground arith)

clamp_kept : (c : ℕ) → IsConfidence c → clamp f32 zero_f32 one_f32 c ≡ c
unfolding clamp
clamp_kept c (n, low, high) = ground (arith, low, high)

finite_is_number : (c : ℕ) → is_finite f32 c ≡ true → is_nan f32 c ≡ false
unfolding is_finite is_nan
finite_is_number c e = ground arith

IsConfidence-finite : (c : ℕ) → IsConfidence c → is_finite f32 c ≡ true
unfolding is_finite is_nan lt abs is_negative
IsConfidence-finite c (n, low, high) = ground (arith, n, low, high)

-- For a fact whose confidence is a number between 0.0 and 1.0, with_confidence of any bit
-- pattern keeps the confidence in that range, and takes a pattern that is in the range as it is.
pub with_confidence_lem :
    (fact : Fact) (c : ℕ)
    → IsConfidence fact.confidence
    → IsConfidence (with_confidence fact c).confidence
      × (IsConfidence c → (with_confidence fact c).confidence ≡ c)
unfolding with_confidence
with_confidence_lem fact c h = elim (Bool-cases (is_finite f32 c)) [
  | inl e ↦
      rw (e, with_confidence) (clamp-IsConfidence c (finite_is_number c e), λ k. clamp_kept c k)
  | inr e ↦ rw (e, with_confidence) (h, λ k. absurd (ground (arith, IsConfidence-finite c k, e)))
]
