-- ===== src/Fact.antt =====
-- crates/core/src/temporal_graph.rs, the data model: values, bi-temporal facts, their validity on
-- both time axes, and the builders. A `f64` or `f32` is its bit pattern (Float.antt).
pub mod Validity
pub mod Json
use kronroe.Common.{ℕ, Bool, true, false, ◌&&◌, Option, none, some, if◌then◌else◌, is_none}
use kronroe.Common.Text.{Text}
use kronroe.Float.{f32, is_finite, clamp}
use kronroe.Time.{KronroeTimestamp, before, not_after}
use kronroe.FactId.{FactId}

pub data Value : Type 0 where
  text : Text → Value
  number : ℕ → Value
  boolean : Bool → Value
  entity : Text → Value

pub record Fact : Type 0 where
  pub id : FactId
  pub subject : Text
  pub predicate : Text
  pub object : Value
  pub valid_from : KronroeTimestamp
  pub valid_to : Option KronroeTimestamp
  pub recorded_at : KronroeTimestamp
  pub expired_at : Option KronroeTimestamp
  pub confidence : ℕ
  pub source : Option Text

-- 0.0 and 1.0 as `f32`
abbrev pub zero_f32 : ℕ
zero_f32 = 0

abbrev pub one_f32 : ℕ
one_f32 = 0x3f800000

-- `Fact::new`, given the id that the generator returns and the time that the clock reads
unfoldable pub new : FactId → KronroeTimestamp → Text → Text → Value → KronroeTimestamp → Fact
new id now subject predicate object valid_from = record {
  id = id;
  subject = subject;
  predicate = predicate;
  object = object;
  valid_from = valid_from;
  valid_to = none;
  recorded_at = now;
  expired_at = none;
  confidence = one_f32;
  source = none;
}

-- The builder, without the assertion of a debug build.
unfoldable pub with_confidence : Fact → ℕ → Fact
with_confidence fact confidence =
    if is_finite f32 confidence
    then record fact { confidence = clamp f32 zero_f32 one_f32 confidence }
    else fact

unfoldable pub with_source : Fact → Text → Fact
with_source fact source = record fact { source = some source }

unfoldable pub is_currently_valid : Fact → Bool
is_currently_valid fact = is_none fact.valid_to && is_none fact.expired_at

-- `opt.is_none_or(|t| t > at)`
abbrev pub none_or_after : Option KronroeTimestamp → KronroeTimestamp → Bool
none_or_after none at = true
none_or_after (some t) at = before at t

unfoldable pub was_valid_at : Fact → KronroeTimestamp → Bool
was_valid_at fact at =
    not_after fact.valid_from at
    && none_or_after fact.valid_to at
    && none_or_after fact.expired_at at

-- What `invalidate_fact` writes: both windows are closed at one time.
unfoldable pub invalidate : Fact → KronroeTimestamp → Fact
invalidate fact at = record fact { valid_to = some at; expired_at = some at }
