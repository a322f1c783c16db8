-- ===== src/Uncertainty.antt =====
-- crates/core/src/uncertainty.rs: volatility, source weights and the effective confidence. The
-- exponential function of the library of Rust is a parameter of those that use it.
pub mod Codec
use kronroe.Common.{
  ℕ, ◌+◌, ◌*◌, ◌^◌, Bool, true, false, not, ◌&&◌, ◌||◌, Option, none, some, [], ◌∷◌, ◌++◌, ltb, leb,
  if◌then◌else◌,
}
use kronroe.Common.Int.{ℤ, pos, negsuc}
use kronroe.Common.Map
use kronroe.Common.Map.{Map}
use kronroe.Common.Text.{Text, codes, text_eq}
use kronroe.Error.{Result, ok, fail, ErrorKind, ◌>>=◌}
use kronroe.Fact.{Fact, zero_f32, one_f32}
use kronroe.Fact.Json.{or_missing, field}
use kronroe.Float.{f32, f64, lt, is_finite, is_nan, clamp, nearest}
use kronroe.Float.Arithmetic.{mul, div}
use kronroe.Float.Decimal.{f32_of_f64}
use kronroe.Float.Display.{display, printed_f32, printed_f64}
use kronroe.Json.{JsonValue, null, number, str, get, as_f32, Outcome}
use kronroe.Json.Decoded.{decoded}
use kronroe.Time.{KronroeTimestamp, since, num_seconds}

pub record PredicateVolatility : Type 0 where
  pub half_life_days : ℕ

abbrev pub infinity : ℕ
infinity = 0x7ff0000000000000

abbrev pub stable : PredicateVolatility
stable = record { half_life_days = infinity }

-- `PredicateVolatility::new`
unfoldable pub new_volatility : ℕ → PredicateVolatility
unfolding is_finite lt
new_volatility half_life_days =
    if is_finite f64 half_life_days && lt f64 0 half_life_days
    then record { half_life_days = half_life_days }
    else stable

pub record SourceWeight : Type 0 where
  pub weight : ℕ

abbrev pub two_f32 : ℕ
two_f32 = 0x40000000

-- `SourceWeight::new`
unfoldable pub new_weight : ℕ → SourceWeight
unfolding is_finite clamp
new_weight weight = record {
  weight = if is_finite f32 weight then clamp f32 zero_f32 two_f32 weight else one_f32;
}

unfoldable pub volatility_json : PredicateVolatility → Text
unfolding is_finite display
volatility_json v =
    if is_finite f64 v.half_life_days
    then codes "{\"half_life_days\":" ++ (display printed_f64 v.half_life_days ++ codes "}")
    else codes "{\"half_life_days\":\"inf\"}"

-- `to_ascii_lowercase`
unfoldable pub to_ascii_lowercase : Text → Text
to_ascii_lowercase [] = []
to_ascii_lowercase (c ∷ cs) =
    (if leb b'A' c && leb c b'Z' then c + 32 else c) ∷ to_ascii_lowercase cs

-- The match on the half life.
unfoldable pub days_of : JsonValue → Result ℕ
unfolding to_ascii_lowercase
days_of (str s) =
    if text_eq (to_ascii_lowercase s) (codes "inf")
      || text_eq (to_ascii_lowercase s) (codes "infinity")
    then ok infinity
    else fail ErrorKind.serialization
days_of (number n) = ok n
days_of null = ok infinity
days_of _ = fail ErrorKind.serialization

unfoldable pub volatility_of : JsonValue → Result PredicateVolatility
unfolding days_of new_volatility
volatility_of val = do
  hl ← or_missing (get val (codes "half_life_days"))
  days ← days_of hl
  ok (new_volatility days)

-- `PredicateVolatility::from_json_str`
unfoldable pub volatility_from_json_str : Text → Outcome (Result PredicateVolatility)
unfolding decoded volatility_of
volatility_from_json_str = decoded volatility_of

unfoldable pub weight_json : SourceWeight → Text
unfolding display
weight_json w = codes "{\"weight\":" ++ (display printed_f32 w.weight ++ codes "}")

unfoldable pub weight_of : JsonValue → Result SourceWeight
unfolding new_weight
weight_of val = do w ← or_missing (field as_f32 (codes "weight") val); ok (new_weight w)

-- `SourceWeight::from_json_str`
unfoldable pub weight_from_json_str : Text → Outcome (Result SourceWeight)
unfolding decoded weight_of
weight_from_json_str = decoded weight_of

pub record EffectiveConfidence : Type 0 where
  pub value : ℕ
  pub base_confidence : ℕ
  pub decay : ℕ
  pub source_weight : ℕ

abbrev unit : ℕ
unit = 1074

-- `std::f64::consts::LN_2` with a minus sign, and `86_400.0`
abbrev neg_ln_2 : ℕ
neg_ln_2 = 0xbfe62e42fefa39ef

abbrev day_seconds : ℕ
day_seconds = 0x40f5180000000000

-- `age_days.max(0.0)`
unfoldable pub max_zero : ℕ → ℕ
unfolding lt is_nan
max_zero x = if is_nan f64 x || lt f64 x 0 then 0 else x

-- The seconds that are not negative, as `f64`.
unfoldable pub seconds_f64 : ℤ → ℕ
unfolding nearest
seconds_f64 (pos n) = nearest f64 (n * 2 ^ unit)
seconds_f64 (negsuc n) = 0

unfoldable pub half_life_of : Option PredicateVolatility → ℕ
half_life_of none = infinity
half_life_of (some v) = v.half_life_days

unfoldable pub weight_or_one : Option SourceWeight → ℕ
weight_or_one none = one_f32
weight_or_one (some w) = w.weight

pub record UncertaintyEngine : Type 0 where
  pub volatility : Map PredicateVolatility
  pub source_weights : Map SourceWeight

abbrev pub new_engine : UncertaintyEngine
new_engine = record { volatility = []; source_weights = [] }

unfoldable pub register_volatility :
    Text → PredicateVolatility → UncertaintyEngine → UncertaintyEngine
register_volatility predicate vol engine = record engine {
  volatility = Map.insert predicate vol engine.volatility;
}

unfoldable pub register_source_weight : Text → SourceWeight → UncertaintyEngine → UncertaintyEngine
register_source_weight source weight engine = record engine {
  source_weights = Map.insert source weight engine.source_weights;
}

unfoldable pub volatility_for : Text → UncertaintyEngine → Option PredicateVolatility
volatility_for predicate engine = Map.get predicate engine.volatility

unfoldable pub source_weight_for : Option Text → UncertaintyEngine → Option SourceWeight
source_weight_for none engine = none
source_weight_for (some source) engine = Map.get source engine.source_weights

module _ (exp : ℕ → ℕ) where
  unfoldable pub age_decay : ℕ → ℕ → ℕ
  unfolding is_finite lt max_zero mul div f32_of_f64 clamp
  age_decay age_days half_life_days =
      if not (is_finite f64 half_life_days) || not (lt f64 0 half_life_days)
      then one_f32
      else clamp f32 zero_f32 one_f32 (
          f32_of_f64
            (exp (div f64 unit (mul f64 unit neg_ln_2 (max_zero age_days)) half_life_days)))

  unfoldable pub compute_effective_confidence :
      Fact
      → KronroeTimestamp
      → Option PredicateVolatility
      → Option SourceWeight
      → EffectiveConfidence
  unfolding age_decay seconds_f64 half_life_of weight_or_one mul div clamp
  compute_effective_confidence fact t volatility source_weight =
      let age_days =
        div f64 unit (seconds_f64 (num_seconds (since t fact.valid_from))) day_seconds in
      let decay = age_decay age_days (half_life_of volatility) in
      let sw = weight_or_one source_weight in
      record {
        value = clamp f32 zero_f32 one_f32 (mul f32 149 (mul f32 149 fact.confidence decay) sw);
        base_confidence = fact.confidence;
        decay = decay;
        source_weight = sw;
      }

  unfoldable pub effective_confidence :
      Fact → KronroeTimestamp → UncertaintyEngine → EffectiveConfidence
  unfolding compute_effective_confidence volatility_for source_weight_for
  effective_confidence fact t engine =
      compute_effective_confidence fact t (volatility_for fact.predicate engine)
        (source_weight_for fact.source engine)
