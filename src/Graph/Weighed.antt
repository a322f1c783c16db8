-- ===== src/Graph/Weighed.antt =====
-- crates/core/src/temporal_graph.rs: the operations on the registries of the uncertainty engine, which
-- stands beside the graph here.
pub mod Registered
use kronroe.Common.{ℕ, Option, none, some}
use kronroe.Common.Text.{Text}
use kronroe.Time.{KronroeTimestamp}
use kronroe.Fact.{Fact}
use kronroe.Error.{Result, ok, err}
use kronroe.Backend.{
  AppendOutcome, write_volatility_registry_entry, write_source_weight_registry_entry,
}
use kronroe.Backend
use kronroe.Uncertainty.{
  PredicateVolatility, SourceWeight, EffectiveConfidence, UncertaintyEngine, volatility_json,
  weight_json, volatility_for, source_weight_for,
}
use kronroe.Uncertainty
use kronroe.Graph.{TemporalGraph}

pub record Weighed : Type 0 where
  pub graph : TemporalGraph
  pub uncertainty_engine : UncertaintyEngine

-- A write to the storage, and what it changes of the engine if it succeeds.
unfoldable pub after_write :
    Weighed → UncertaintyEngine → Backend.Reply (Unit {0}) → Option (Weighed × Result (Unit {0}))
after_write x engine none = none
after_write x engine (some (b, ok u)) =
    some (record { graph = record x.graph { storage = b }; uncertainty_engine = engine }, ok u)
after_write x engine (some (b, err e)) =
    some (record x { graph = record x.graph { storage = b } }, err e)

unfoldable pub register_predicate_volatility :
    AppendOutcome → Text → PredicateVolatility → Weighed → Option (Weighed × Result (Unit {0}))
unfolding after_write
register_predicate_volatility io predicate volatility x =
    after_write x (Uncertainty.register_volatility predicate volatility x.uncertainty_engine)
      (write_volatility_registry_entry io predicate (volatility_json volatility) x.graph.storage)

unfoldable pub predicate_volatility : Text → Weighed → Option PredicateVolatility
predicate_volatility predicate x = volatility_for predicate x.uncertainty_engine

unfoldable pub register_source_weight :
    AppendOutcome → Text → SourceWeight → Weighed → Option (Weighed × Result (Unit {0}))
unfolding after_write
register_source_weight io source weight x =
    after_write x (Uncertainty.register_source_weight source weight x.uncertainty_engine)
      (write_source_weight_registry_entry io source (weight_json weight) x.graph.storage)

unfoldable pub source_weight : Text → Weighed → Option SourceWeight
source_weight source x = source_weight_for (some source) x.uncertainty_engine

unfoldable pub effective_confidence :
    (ℕ → ℕ) → Fact → KronroeTimestamp → Weighed → EffectiveConfidence
effective_confidence exp fact at x =
    Uncertainty.effective_confidence exp fact at x.uncertainty_engine
