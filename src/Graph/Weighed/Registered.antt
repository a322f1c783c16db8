-- ===== src/Graph/Weighed/Registered.antt =====
-- crates/core/src/temporal_graph.rs: what a registration of a volatility changes.
use kronroe.Common.{sym, arith, ◌≡◌, refl, ◌∙◌, ap, none, some, if◌then◌else◌}
use kronroe.Common.Map
use kronroe.Common.Text.{Text, text_eq}
use kronroe.Error.{ok, err}
use kronroe.Log.{AppendLogState, apply_record, upsert_volatility_registry_entry}
use kronroe.Backend.{AppendLogBackend, AppendOutcome, write_volatility_registry_entry, Reply}
use kronroe.Backend.Writes.{commit_ok}
use kronroe.Uncertainty.{
  PredicateVolatility, UncertaintyEngine, volatility_json, volatility_for, register_volatility,
}
use kronroe.Graph.Weighed.{
  Weighed, after_write, register_predicate_volatility, predicate_volatility,
}

after_write_ok :
    (x x' : Weighed) (engine : UncertaintyEngine) (r : Reply (Unit {0}))
    → after_write x engine r ≡ some (x', ok tt)
    → (b : AppendLogBackend) × (r ≡ some (b, ok tt))
      × (x'.uncertainty_engine ≡ engine)
      × (x'.graph.storage ≡ b)
unfolding after_write
after_write_ok x x' engine none e = absurd (ground (arith, e))
after_write_ok x x' engine (some (b, ok u)) e =
    let same : record { graph = record x.graph { storage = b }; uncertainty_engine = engine } ≡ x' =
      cc e in
    (
      b,
      refl,
      sym (ap (λ (y : Weighed). y.uncertainty_engine) same),
      sym (ap (λ (y : Weighed). y.graph.storage) same),
    )
after_write_ok x x' engine (some (b, err f)) e = absurd (ground (arith, e))

-- The registry of the state after the entry is written.
registry_after :
    (io : AppendOutcome) (predicate encoded : Text) (b b' : AppendLogBackend)
    → write_volatility_registry_entry io predicate encoded b ≡ some (b', ok tt)
    → b'.state.volatility_registry ≡ Map.insert predicate encoded b.state.volatility_registry
unfolding write_volatility_registry_entry apply_record
registry_after io predicate encoded b b' e =
    let applied =
      (commit_ok io (upsert_volatility_registry_entry predicate encoded) tt tt b b' e).0 in
    let same : record b.state {
      volatility_registry = Map.insert predicate encoded b.state.volatility_registry;
    }
        ≡ b'.state =
      cc applied in
    sym (ap (λ (s : AppendLogState). s.volatility_registry) same)

-- After register_predicate_volatility of a predicate succeeds, predicate_volatility returns the
-- volatility for it and for every other predicate what it returned before, and the registry of
-- the storage has the text of the volatility under the predicate and under every other what it
-- had.
pub register_predicate_volatility-predicate_volatility :
    (io : AppendOutcome) (predicate : Text) (volatility : PredicateVolatility) (x x' : Weighed)
    → register_predicate_volatility io predicate volatility x ≡ some (x', ok tt)
    → ((q : Text)
        → predicate_volatility q x'
          ≡ (if text_eq predicate q then some volatility else predicate_volatility q x))
      × ((q : Text)
          → Map.get q x'.graph.storage.state.volatility_registry ≡ (
              if text_eq predicate q
              then some (volatility_json volatility)
              else Map.get q x.graph.storage.state.volatility_registry))
unfolding register_predicate_volatility predicate_volatility volatility_for register_volatility
register_predicate_volatility-predicate_volatility io predicate volatility x x' e =
    let (b, written, engine, storage) =
      after_write_ok x x' (register_volatility predicate volatility x.uncertainty_engine)
        (write_volatility_registry_entry io predicate (volatility_json volatility) x.graph.storage)
        e in
    (
      λ q.
          ap (λ e. volatility_for q e) engine
          ∙ Map.get-insert predicate q volatility x.uncertainty_engine.volatility,
      λ q.
          ap (λ (b : AppendLogBackend). Map.get q b.state.volatility_registry) storage
          ∙ ap (λ m. Map.get q m)
              (registry_after io predicate (volatility_json volatility) x.graph.storage b written)
          ∙ Map.get-insert predicate q (volatility_json volatility)
              x.graph.storage.state.volatility_registry,
    )
