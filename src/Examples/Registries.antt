-- ===== src/Examples/Registries.antt =====
-- Runs of the theorems on registry entries: predicates and volatilities are read back.
use kronroe.Common.{ℕ, ◌≡◌, refl, true, List, [], ◌∷◌}
use kronroe.Common.Text.{Text, codes}
use kronroe.Common.{some, if◌then◌else◌}
use kronroe.Common.Map
use kronroe.Common.Text.{Text, text_eq}
use kronroe.Backend.{written}
use kronroe.Graph.Weighed.{Weighed, register_predicate_volatility, predicate_volatility}
use kronroe.Graph.Weighed.Registered.{register_predicate_volatility-predicate_volatility}
use kronroe.Uncertainty.{new_engine}
use kronroe.Examples.{graph, opened, loaded, works_at}
use kronroe.Contradiction.{singleton, multi_valued, warn, allow, new}
use kronroe.Contradiction.Reopen.{
  Registered, entries_of, register_all, init_detector, init_detector-entries_of,
}
use kronroe.Error.{ok}
use kronroe.Float.{f64, is_finite, lt}
use kronroe.Float.Display.{display, printed_f64}
use kronroe.Json.{Outcome}
use kronroe.Json.Numbers.{IsNumber}
use kronroe.Json.Parse.{parse_number}
use kronroe.Uncertainty.{volatility_json, new_volatility, volatility_from_json_str}
use kronroe.Uncertainty.Codec.{volatility_from_json_str-volatility_json}

abbrev two_predicates : List Registered
two_predicates = (codes "speaks", multi_valued, allow) ∷ (codes "works_at", singleton, warn) ∷ []

init_detector-entries_of_example :
    init_detector (entries_of two_predicates) ≡ Outcome.ok (ok (register_all new two_predicates))
init_detector-entries_of_example = init_detector-entries_of two_predicates

-- 730.0
abbrev two_years : ℕ
two_years = 4649632363725193216

two_years-IsNumber : IsNumber (display printed_f64 two_years) two_years
unfolding display parse_number kronroe.Common.Decimal.padded kronroe.Common.Decimal.width_of
    kronroe.Float.Decimal.is_ascii_digit kronroe.Common.Utf8.is_utf8 kronroe.Common.Utf8.utf8_after
    kronroe.Common.Utf8.announced kronroe.Json.Parse.signed_part kronroe.Json.Parse.int_part
    kronroe.Json.Scan.consume_digits kronroe.Json.Parse.fraction_part
    kronroe.Json.Parse.exponent_part kronroe.Json.Parse.number_of kronroe.Float.Decimal.f64_of_text
    kronroe.Float.is_nan kronroe.Float.is_negative is_finite kronroe.Common.Decimal.decimal_text
    kronroe.Float.units
two_years-IsNumber = record { start = refl; utf8 = refl; one_line = refl; whole = refl }

volatility_from_json_str-volatility_json_example :
    volatility_from_json_str (volatility_json (new_volatility two_years))
    ≡ Outcome.ok (ok (new_volatility two_years))
unfolding is_finite lt
volatility_from_json_str-volatility_json_example =
    volatility_from_json_str-volatility_json two_years refl two_years-IsNumber

abbrev weighed : Weighed
weighed = record { graph = graph; uncertainty_engine = new_engine }

-- The graph behind the registration of `works_at`.
abbrev registered : Weighed
registered = record {
  graph = record graph {
    storage = record opened {
      state = record loaded {
        volatility_registry = (works_at, volatility_json (new_volatility two_years)) ∷ [];
      };
    };
  };
  uncertainty_engine = record new_engine { volatility = (works_at, new_volatility two_years) ∷ [] };
}

works_at-registered :
    register_predicate_volatility written works_at (new_volatility two_years) weighed
    ≡ some (registered, ok tt)
unfolding register_predicate_volatility kronroe.Backend.write_volatility_registry_entry
    kronroe.Backend.commit kronroe.Log.apply_record Map.insert
    kronroe.Uncertainty.register_volatility loaded kronroe.Log.insert_into_chain
    kronroe.Log.Versions.insertion_index Map.get
works_at-registered = refl

register_predicate_volatility-predicate_volatility_example :
    ((q : Text)
      → predicate_volatility q registered ≡ (
          if text_eq works_at q
          then some (new_volatility two_years)
          else predicate_volatility q weighed))
    × ((q : Text)
        → Map.get q registered.graph.storage.state.volatility_registry ≡ (
            if text_eq works_at q
            then some (volatility_json (new_volatility two_years))
            else Map.get q weighed.graph.storage.state.volatility_registry))
register_predicate_volatility-predicate_volatility_example =
    register_predicate_volatility-predicate_volatility written works_at (new_volatility two_years)
      weighed registered works_at-registered
