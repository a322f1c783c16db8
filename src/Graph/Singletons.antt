-- ===== src/Graph/Singletons.antt =====
-- The operations of `TemporalGraph` (crates/core/src/temporal_graph.rs) on singleton predicates: their
-- registration, the detection of contradictions, and the checked assertion.
use kronroe.Common.{
  ℕ, Bool, true, false, not, ◌||◌, none, some, List, [], ◌∷◌, ◌++◌, is_none, if◌then◌else◌,
}
use kronroe.Common.Text.{Text}
use kronroe.Time.{KronroeTimestamp}
use kronroe.FactId.{FactId}
use kronroe.Fact.{Value, Fact, one_f32}
use kronroe.Contradiction.{
  Contradiction, ContradictionDetector, ConflictPolicy, allow, warn, reject, singleton, register,
  is_singleton, policy_for, check_against, detect_pairwise,
}
use kronroe.Contradiction.Registry.{encode_predicate_registry}
use kronroe.Error.{ok, err}
use kronroe.Storage.{subject_predicate_prefix}
use kronroe.Backend.{
  AppendOutcome, write_predicate_registry_entry, write_fact_with_contradiction_check,
}
use kronroe.Contradiction
use kronroe.Graph.{TemporalGraph, Reply, on_storage, build_fact, assert_fact, scan_prefix}

unfoldable pub register_singleton_predicate :
    AppendOutcome → Text → ConflictPolicy → TemporalGraph → Reply (Unit {0})
register_singleton_predicate io predicate policy g =
    elim (write_predicate_registry_entry io predicate (encode_predicate_registry singleton policy)
      g.storage) [
        | none ↦ none
        | some (b, err e) ↦ some (record g { storage = b }, err e)
        | some (b, ok u) ↦ some (
          record {
            storage = b;
            contradiction_detector = register g.contradiction_detector predicate singleton policy;
          },
          ok u,
        )
      ]

unfoldable pub is_singleton_predicate : Text → TemporalGraph → Bool
is_singleton_predicate predicate g = is_singleton g.contradiction_detector predicate

unfoldable pub singleton_predicates : TemporalGraph → List Text
singleton_predicates g = Contradiction.singleton_predicates g.contradiction_detector

-- `for j in (i + 1)..facts.len()`
unfoldable pub conflicts_after : Fact → List Fact → List Contradiction
conflicts_after fact [] = []
conflicts_after fact (f ∷ facts) =
    let rest = conflicts_after fact facts in
    elim (detect_pairwise fact f) [ none ↦ rest | some c ↦ c ∷ rest ]

-- The two loops over the pairs of a list.
unfoldable pub all_pairs : List Fact → List Contradiction
all_pairs [] = []
all_pairs (fact ∷ facts) = conflicts_after fact facts ++ all_pairs facts

unfoldable pub detect_contradictions : Text → Text → TemporalGraph → List Contradiction
detect_contradictions subject predicate g =
    if is_singleton g.contradiction_detector predicate
    then all_pairs
        (scan_prefix (subject_predicate_prefix subject predicate) (λ f. is_none f.expired_at) g)
    else []

unfoldable pub is_allow : ConflictPolicy → Bool
is_allow allow = true
is_allow warn = false
is_allow reject = false

unfoldable pub is_reject : ConflictPolicy → Bool
is_reject allow = false
is_reject warn = false
is_reject reject = true

unfoldable pub assert_fact_checked :
    AppendOutcome
    → FactId
    → KronroeTimestamp
    → Text
    → Text
    → Value
    → KronroeTimestamp
    → TemporalGraph
    → Reply (FactId × List Contradiction)
unfolding is_allow is_reject
assert_fact_checked io id now subject predicate object valid_from g =
    let det = g.contradiction_detector in
    if not (is_singleton det predicate) || is_allow (policy_for det predicate)
    then elim (assert_fact io id now subject predicate object valid_from g) [
      | none ↦ none
      | some (g', ok fact_id) ↦ some (g', ok (fact_id, []))
      | some (g', err e) ↦ some (g', err e)
    ]
    else elim (build_fact id now subject predicate object valid_from one_f32 none) [
      | err e ↦ some (g, err e)
      | ok fact ↦
          on_storage g (λ (found : List Contradiction × ℕ). (fact.id, found.0))
            (write_fact_with_contradiction_check io subject predicate fact
              (is_reject (policy_for det predicate))
              (λ existing. ok (check_against det fact existing)) g.storage)
    ]
