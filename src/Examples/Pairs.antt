-- ===== src/Examples/Pairs.antt =====
-- Runs of the theorems on the contradictions of a whole graph: two employers at a time.
use kronroe.Common.{◌≡◌, refl, List, [], ◌∷◌, length, All}
use kronroe.Log.{AppendLogState, apply_record, upsert_fact}
use kronroe.Graph.{TemporalGraph}
use kronroe.Graph.AllPairs.{detect_all_contradictions}
use mathlib.Core.Path.{subst}
use mathlib.Core.List.{Perm}
use kronroe.Log.Invariant.{Inv, apply_record-Inv}
use kronroe.Contradiction.{singleton_predicates}
use kronroe.Graph.AllPairs.Genuine.{IsConflict, IsActive}
use kronroe.Graph.AllPairs.Exact.{table_conflicts, is_active, detect_all_contradictions_exact}
use kronroe.Examples.{
  loaded-Inv, state_or_default_lem, graph, opened, loaded, state_or_default, globex, globex_key,
}

unfoldable two_jobs : AppendLogState
unfolding loaded state_or_default
two_jobs = state_or_default (apply_record loaded (upsert_fact globex_key globex))

abbrev two_jobs_graph : TemporalGraph
two_jobs_graph = record graph { storage = record opened { state = two_jobs } }

one_found : length (detect_all_contradictions two_jobs_graph) ≡ 1
unfolding detect_all_contradictions kronroe.Contradiction.singleton_predicates
    kronroe.Contradiction.register kronroe.Common.Map.insert kronroe.Query.facts_of
    kronroe.Query.scan_facts kronroe.Common.Map.get two_jobs apply_record
    kronroe.Log.insert_into_chain kronroe.Log.Versions.insertion_index
    kronroe.Storage.subject_predicate_prefix kronroe.Log.Versions.insert_at
    kronroe.Common.Text.text_lt kronroe.Log.KeySets.index_insert kronroe.Query.rows_under
    kronroe.Common.Text.starts_with kronroe.Graph.Singletons.conflicts_after kronroe.Common.Int.◌-ℤ◌
    kronroe.Common.Map.remove kronroe.Common.Set.insert kronroe.Common.Text.text_eq
    kronroe.Contradiction.compute_severity kronroe.Contradiction.detect_pairwise
    kronroe.Contradiction.suggest_resolution kronroe.Contradiction.valid_time_overlap
    kronroe.Contradiction.values_conflict loaded state_or_default kronroe.Fact.is_currently_valid
    kronroe.Graph.AllPairs.contains_text kronroe.Graph.AllPairs.grouped
    kronroe.Graph.AllPairs.push_fact
one_found = refl

two_jobs-Inv : Inv two_jobs
unfolding two_jobs
two_jobs-Inv =
    let (t, e, i) = apply_record-Inv loaded (upsert_fact globex_key globex) loaded-Inv in
    subst Inv (state_or_default_lem (apply_record loaded (upsert_fact globex_key globex)) t e) i

detect_all_contradictions_exact_example :
    Perm (detect_all_contradictions two_jobs_graph) (
      table_conflicts
        (is_active (singleton_predicates two_jobs_graph.contradiction_detector))
        two_jobs.facts)
    × All (IsConflict (IsActive two_jobs_graph)) (detect_all_contradictions two_jobs_graph)
detect_all_contradictions_exact_example =
    detect_all_contradictions_exact two_jobs_graph two_jobs-Inv
