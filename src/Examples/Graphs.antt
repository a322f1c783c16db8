-- ===== src/Examples/Graphs.antt =====
-- Runs of the theorems on the graph: a conflicting employer is refused, and an employment ends.
use kronroe.Common.{
  if◌then◌else◌, ℕ, ◌≡◌, refl, Option, some, none, List, [], ◌∷◌, arith, true, false, ◌&&◌,
}
use kronroe.Common.Text.{Text, codes, text_eq, text_eq_iff}
use kronroe.Common.Map
use kronroe.Common.Map.{Map}
use kronroe.Time.{not_after, before}
use kronroe.FactId.{FactId, encode_text, parse}
use kronroe.FactId
use kronroe.Fact
use kronroe.Fact.{Fact, text, invalidate}
use kronroe.Contradiction.{Contradiction, reject, policy_for, is_singleton}
use kronroe.Error.{ok, fail, ErrorKind}
use kronroe.Storage.{subject_predicate_prefix, StoredFactRow, fact_row_key}
use kronroe.Log.{AppendLogState, apply_record, upsert_fact, default, replay, replace_fact}
use kronroe.Query
use kronroe.Query.Rows.{row_at, expected}
use kronroe.Backend.{AppendLogBackend, written, replace_fact_row}
use kronroe.Graph.{TemporalGraph, invalidate_fact, row_of_input, Reply}
use kronroe.Graph.Singletons.{assert_fact_checked}
use kronroe.Graph.Consistent.{
  Consistent, assert_fact_checked-Consistent, assert_fact_checked_refuses,
}
use kronroe.Graph.Invalidation.{invalidate_fact-current_facts, invalidate_fact-facts_at}
use kronroe.Examples.{
  first_id, acme, acme_key, globex_key, at_second, alice, works_at, loaded, loaded-Inv, opened,
  state_or_default, graph, second_id, one_employer,
}

rejects : policy_for one_employer works_at ≡ reject
unfolding policy_for Map.get kronroe.Contradiction.register Map.insert text_eq
rejects = refl

single : is_singleton one_employer works_at ≡ true
unfolding is_singleton Map.get kronroe.Contradiction.register Map.insert text_eq
single = refl

acme_stored : Map.get acme_key loaded.facts ≡ some acme
unfolding loaded state_or_default Map.get apply_record kronroe.Log.insert_into_chain
    kronroe.Log.Versions.insertion_index Map.insert text_eq
acme_stored = refl

assert_fact_checked_refuses_example :
    (c : Contradiction) × (cs : List Contradiction) × (assert_fact_checked written second_id
        (at_second 30)
        alice
        works_at
        (text (codes "Globex"))
        (at_second 20)
        graph
      ≡ some (graph, fail (ErrorKind.contradiction_rejected (c ∷ cs))))
assert_fact_checked_refuses_example =
    assert_fact_checked_refuses written second_id (at_second 30) alice works_at
      (text (codes "Globex")) (at_second 20) graph rejects single acme_key acme (at_second 20)
      loaded-Inv acme_stored refl refl refl refl refl refl globex_differs
  where
    globex_differs :
        kronroe.Contradiction.values_conflict acme.object (text (codes "Globex")) ≡ true
    globex_differs = unfold kronroe.Contradiction.values_conflict text_eq in refl

-- The only row of the state.
loaded_rows : (k : Text) → Map.get k loaded.facts ≡ (if text_eq acme_key k then some acme else none)
unfolding loaded state_or_default text_eq Map.get apply_record kronroe.Log.insert_into_chain
    kronroe.Log.Versions.insertion_index Map.insert
loaded_rows k = refl

loaded-Consistent : Consistent alice works_at loaded.facts
loaded-Consistent j k f g ej ek ne = absurd (
    ne (
      ground (
        arith,
        loaded_rows j,
        loaded_rows k,
        text_eq_iff acme_key j,
        text_eq_iff acme_key k,
        ej,
        ek,
      )))

-- The same employer, asserted again.
abbrev again : Fact
again = Fact.new second_id (at_second 30) alice works_at (text (codes "Acme")) (at_second 20)

unfoldable agreed : AppendLogState
unfolding loaded state_or_default Fact.new
agreed = state_or_default (apply_record loaded (upsert_fact globex_key again))

abbrev agreed_graph : TemporalGraph
agreed_graph = record graph { storage = record opened { state = agreed } }

again_stored :
    assert_fact_checked written second_id
      (at_second 30)
      alice
      works_at
      (text (codes "Acme"))
      (at_second 20)
      graph
    ≡ some (agreed_graph, ok (second_id, []))
unfolding assert_fact_checked agreed is_singleton Map.get kronroe.Contradiction.register Map.insert
    text_eq policy_for kronroe.Graph.build_fact kronroe.Float.is_finite
    kronroe.Backend.write_fact_with_contradiction_check kronroe.Contradiction.check_against
    Fact.with_confidence kronroe.Float.clamp Query.active_facts apply_record
    kronroe.Log.insert_into_chain kronroe.Log.Versions.insertion_index
    kronroe.Log.KeySets.index_insert kronroe.Backend.append_record kronroe.Backend.commit
    kronroe.Backend.write_fact kronroe.Common.Int.◌-ℤ◌ Map.remove kronroe.Common.Set.insert
    kronroe.Common.Set.remove kronroe.Common.Text.starts_with kronroe.Common.Text.text_lt
    kronroe.Contradiction.compute_severity kronroe.Contradiction.conflicts_with
    kronroe.Contradiction.detect_pairwise kronroe.Contradiction.suggest_resolution
    kronroe.Contradiction.valid_time_overlap kronroe.Contradiction.values_conflict loaded
    state_or_default Fact.is_currently_valid Fact.new Fact.with_source kronroe.Float.abs
    kronroe.Float.ge kronroe.Float.is_nan kronroe.Float.is_negative kronroe.Float.lt
    kronroe.Float.nearest kronroe.Float.signed_difference kronroe.Float.sub kronroe.Float.units
    kronroe.Float.with_sign kronroe.Graph.assert_fact kronroe.Graph.Singletons.is_allow
    kronroe.Graph.Singletons.is_reject kronroe.Log.KeySets.index_remove
    kronroe.Log.Versions.insert_at kronroe.Log.Versions.remove_first
    kronroe.Log.apply_embedding_upsert kronroe.Log.apply_fact_upsert kronroe.Log.insert_fact_index
    kronroe.Log.put_row kronroe.Log.remove_fact_index kronroe.Log.remove_from_chain replay
    Query.facts_of Query.rows_of Query.rows_under fact_row_key subject_predicate_prefix
    kronroe.Time.div_trunc kronroe.Time.num_days kronroe.Time.num_seconds kronroe.Time.saturate
    kronroe.Time.since
again_stored = refl

assert_fact_checked-Consistent_example : Consistent alice works_at agreed.facts
assert_fact_checked-Consistent_example =
    assert_fact_checked-Consistent written second_id (at_second 30) alice works_at
      (text (codes "Acme")) (at_second 20) graph rejects single agreed_graph (ok (second_id, []))
      loaded-Inv loaded-Consistent again_stored

-- The employment ends.
abbrev acme_row : StoredFactRow
acme_row = record { key = acme_key; fact = acme }

unfoldable ended : AppendLogState
unfolding loaded state_or_default
ended =
    state_or_default (apply_record loaded (replace_fact acme_key (invalidate acme (at_second 15))))

abbrev ended_graph : TemporalGraph
ended_graph = record graph { storage = record opened { state = ended } }

acme_found : row_of_input first_id.text graph ≡ ok acme_row
unfolding row_of_input kronroe.Graph.resolve_fact_id_input parse Query.fact_by_id Map.get loaded
    apply_record kronroe.Log.insert_into_chain kronroe.Log.Versions.insertion_index Map.insert
    text_eq
acme_found = refl

acme_ended : invalidate_fact written first_id.text (at_second 15) graph ≡ some (ended_graph, ok tt)
unfolding invalidate_fact ended row_of_input kronroe.Graph.resolve_fact_id_input parse
    Query.fact_by_id Map.get apply_record kronroe.Log.insert_into_chain
    kronroe.Log.Versions.insertion_index Map.insert text_eq replace_fact_row kronroe.Backend.commit
    kronroe.Log.remove_from_chain subject_predicate_prefix kronroe.Log.Versions.remove_first
    kronroe.Log.Versions.insert_at Map.remove kronroe.Backend.append_record
    kronroe.Common.Digits.digits kronroe.Common.Set.insert kronroe.Common.Set.remove
    kronroe.Common.Text.starts_with kronroe.Common.Text.text_lt loaded state_or_default invalidate
    Fact.is_currently_valid FactId.decode_char FactId.digit FactId.encode_body encode_text
    FactId.from_be_bytes FactId.parse_body FactId.to_ascii_uppercase FactId.to_be_bytes
    kronroe.Log.KeySets.index_insert kronroe.Log.KeySets.index_remove
    kronroe.Log.apply_embedding_upsert kronroe.Log.apply_fact_upsert kronroe.Log.insert_fact_index
    kronroe.Log.put_row kronroe.Log.remove_fact_index replay
acme_ended = refl

invalidate_fact-current_facts_example :
    row_at acme_key (Query.current_facts alice works_at ended).0 ≡ (
      if text_eq acme_key acme_key
      then none
      else row_at acme_key (Query.current_facts alice works_at loaded).0)
invalidate_fact-current_facts_example =
    invalidate_fact-current_facts written first_id.text (at_second 15) graph ended_graph tt acme_row
      acme_found acme_ended alice works_at acme_key loaded-Inv

invalidate_fact-facts_at_example :
    row_at acme_key (Query.facts_at alice works_at (at_second 12) ended).0 ≡ (
      if text_eq acme_key acme_key
      then expected
          (λ f. not_after f.valid_from (at_second 12) && before (at_second 12) (at_second 15))
          (subject_predicate_prefix alice works_at)
          (some (invalidate acme (at_second 15)))
      else row_at acme_key (Query.facts_at alice works_at (at_second 12) loaded).0)
invalidate_fact-facts_at_example =
    invalidate_fact-facts_at written first_id.text (at_second 15) graph ended_graph tt acme_row
      acme_found acme_ended alice works_at acme_key (at_second 12) loaded-Inv
