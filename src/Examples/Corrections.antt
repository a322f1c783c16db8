-- ===== src/Examples/Corrections.antt =====
-- Runs of the theorems on assertions and corrections: the employer of a stored fact is corrected.
use kronroe.Common.{◌≡◌, refl, Option, some, none, if◌then◌else◌}
use kronroe.Common.Text.{codes, text_eq}
use kronroe.Common.Map
use kronroe.FactId
use kronroe.FactId.{FactId}
use kronroe.Fact.{Fact, text, invalidate, is_currently_valid}
use kronroe.Fact
use kronroe.Error.{ok}
use kronroe.Storage.{StoredFactRow, subject_predicate_prefix, fact_row_key}
use kronroe.Log.{AppendLogState, apply_record, upsert_fact, replace_fact}
use kronroe.Query
use kronroe.Query.Rows.{row_at, expected}
use kronroe.Backend.{written}
use kronroe.Graph.{TemporalGraph, assert_fact, correct_fact, fact_by_id, row_of_input}
use kronroe.Graph.Correction.{asserted, assert_fact-fact_by_id, correct_fact-current_facts}
use kronroe.Examples.{
  acme, acme_key, globex_key, at_second, alice, works_at, loaded, loaded-Inv, opened,
  state_or_default, graph, first_id, second_id, second_parses,
}

-- `alice works_at Globex`, as the graph asserts it
abbrev new_job : Fact
new_job = Fact.new second_id (at_second 30) alice works_at (text (codes "Globex")) (at_second 20)

unfoldable hired : AppendLogState
unfolding loaded state_or_default Fact.new
hired = state_or_default (apply_record loaded (upsert_fact globex_key new_job))

abbrev hired_graph : TemporalGraph
hired_graph = record graph { storage = record opened { state = hired } }

globex_asserted :
    assert_fact written second_id
      (at_second 30)
      alice
      works_at
      (text (codes "Globex"))
      (at_second 20)
      graph
    ≡ some (hired_graph, ok second_id)
unfolding assert_fact hired kronroe.Graph.build_fact kronroe.Float.is_finite
    kronroe.Backend.write_fact kronroe.Backend.commit apply_record kronroe.Log.insert_into_chain
    kronroe.Log.Versions.insertion_index Map.get Map.insert text_eq fact_row_key
    Fact.with_confidence kronroe.Float.clamp subject_predicate_prefix kronroe.Log.Versions.insert_at
    kronroe.Common.Text.text_lt
globex_asserted = refl

assert_fact-fact_by_id_example :
    (second_id ≡ second_id)
    × (fact_by_id second_id.text hired_graph
        ≡ ok (
            asserted written second_id
              (at_second 30)
              alice
              works_at
              (text (codes "Globex"))
              (at_second 20)))
assert_fact-fact_by_id_example =
    assert_fact-fact_by_id written second_id (at_second 30) alice works_at (text (codes "Globex"))
      (at_second 20) graph hired_graph second_id second_parses globex_asserted

abbrev acme_row : StoredFactRow
acme_row = record { key = acme_key; fact = acme }

unfoldable ended : AppendLogState
unfolding loaded state_or_default
ended =
    state_or_default (apply_record loaded (replace_fact acme_key (invalidate acme (at_second 20))))

unfoldable corrected : AppendLogState
unfolding ended state_or_default Fact.new
corrected = state_or_default (apply_record ended (upsert_fact globex_key new_job))

abbrev corrected_graph : TemporalGraph
corrected_graph = record graph { storage = record opened { state = corrected } }

acme_found : row_of_input first_id.text graph ≡ ok acme_row
unfolding row_of_input kronroe.Graph.resolve_fact_id_input FactId.parse Query.fact_by_id Map.get
    loaded apply_record kronroe.Log.insert_into_chain kronroe.Log.Versions.insertion_index
    Map.insert text_eq
acme_found = refl

acme_corrected :
    correct_fact written written second_id
      (at_second 30)
      first_id.text
      (text (codes "Globex"))
      (at_second 20)
      graph
    ≡ some (corrected_graph, ok second_id)
unfolding correct_fact corrected fact_by_id row_of_input kronroe.Graph.resolve_fact_id_input
    FactId.parse Query.fact_by_id Map.get apply_record kronroe.Log.insert_into_chain
    kronroe.Log.Versions.insertion_index Map.insert text_eq kronroe.Graph.invalidate_fact
    kronroe.Backend.replace_fact_row kronroe.Backend.commit kronroe.Log.remove_from_chain
    subject_predicate_prefix kronroe.Log.Versions.remove_first kronroe.Backend.append_record
    kronroe.Backend.write_fact kronroe.Common.Digits.digits Map.remove kronroe.Common.Set.insert
    kronroe.Common.Set.remove kronroe.Common.Text.starts_with kronroe.Common.Text.text_lt ended
    loaded state_or_default invalidate is_currently_valid Fact.new Fact.with_confidence
    Fact.with_source FactId.decode_char FactId.digit FactId.encode_body FactId.encode_text
    FactId.from_be_bytes FactId.parse_body FactId.to_ascii_uppercase FactId.to_be_bytes
    kronroe.Float.abs kronroe.Float.clamp kronroe.Float.is_finite kronroe.Float.is_nan
    kronroe.Float.is_negative kronroe.Float.lt assert_fact kronroe.Graph.build_fact
    kronroe.Graph.row_found kronroe.Log.KeySets.index_insert kronroe.Log.KeySets.index_remove
    kronroe.Log.Versions.insert_at kronroe.Log.apply_embedding_upsert kronroe.Log.apply_fact_upsert
    kronroe.Log.insert_fact_index kronroe.Log.put_row kronroe.Log.remove_fact_index
    kronroe.Log.replay fact_row_key
acme_corrected = refl

correct_fact-current_facts_example :
    row_at acme_key (Query.current_facts alice works_at corrected).0 ≡ (
      if text_eq (fact_row_key acme.subject acme.predicate second_id) acme_key
      then expected is_currently_valid (subject_predicate_prefix alice works_at) (
          some (
            asserted written second_id
              (at_second 30)
              acme.subject
              acme.predicate
              (text (codes "Globex"))
              (at_second 20)))
      else if text_eq acme_key acme_key
      then none
      else row_at acme_key (Query.current_facts alice works_at loaded).0)
correct_fact-current_facts_example =
    correct_fact-current_facts written written second_id (at_second 30) first_id.text
      (text (codes "Globex")) (at_second 20) graph corrected_graph second_id acme_row alice works_at
      acme_key loaded-Inv acme_found acme_corrected
