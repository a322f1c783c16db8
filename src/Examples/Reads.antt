-- ===== src/Examples/Reads.antt =====
-- Runs of the theorems on the log and the reads of its state.
use kronroe.Common.{◌≡◌, refl, some, ◌∷◌, ◌++◌, arith, true}
use kronroe.Common.Text.{text_eq, codes}
use kronroe.Common.Map
use kronroe.Fact.{is_currently_valid, was_valid_at}
use kronroe.Storage.{subject_predicate_prefix}
use kronroe.Log.Versions.{insertion_index}
use kronroe.Log.{insert_into_chain, AppendLogState, default, replay, apply_record, upsert_fact}
use kronroe.Log.Invariant.{Inv, replay-Inv, apply_record-Inv, any, Applies}
use kronroe.Log.Upsert.{belongs}
use kronroe.Query.{current_facts, facts_at}
use kronroe.Query.Rows.{row_at, expected, current_facts_exact}
use kronroe.Query.History.{facts_at_exact}
use kronroe.Query.Keys.{NoColon, queries_ambiguous}
use kronroe.Examples.{
  globex, acme_key, globex_key, at_second, alice, works_at, log, loaded, loaded-Inv,
  state_or_default,
}

replay-Inv_example : (t : AppendLogState) × (replay default log ≡ some t) × Inv t
replay-Inv_example = replay-Inv log

apply_record-Inv_example : Applies loaded (upsert_fact globex_key globex)
apply_record-Inv_example = apply_record-Inv loaded (upsert_fact globex_key globex) loaded-Inv

current_facts_exact_example :
    row_at acme_key (current_facts alice works_at loaded).0
    ≡ expected is_currently_valid
        (subject_predicate_prefix alice works_at)
        (Map.get acme_key loaded.facts)
current_facts_exact_example = current_facts_exact alice works_at loaded acme_key loaded-Inv

facts_at_exact_example :
    row_at acme_key (facts_at alice works_at (at_second 12) loaded).0
    ≡ expected
        (λ fact. was_valid_at fact (at_second 12))
        (subject_predicate_prefix alice works_at)
        (Map.get acme_key loaded.facts)
facts_at_exact_example = facts_at_exact alice works_at (at_second 12) loaded acme_key loaded-Inv

acme_stored :
    belongs any (subject_predicate_prefix alice works_at) (Map.get acme_key loaded.facts) ≡ true
unfolding loaded state_or_default replay apply_record subject_predicate_prefix Map.get
    insert_into_chain insertion_index Map.insert text_eq
acme_stored = refl

alice-NoColon : NoColon alice
alice-NoColon = ground arith

queries_ambiguous_example :
    (current_facts (codes "a" ++ b':' ∷ codes "b") (codes "c") loaded
      ≡ current_facts (codes "a") (codes "b" ++ b':' ∷ codes "c") loaded)
    × (facts_at (codes "a" ++ b':' ∷ codes "b") (codes "c") (at_second 12) loaded
        ≡ facts_at (codes "a") (codes "b" ++ b':' ∷ codes "c") (at_second 12) loaded)
queries_ambiguous_example =
    queries_ambiguous (codes "a") (codes "b") (codes "c") (at_second 12) loaded
