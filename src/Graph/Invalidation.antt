-- ===== src/Graph/Invalidation.antt =====
-- `invalidate_fact` of crates/core/src/temporal_graph.rs: what the reads return afterwards.
use mathlib.Core.Path.{subst}
use kronroe.Common.{
  ◌&&◌, ◌≡◌, refl, sym, ap, ◌∙◌, none, some, arith, if◌then◌else◌, inl, inr, Bool-cases,
}
use kronroe.Common.Text.{Text, text_eq}
use kronroe.Common.Map
use kronroe.Common.Map.{Map}
use kronroe.Time.{KronroeTimestamp, before, not_after}
use kronroe.Fact.{invalidate, is_currently_valid, was_valid_at}
use kronroe.Fact.Validity.{invalidate_lem}
use kronroe.Error.{ok}
use kronroe.Storage.{StoredFactRow, subject_predicate_prefix}
use kronroe.Log.{replace_fact, apply_record}
use kronroe.Log.Invariant.{Inv, apply_record-Inv}
use kronroe.Query
use kronroe.Query.Rows.{row_at, expected, current_facts_exact}
use kronroe.Query.History.{facts_at_exact}
use kronroe.Graph.Replies.{on_storage_ok}
use kronroe.Backend.{AppendOutcome, replace_fact_row}
use kronroe.Backend.Writes.{commit_ok, upsert_kept}
use kronroe.Graph.{TemporalGraph, row_of_input, invalidate_fact}

module _ (io : AppendOutcome) (fact_id : Text) (at : KronroeTimestamp) (g g' : TemporalGraph)
    (v : Unit {0}) (row : StoredFactRow) (found : row_of_input fact_id g ≡ ok row)
    (done : invalidate_fact io fact_id at g ≡ some (g', ok v)) where
  replaced :
      apply_record g.storage.state (replace_fact row.key (invalidate row.fact at))
      ≡ some g'.storage.state
  unfolding invalidate_fact replace_fact_row
  replaced =
      let (u, e, same) = on_storage_ok g g' _ _ v (rw (found, invalidate_fact) at done) in
      (commit_ok io _ tt u g.storage g'.storage e).0

  pub rows_after :
      (key : Text)
      → Map.get key g'.storage.state.facts ≡ (
          if text_eq row.key key
          then some (invalidate row.fact at)
          else Map.get key g.storage.state.facts)
  unfolding apply_record
  rows_after key =
      upsert_kept row.key (invalidate row.fact at) g.storage.state g'.storage.state key replaced

  pub after-Inv : Inv g.storage.state → Inv g'.storage.state
  after-Inv h =
      let (t, e, i) =
        apply_record-Inv g.storage.state (replace_fact row.key (invalidate row.fact at)) h in
      subst Inv (cc (e, replaced)) i

  -- In a graph whose indexes are exact, after invalidate_fact of a stored id succeeds,
  -- current_facts of any subject and predicate has no row under that key, and under every other
  -- key what it had before.
  pub invalidate_fact-current_facts :
      (subject predicate key : Text)
      → Inv g.storage.state
      → row_at key (Query.current_facts subject predicate g'.storage.state).0 ≡ (
          if text_eq row.key key
          then none
          else row_at key (Query.current_facts subject predicate g.storage.state).0)
  invalidate_fact-current_facts subject predicate key h =
      current_facts_exact subject predicate g'.storage.state key (after-Inv h)
      ∙ ap (expected is_currently_valid prefix) (rows_after key)
      ∙ elim (Bool-cases (text_eq row.key key)) [
        | inl same ↦ rw same (ground (arith, (invalidate_lem row.fact at at).0))
        | inr other ↦ rw other (sym (current_facts_exact subject predicate g.storage.state key h))
      ]
    where
      prefix : Text
      prefix = subject_predicate_prefix subject predicate

  -- In a graph whose indexes are exact, after invalidate_fact of a stored id at a moment
  -- succeeds, facts_at has under that key the closed fact exactly for its prefix and at times
  -- from its start up to the moment, and under every other key what it had before.
  pub invalidate_fact-facts_at :
      (subject predicate key : Text) (t : KronroeTimestamp)
      → Inv g.storage.state
      → row_at key (Query.facts_at subject predicate t g'.storage.state).0 ≡ (
          if text_eq row.key key
          then expected
              (λ f. not_after f.valid_from t && before t at)
              (subject_predicate_prefix subject predicate)
              (some (invalidate row.fact at))
          else row_at key (Query.facts_at subject predicate t g.storage.state).0)
  invalidate_fact-facts_at subject predicate key t h =
      facts_at_exact subject predicate t g'.storage.state key (after-Inv h)
      ∙ ap (expected (λ f. was_valid_at f t) prefix) (rows_after key)
      ∙ elim (Bool-cases (text_eq row.key key)) [
        | inl same ↦ rw same (ground (arith, (invalidate_lem row.fact at t).1, unmoved))
        | inr other ↦ rw other (sym (facts_at_exact subject predicate t g.storage.state key h))
      ]
    where
      prefix : Text
      prefix = subject_predicate_prefix subject predicate

      unmoved : (invalidate row.fact at).valid_from ≡ row.fact.valid_from
      unmoved = unfold invalidate in refl
