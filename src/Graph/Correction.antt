-- ===== src/Graph/Correction.antt =====
-- `assert_fact` and `correct_fact` of crates/core/src/temporal_graph.rs: what the reads return
-- afterwards.
use mathlib.Core.Path.{subst}
use kronroe.Common.{
  arith, ◌≡◌, refl, sym, ◌∙◌, none, some, arith, if◌then◌else◌, inl, inr, Bool-cases,
}
use kronroe.Common.Text.{Text, text_eq, text_eq_refl}
use kronroe.Time.{KronroeTimestamp}
use kronroe.FactId.{FactId, parse}
use kronroe.FactId
use kronroe.Fact.{Fact, Value, is_currently_valid, one_f32}
use kronroe.Fact
use kronroe.Error.{ok, err}
use kronroe.Storage.{StoredFactRow, subject_predicate_prefix, fact_row_key}
use kronroe.Log.Invariant.{Inv}
use kronroe.Query
use kronroe.Query.Rows.{row_at, expected, current_facts_exact}
use kronroe.Backend.{AppendOutcome, write_fact}
use kronroe.Backend.Writes.{write_fact-current_facts}
use kronroe.Backend.Lookup.{write_fact-fact_by_id}
use kronroe.Graph.{
  TemporalGraph, Reply, row_of_input, row_found, resolve_fact_id_input, fact_by_id, invalidate_fact,
  assert_fact, correct_fact,
}
use kronroe.Graph.Replies.{build_fact_default, on_storage_ok}
use kronroe.Graph.Invalidation.{after-Inv, invalidate_fact-current_facts}

module _ (io : AppendOutcome) (id : FactId) (now : KronroeTimestamp) (subject predicate : Text)
    (object : Value) (valid_from : KronroeTimestamp) where
  abbrev pub asserted : Fact
  asserted = Fact.new id now subject predicate object valid_from

  assert_fact_written :
      (g g' : TemporalGraph) (new_id : FactId)
      → assert_fact io id now subject predicate object valid_from g ≡ some (g', ok new_id)
      → (u : Unit {0}) × (write_fact io asserted g.storage ≡ some (g'.storage, ok u))
        × (new_id ≡ id)
  unfolding assert_fact Fact.new
  assert_fact_written g g' new_id e =
      on_storage_ok g g' (λ (u : Unit {0}). id) (write_fact io asserted g.storage) new_id
        (rw (build_fact_default id now subject predicate object valid_from) at e)

  -- If assert_fact succeeds for an id whose text parses back to it, it returns that id, and
  -- fact_by_id of its text then returns the fact that was asserted.
  pub assert_fact-fact_by_id :
      (g g' : TemporalGraph) (new_id : FactId)
      → parse id.text ≡ FactId.ok id
      → assert_fact io id now subject predicate object valid_from g ≡ some (g', ok new_id)
      → (new_id ≡ id) × (fact_by_id new_id.text g' ≡ ok asserted)
  unfolding fact_by_id row_of_input resolve_fact_id_input row_found Fact.new
  assert_fact-fact_by_id g g' new_id parses e =
      let (u, w, same) = assert_fact_written g g' new_id e in
      let looked : (Query.fact_by_id id g'.storage.state).0
          ≡ some (record { key = fact_row_key subject predicate id; fact = asserted }) =
        write_fact-fact_by_id io asserted g.storage g'.storage u id w
        ∙ ground (arith, text_eq_refl id.text) in
      let known : fact_by_id id.text g' ≡ ok asserted = ground (arith, parses, looked) in
      (same, subst (λ (i : FactId). fact_by_id i.text g' ≡ ok asserted) (sym same) known)

-- In a graph whose indexes are exact, after correct_fact of a stored id succeeds, current_facts
-- of any subject and predicate has under the key of the replacement that fact, if it is of the
-- prefix, no row under the old key if that is another, and under every other key what it had
-- before.
pub correct_fact-current_facts :
    (io io' : AppendOutcome) (id : FactId) (now : KronroeTimestamp) (fact_id : Text)
    (new_value : Value) (at : KronroeTimestamp) (g g' : TemporalGraph) (new_id : FactId)
    (row : StoredFactRow) (subject predicate key : Text)
    → Inv g.storage.state
    → row_of_input fact_id g ≡ ok row
    → correct_fact io io' id now fact_id new_value at g ≡ some (g', ok new_id)
    → row_at key (Query.current_facts subject predicate g'.storage.state).0 ≡ (
        if text_eq (fact_row_key row.fact.subject row.fact.predicate id) key
        then expected is_currently_valid
            (subject_predicate_prefix subject predicate)
            (some (asserted io' id now row.fact.subject row.fact.predicate new_value at))
        else if text_eq row.key key
        then none
        else row_at key (Query.current_facts subject predicate g.storage.state).0)
unfolding correct_fact fact_by_id
correct_fact-current_facts io io' id now fact_id new_value at g g' new_id row subject predicate key
      h found e =
    after (invalidate_fact io fact_id at g) refl (rw (found, correct_fact, fact_by_id) at e)
  where
    after :
        (reply : Reply (Unit {0}))
        → invalidate_fact io fact_id at g ≡ reply
        → (elim reply [
          | none ↦ none
          | some (c, err x) ↦ some (c, err x)
          | some (c, ok u) ↦
              assert_fact io' id now row.fact.subject row.fact.predicate new_value at c
        ])
          ≡ some (g', ok new_id)
        → row_at key (Query.current_facts subject predicate g'.storage.state).0 ≡ (
            if text_eq (fact_row_key row.fact.subject row.fact.predicate id) key
            then expected is_currently_valid
                (subject_predicate_prefix subject predicate)
                (some (asserted io' id now row.fact.subject row.fact.predicate new_value at))
            else if text_eq row.key key
            then none
            else row_at key (Query.current_facts subject predicate g.storage.state).0)
    after none m f = absurd (cc f)
    after (some (c, err x)) m f = absurd (cc f)
    after (some (c, ok v)) m f =
        let (u, w, same) =
          assert_fact_written io' id now row.fact.subject row.fact.predicate new_value at c g'
            new_id f in
        let i : Inv c.storage.state = after-Inv io fact_id at g c v row found m h in
        write_fact-current_facts io'
          (asserted io' id now row.fact.subject row.fact.predicate new_value at) c.storage
          g'.storage u subject predicate key i w
        ∙ elim (Bool-cases (text_eq (fact_row_key row.fact.subject row.fact.predicate id) key)) [
          | inl hit ↦ unfold Fact.new in rw hit refl
          | inr miss ↦
              unfold Fact.new in
              rw miss (
                sym (current_facts_exact subject predicate c.storage.state key i)
                ∙ invalidate_fact-current_facts io fact_id at g c v row found m subject predicate
                    key h)
        ]
