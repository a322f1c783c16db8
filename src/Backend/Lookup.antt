-- ===== src/Backend/Lookup.antt =====
-- `fact_by_id` of crates/core/src/storage_append_log.rs after a write.
use kronroe.Common.{
  ◌≡◌, ap, ◌∙◌, Option, none, some, arith, if◌then◌else◌, inl, inr, Option-cases, Bool-cases,
}
use kronroe.Common.Text.{Text, text_eq, text_eq_iff}
use kronroe.Common.Map
use kronroe.Common.Map.{Map, get-insert}
use kronroe.Fact.{Fact}
use kronroe.FactId.{FactId}
use kronroe.Error.{ok}
use kronroe.Storage.{StoredFactRow, fact_row_key}
use kronroe.Log.{AppendLogState, upsert_fact, apply_record}
use kronroe.Log.Invariant.{upsert_frame}
use kronroe.Query.{fact_by_id}
use kronroe.Backend.{AppendLogBackend, AppendOutcome, write_fact}
use kronroe.Backend.Writes.{commit_ok, row_after}

-- The row that the table has for a key, after a fact is stored.
abbrev pub stored_row : Fact → Map Fact → Text → Option StoredFactRow
stored_row fact facts key = elim (row_after fact key facts) [
  | none ↦ none
  | some f ↦ some (record { key = key; fact = f })
]

-- After write_fact succeeds, fact_by_id of the id text of the fact returns its row, and of any
-- other id the row of the table, with the written fact put in, that the id had its key for.
pub write_fact-fact_by_id :
    (io : AppendOutcome) (fact : Fact) (b b' : AppendLogBackend) (v : Unit {0}) (id : FactId)
    → write_fact io fact b ≡ some (b', ok v)
    → (fact_by_id id b'.state).0 ≡ (
        if text_eq fact.id.text id.text
        then some (record { key = fact_row_key fact.subject fact.predicate fact.id; fact = fact })
        else (elim (Map.get id.text b.state.fact_key_by_id) [
          | none ↦ none
          | some key ↦ stored_row fact b.state.facts key
        ]))
unfolding write_fact apply_record fact_by_id
write_fact-fact_by_id io fact b b' v id e =
    let (applies, u) = commit_ok io (upsert_fact row fact) tt v b b' e in
    let (chains', p) = upsert_frame row fact b.state b'.state applies in
    ap (λ (s : AppendLogState). (fact_by_id id s).0) p
    ∙ elim (Bool-cases (text_eq fact.id.text id.text)) [
      | inl same ↦ ground (
        arith,
        same,
        get-insert fact.id.text id.text row b.state.fact_key_by_id,
        get-insert row row fact b.state.facts,
        text_eq_iff row row,
      )
      | inr other ↦ elim (Option-cases (Map.get id.text b.state.fact_key_by_id)) [
        | inl n ↦
            ground (arith, other, n, get-insert fact.id.text id.text row b.state.fact_key_by_id)
        | inr (key, q) ↦ ground (
          arith,
          other,
          q,
          get-insert fact.id.text id.text row b.state.fact_key_by_id,
          get-insert row key fact b.state.facts,
        )
      ]
    ]
  where
    row : Text
    row = fact_row_key fact.subject fact.predicate fact.id
