-- ===== src/Backend/Compaction/Records.antt =====
-- The rows under the records of a compaction (crates/core/src/storage_append_log.rs,
-- `compaction_records`).
use kronroe.Common.{
  ℕ, ◌≡◌, refl, sym, ap, ◌∙◌, Option, none, some, List, [], ◌∷◌, ◌++◌, arith, if◌then◌else◌, inl,
  inr, Option-cases,
}
use kronroe.Common.Text.{Text, text_eq, text_eq_iff}
use kronroe.Common.Map
use kronroe.Common.Map.{Map, get-insert}
use kronroe.Common.Ordered.{Sorted, get-below}
use kronroe.Fact.{Fact}
use kronroe.Error.{Result, ok, err}
use kronroe.Log.{
  AppendLogRecord, AppendLogState, upsert_predicate_registry_entry,
  upsert_volatility_registry_entry, upsert_source_weight_registry_entry,
}
use kronroe.Backend.Compaction.{
  entry_records, row_record, row_records, key_record, key_records, state_records,
  compaction_records,
}
use kronroe.Backend.Compaction.Rows.{row_after_record, row_after_records}

row_after_records-append :
    (xs ys : List AppendLogRecord) (k : Text) (row : Option Fact)
    → row_after_records (xs ++ ys) k row ≡ row_after_records ys k (row_after_records xs k row)
unfolding row_after_records
row_after_records-append [] ys k row = refl
row_after_records-append (x ∷ xs) ys k row =
    row_after_records-append xs ys k (row_after_record x k row)

-- Records that store no row.
entry_records-row :
    (record_of : Text → Text → AppendLogRecord) (m : Map Text) (k : Text) (row : Option Fact)
    → ((p e : Text) → row_after_record (record_of p e) k row ≡ row)
    → row_after_records (entry_records record_of m) k row ≡ row
unfolding entry_records row_after_records
entry_records-row record_of [] k row h = refl
entry_records-row record_of ((p, e) ∷ m) k row h =
    ap (row_after_records (entry_records record_of m) k) (h p e)
    ∙ entry_records-row record_of m k row h

row_record-row :
    (embeddings : Map (List ℕ)) (key : Text) (fact : Fact) (k : Text) (row : Option Fact)
    → row_after_record (row_record embeddings key fact) k row
      ≡ (if text_eq key k then some fact else row)
unfolding row_record row_after_record
row_record-row embeddings key fact k row = elim (Option-cases (Map.get fact.id.text embeddings)) [
  | inl n ↦ rw (n, row_record) refl
  | inr (e, p) ↦ rw (p, row_record) refl
]

row_records-row :
    (embeddings : Map (List ℕ)) (facts : Map Fact) (k : Text) (row : Option Fact)
    → Sorted facts
    → row_after_records (row_records embeddings facts) k row
      ≡ (elim (Map.get k facts) [ none ↦ row | some fact ↦ some fact ])
unfolding row_records row_after_records Map.get
row_records-row embeddings [] k row h = refl
row_records-row embeddings ((key, fact) ∷ facts) k row h =
    row_records-row embeddings facts k (row_after_record (row_record embeddings key fact) k row) h.1
    ∙ ground (
      arith,
      row_record-row embeddings key fact k row,
      get-below key facts h.0,
      text_eq_iff key k,
    )

key_record-row :
    (s : AppendLogState) (i id : Text) (r : AppendLogRecord) (k : Text)
    → key_record s i id ≡ ok r
    → row_after_record r k (Map.get k s.facts) ≡ Map.get k s.facts
unfolding key_record row_after_record
key_record-row s i id r k e = elim (Option-cases (Map.get id s.fact_key_by_id)) [
  | inl n ↦ absurd (cc (rw (n, key_record) at e))
  | inr (key, p) ↦ elim (Option-cases (Map.get key s.facts)) [
    | inl n ↦ absurd (cc (rw (p, n, key_record) at e))
    | inr (fact, q) ↦ ground (arith, rw (p, q, key_record) at e, q, text_eq_iff key k)
  ]
]

key_records_parts :
    (r : Result AppendLogRecord) (rest : Result (List AppendLogRecord)) (rs : List AppendLogRecord)
    → (elim r [ err e ↦ err e | ok x ↦ elim rest [ err e ↦ err e | ok xs ↦ ok (x ∷ xs) ] ]) ≡ ok rs
    → (x : AppendLogRecord) × (xs : List AppendLogRecord) × (r ≡ ok x)
      × (rest ≡ ok xs)
      × (rs ≡ x ∷ xs)
key_records_parts (err e) rest rs h = absurd (cc h)
key_records_parts (ok x) (err e) rs h = absurd (cc h)
key_records_parts (ok x) (ok xs) rs h = (x, xs, refl, refl, cc h)

key_records-row :
    (s : AppendLogState) (m : Map Text) (rs : List AppendLogRecord) (k : Text)
    → key_records s m ≡ ok rs
    → row_after_records rs k (Map.get k s.facts) ≡ Map.get k s.facts
unfolding key_records row_after_records
key_records-row s [] [] k e = refl
key_records-row s [] (r ∷ rs) k e = absurd (cc e)
key_records-row s ((i, id) ∷ m) rs k e =
    let (x, xs, p, q, h) = key_records_parts (key_record s i id) (key_records s m) rs e in
    ap (λ l. row_after_records l k (Map.get k s.facts)) h
    ∙ ap (row_after_records xs k) (key_record-row s i id x k p)
    ∙ key_records-row s m xs k q

state_records-row :
    (s : AppendLogState) (k : Text)
    → Sorted s.facts
    → row_after_records (state_records s) k none ≡ Map.get k s.facts
unfolding state_records row_after_records row_after_record
state_records-row s k h =
    row_after_records-append predicates _ k none
    ∙ ap (row_after_records (volatilities ++ (weights ++ rows)) k) (
        entry_records-row upsert_predicate_registry_entry s.predicate_registry k none (λ p e. refl))
    ∙ row_after_records-append volatilities _ k none
    ∙ ap (row_after_records (weights ++ rows) k) (
        entry_records-row upsert_volatility_registry_entry s.volatility_registry k none
          (λ p e. refl))
    ∙ row_after_records-append weights _ k none
    ∙ ap (row_after_records rows k) (
        entry_records-row upsert_source_weight_registry_entry s.source_weight_registry k none
          (λ p e. refl))
    ∙ row_records-row s.embeddings s.facts k none h
    ∙ same (Map.get k s.facts)
  where
    predicates : List AppendLogRecord
    predicates = entry_records upsert_predicate_registry_entry s.predicate_registry

    volatilities : List AppendLogRecord
    volatilities = entry_records upsert_volatility_registry_entry s.volatility_registry

    weights : List AppendLogRecord
    weights = entry_records upsert_source_weight_registry_entry s.source_weight_registry

    rows : List AppendLogRecord
    rows = row_records s.embeddings s.facts

    same : (o : Option Fact) → (elim o [ none ↦ none | some fact ↦ some fact ]) ≡ o
    same none = refl
    same (some fact) = refl

-- The records of a compaction leave every row as it is.
pub compaction_records-row :
    (s : AppendLogState) (rs : List AppendLogRecord) (k : Text)
    → Sorted s.facts
    → compaction_records s ≡ ok rs
    → row_after_records rs k none ≡ Map.get k s.facts
unfolding compaction_records
compaction_records-row s rs k h e = with_keys (key_records s s.idempotency) refl e
  where
    records_eq :
        {a b : List AppendLogRecord} → ◌≡◌ {A = Result (List AppendLogRecord)} (ok a) (ok b) → a ≡ b
    records_eq f = cc f

    with_keys :
        (keys : Result (List AppendLogRecord))
        → key_records s s.idempotency ≡ keys
        → (elim keys [ err x ↦ err x | ok l ↦ ok (state_records s ++ l) ]) ≡ ok rs
        → row_after_records rs k none ≡ Map.get k s.facts
    with_keys (err x) q f = absurd (cc f)
    with_keys (ok l) q f =
        ap (λ l'. row_after_records l' k none) (sym (records_eq f))
        ∙ row_after_records-append (state_records s) l k none
        ∙ ap (row_after_records l k) (state_records-row s k h)
        ∙ key_records-row s s.idempotency l k q
