-- ===== src/Backend/Compaction/Rows.antt =====
-- The row that the records of a log leave under a key (crates/core/src/storage_append_log.rs).
use mathlib.Core.Path.{subst}
use kronroe.Common.{
  ◌≡◌, sym, ap, ◌∙◌, Option, some, List, [], ◌∷◌, arith, if◌then◌else◌, inl, inr, Option-cases,
}
use kronroe.Common.Text.{Text, text_eq}
use kronroe.Common.Map
use kronroe.Common.Map.{Map, get-insert}
use kronroe.Common.Ordered.{Sorted, Sorted-insert}
use kronroe.Fact.{Fact}
use kronroe.Log.{
  AppendLogRecord, AppendLogState, header, schema_version, upsert_predicate_registry_entry,
  upsert_volatility_registry_entry, upsert_source_weight_registry_entry, upsert_fact,
  upsert_fact_and_idempotency, upsert_fact_with_embedding, replace_fact, apply_record,
  apply_fact_upsert, apply_embedding_upsert, replay,
}
use kronroe.Log.Invariant.{upsert_frame}

-- The row that a record leaves under a key.
unfoldable pub row_after_record : AppendLogRecord → Text → Option Fact → Option Fact
row_after_record (upsert_fact key fact) k row = if text_eq key k then some fact else row
row_after_record (replace_fact key fact) k row = if text_eq key k then some fact else row
row_after_record (upsert_fact_and_idempotency key fact i) k row =
    if text_eq key k then some fact else row
row_after_record (upsert_fact_with_embedding key fact e) k row =
    if text_eq key k then some fact else row
row_after_record _ k row = row

unfoldable pub row_after_records : List AppendLogRecord → Text → Option Fact → Option Fact
row_after_records [] k row = row
row_after_records (r ∷ rs) k row = row_after_records rs k (row_after_record r k row)

upsert_row :
    (key : Text) (fact : Fact) (s t : AppendLogState) (k : Text)
    → apply_fact_upsert key fact s ≡ some t
    → (Map.get k t.facts ≡ (if text_eq key k then some fact else Map.get k s.facts))
      × (Sorted s.facts → Sorted t.facts)
upsert_row key fact s t k e =
    let (chains', p) = upsert_frame key fact s t e in
    (
      ap (λ (u : AppendLogState). Map.get k u.facts) p ∙ get-insert key k fact s.facts,
      λ h.
          subst (λ (u : AppendLogState). Sorted u.facts) (sym p) (Sorted-insert key fact s.facts h),
    )

-- What a record that stores no row leaves.
still :
    (m m' : Map Fact) (k : Text) → m ≡ m' → (Map.get k m' ≡ Map.get k m) × (Sorted m → Sorted m')
still m m' k e = (sym (ap (Map.get k) e), subst Sorted e)

apply_record-row :
    (s t : AppendLogState) (r : AppendLogRecord) (k : Text)
    → apply_record s r ≡ some t
    → (Map.get k t.facts ≡ row_after_record r k (Map.get k s.facts))
      × (Sorted s.facts → Sorted t.facts)
unfolding apply_record row_after_record apply_embedding_upsert
apply_record-row s t (header magic) k e = still s.facts t.facts k (cc e)
apply_record-row s t (schema_version version) k e = still s.facts t.facts k (cc e)
apply_record-row s t (upsert_predicate_registry_entry predicate encoded) k e =
    still s.facts t.facts k (cc e)
apply_record-row s t (upsert_volatility_registry_entry predicate encoded) k e =
    still s.facts t.facts k (cc e)
apply_record-row s t (upsert_source_weight_registry_entry source encoded) k e =
    still s.facts t.facts k (cc e)
apply_record-row s t (upsert_fact key fact) k e = upsert_row key fact s t k e
apply_record-row s t (replace_fact key fact) k e = upsert_row key fact s t k e
apply_record-row s t (upsert_fact_and_idempotency key fact i) k e = upsert_row key fact _ t k e
apply_record-row s t (upsert_fact_with_embedding key fact embedding) k e =
    upsert_row key fact _ t k e

-- Replaying a log leaves under a key the row of the last record that stores one there.
pub replay-row :
    (s t : AppendLogState) (rs : List AppendLogRecord) (k : Text)
    → replay s rs ≡ some t
    → (Map.get k t.facts ≡ row_after_records rs k (Map.get k s.facts))
      × (Sorted s.facts → Sorted t.facts)
unfolding replay row_after_records
replay-row s t [] k e = still s.facts t.facts k (cc e)
replay-row s t (r ∷ rs) k e = elim (Option-cases (apply_record s r)) [
  | inl n ↦ absurd (ground (arith, rw (n, replay) at e))
  | inr (u, p) ↦
      let (row, sorted) = apply_record-row s u r k p in
      let (rows, sorted') = replay-row u t rs k (rw (p, replay) at e) in
      (rows ∙ ap (row_after_records rs k) row, λ h. sorted' (sorted h))
]
