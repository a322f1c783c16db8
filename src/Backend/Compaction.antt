-- ===== src/Backend/Compaction.antt =====
-- crates/core/src/storage_append_log.rs, `compaction_records` and `compact`: a log is replaced by one
-- that lists the state. Removing the temporary file after a failure is not modelled.
pub mod Rows
pub mod Records
pub mod Reads
use kronroe.Common.{ℕ, Option, none, some, List, [], ◌∷◌, ◌++◌, unwrap_or, if◌then◌else◌}
use kronroe.Common.Text.{Text}
use kronroe.Common.Map
use kronroe.Common.Map.{Map}
use kronroe.Fact.{Fact}
use kronroe.Error.{Result, ok, err, fail, ErrorKind, ◌>>=◌}
use kronroe.Storage
use kronroe.Log.{
  AppendLogRecord, AppendLogState, header, schema_version, upsert_predicate_registry_entry,
  upsert_volatility_registry_entry, upsert_source_weight_registry_entry, upsert_fact,
  upsert_fact_and_idempotency, upsert_fact_with_embedding, append_log_magic,
}
use kronroe.Backend.{AppendLogBackend, in_memory, on_disk, Reply}

-- One record for every entry of a registry.
unfoldable pub entry_records : (Text → Text → AppendLogRecord) → Map Text → List AppendLogRecord
entry_records record_of [] = []
entry_records record_of ((k, encoded) ∷ m) = record_of k encoded ∷ entry_records record_of m

-- The record of a row, with its embedding if it has one.
unfoldable pub row_record : Map (List ℕ) → Text → Fact → AppendLogRecord
row_record embeddings key fact = elim (Map.get fact.id.text embeddings) [
  | some embedding ↦ upsert_fact_with_embedding key fact embedding
  | none ↦ upsert_fact key fact
]

unfoldable pub row_records : Map (List ℕ) → Map Fact → List AppendLogRecord
row_records embeddings [] = []
row_records embeddings ((key, fact) ∷ facts) =
    row_record embeddings key fact ∷ row_records embeddings facts

-- The record of an idempotency key, from the row of its fact.
unfoldable pub key_record : AppendLogState → Text → Text → Result AppendLogRecord
key_record s idempotency_key fact_id = elim (Map.get fact_id s.fact_key_by_id) [
  | none ↦ fail ErrorKind.storage
  | some fact_key ↦ elim (Map.get fact_key s.facts) [
    | none ↦ fail ErrorKind.storage
    | some fact ↦ ok (upsert_fact_and_idempotency fact_key fact idempotency_key)
  ]
]

unfoldable pub key_records : AppendLogState → Map Text → Result (List AppendLogRecord)
key_records s [] = ok []
key_records s ((idempotency_key, fact_id) ∷ m) =
    let rest = key_records s m in
    elim (key_record s idempotency_key fact_id) [
      | err e ↦ err e
      | ok r ↦ elim rest [ err e ↦ err e | ok rs ↦ ok (r ∷ rs) ]
    ]

-- The header, the version, the registries and the rows.
unfoldable pub state_records : AppendLogState → List AppendLogRecord
state_records s =
    header append_log_magic
    ∷ schema_version (unwrap_or s.schema_version Storage.schema_version)
    ∷ (entry_records upsert_predicate_registry_entry s.predicate_registry
        ++ (entry_records upsert_volatility_registry_entry s.volatility_registry
            ++ (entry_records upsert_source_weight_registry_entry s.source_weight_registry
                ++ row_records s.embeddings s.facts)))

unfoldable pub compaction_records : AppendLogState → Result (List AppendLogRecord)
compaction_records s = elim (key_records s s.idempotency) [
  | err e ↦ err e
  | ok keys ↦ ok (state_records s ++ keys)
]

-- How the replacement of the file ends: done; failed before the rename, with the file as it was; or
-- failed after it, when the directory does not sync.
pub data Replacement : Type 0 where
  replaced not_replaced directory_sync_failed : Replacement

unfoldable pub compact : Replacement → AppendLogBackend → AppendLogBackend × Result (Unit {0})
compact io b = elim b.mode [
  | in_memory ↦ (b, ok tt)
  | on_disk ↦ elim (compaction_records b.state) [
    | err e ↦ (b, err e)
    | ok records ↦ elim io [
      | replaced ↦ (record b { file = records }, ok tt)
      | not_replaced ↦ (b, fail ErrorKind.storage)
      | directory_sync_failed ↦ (record b { file = records }, fail ErrorKind.storage)
    ]
  ]
]
