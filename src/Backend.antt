-- ===== src/Backend.antt =====
-- crates/core/src/storage_append_log.rs, `AppendLogBackend`, behind crates/core/src/storage.rs: the
-- state with the file that it is written through to. A write is told how its append to the file
-- ends. The file is the list of its whole records, oldest first. `none` is a panic.
pub mod Keys
pub mod Idempotent
pub mod Writes
pub mod Lookup
pub mod Schema
pub mod FailedSync
pub mod Durable
pub mod Steps
pub mod Compaction
pub mod Recovery
use kronroe.Common.{
  ℕ, zero, suc, Bool, true, false, not, ◌&&◌, ◌||◌, Option, none, some, List, [], ◌∷◌, ◌++◌,
  reverse, take, length, is_empty, is_none, if◌then◌else◌, ◌==◌, unwrap_or,
}
use kronroe.Common.Text.{Text, starts_with}
use kronroe.Common.Map
use kronroe.Common.Map.{Map}
use kronroe.Common.Set.{Set}
use kronroe.Time.{KronroeTimestamp}
use kronroe.FactId.{FactId, Parsed, parse}
use kronroe.FactId
use kronroe.Fact.{Fact, was_valid_at}
use kronroe.Contradiction.{Contradiction}
use kronroe.Error.{Result, ok, err, fail, ErrorKind}
use kronroe.Storage.{StoredFactRow, fact_row_key, subject_predicate_prefix}
use kronroe.Storage
use kronroe.Log.{
  AppendLogRecord, AppendLogState, header, schema_version, upsert_predicate_registry_entry,
  upsert_volatility_registry_entry, upsert_source_weight_registry_entry, upsert_fact,
  upsert_fact_and_idempotency, upsert_fact_with_embedding, replace_fact, default, append_log_magic,
  chain_of, apply_record,
}
use kronroe.Log.Versions.{upper_bound}
use kronroe.Query.{stored_id, active_facts, active_rows_scanned, rows_of, facts_of}

pub data AppendLogMode : Type 0 where
  in_memory on_disk : AppendLogMode

pub record AppendLogBackend : Type 0 where
  pub mode : AppendLogMode
  pub state : AppendLogState
  pub file : List AppendLogRecord

abbrev pub open_in_memory : AppendLogBackend
open_in_memory = record { mode = in_memory; state = default; file = [] }

-- How an append to the file ends: with the record written and synced; with nothing written; or
-- with the record written and the sync reported as failed.
pub data AppendOutcome : Type 0 where
  written not_written sync_failed : AppendOutcome

-- The backend after an operation, and what the operation returns.
abbrev pub Reply {ℓ} : Type ℓ → Type ℓ
Reply A = Option (AppendLogBackend × Result A)

unfoldable pub append_record :
    AppendOutcome → AppendLogRecord → AppendLogBackend → AppendLogBackend × Result (Unit {0})
append_record io r b = elim b.mode [
  | in_memory ↦ (b, ok tt)
  | on_disk ↦ elim io [
    | written ↦ (record b { file = b.file ++ (r ∷ []) }, ok tt)
    | not_written ↦ (b, fail ErrorKind.storage)
    | sync_failed ↦ (record b { file = b.file ++ (r ∷ []) }, fail ErrorKind.storage)
  ]
]

applied {ℓ} : {A : Type ℓ} → AppendLogRecord → A → AppendLogBackend → Reply A
applied r value b = elim (apply_record b.state r) [
  | none ↦ none
  | some s ↦ some (record b { state = s }, ok value)
]

-- `self.append_record(&record)?; state.apply_record(record); Ok(value)`
unfoldable pub commit {ℓ} :
    {A : Type ℓ} → AppendOutcome → AppendLogRecord → A → AppendLogBackend → Reply A
unfolding append_record applied
commit io r value b =
    let (b', result) = append_record io r b in
    elim result [ ok _ ↦ applied r value b' | err e ↦ some (b', err e) ]

unfoldable pub write_fact : AppendOutcome → Fact → AppendLogBackend → Reply (Unit {0})
write_fact io fact =
    commit io (upsert_fact (fact_row_key fact.subject fact.predicate fact.id) fact) tt

unfoldable pub replace_fact_row : AppendOutcome → Text → Fact → AppendLogBackend → Reply (Unit {0})
replace_fact_row io key fact = commit io (replace_fact key fact) tt

unfoldable pub write_predicate_registry_entry :
    AppendOutcome → Text → Text → AppendLogBackend → Reply (Unit {0})
write_predicate_registry_entry io predicate encoded =
    commit io (upsert_predicate_registry_entry predicate encoded) tt

unfoldable pub write_volatility_registry_entry :
    AppendOutcome → Text → Text → AppendLogBackend → Reply (Unit {0})
write_volatility_registry_entry io predicate encoded =
    commit io (upsert_volatility_registry_entry predicate encoded) tt

unfoldable pub write_source_weight_registry_entry :
    AppendOutcome → Text → Text → AppendLogBackend → Reply (Unit {0})
write_source_weight_registry_entry io source encoded =
    commit io (upsert_source_weight_registry_entry source encoded) tt

unfoldable pub write_fact_and_idempotency :
    AppendOutcome → Text → Fact → AppendLogBackend → Reply FactId
write_fact_and_idempotency io idempotency_key fact b =
    elim (Map.get idempotency_key b.state.idempotency) [
      | some existing ↦ some (b, stored_id (parse existing))
      | none ↦
          commit io
            (upsert_fact_and_idempotency (fact_row_key fact.subject fact.predicate fact.id) fact
              idempotency_key)
            fact.id b
    ]

-- Whether an embedding has the dimension that is fixed, if one is.
unfoldable pub dimension_fits : Option ℕ → List ℕ → Bool
dimension_fits none embedding = true
dimension_fits (some expected) embedding = length embedding == expected

unfoldable pub write_fact_with_embedding :
    AppendOutcome → Fact → List ℕ → AppendLogBackend → Reply (Unit {0})
write_fact_with_embedding io fact embedding b =
    if is_empty embedding
    then some (b, fail ErrorKind.invalid_embedding)
    else if dimension_fits b.state.embedding_dim embedding
    then commit io
        (upsert_fact_with_embedding (fact_row_key fact.subject fact.predicate fact.id) fact
          embedding)
        tt b
    else some (b, fail ErrorKind.invalid_embedding)

-- `check` is the caller's test of the existing facts.
unfoldable pub write_fact_with_contradiction_check :
    AppendOutcome
    → Text
    → Text
    → Fact
    → Bool
    → (List Fact → Result (List Contradiction))
    → AppendLogBackend
    → Reply (List Contradiction × ℕ)
write_fact_with_contradiction_check io subject predicate fact reject_on_conflict check b =
    elim (check (active_facts (subject_predicate_prefix subject predicate) b.state)) [
      | err e ↦ some (b, err e)
      | ok contradictions ↦
          if reject_on_conflict && not (is_empty contradictions)
          then some (b, fail (ErrorKind.contradiction_rejected contradictions))
          else commit io (upsert_fact (fact_row_key fact.subject fact.predicate fact.id) fact)
              (
                contradictions,
                active_rows_scanned (subject_predicate_prefix subject predicate) b.state,
              )
              b
    ]

unfoldable pub version_reply : AppendOutcome → AppendLogBackend → Reply ℕ
version_reply io b = elim b.state.schema_version [
  | some version ↦ some (b, ok version)
  | none ↦ commit io (schema_version Storage.schema_version) Storage.schema_version b
]

-- Two appends at most: the header, then the version.
unfoldable pub initialize_schema : AppendOutcome → AppendOutcome → AppendLogBackend → Reply ℕ
unfolding version_reply
initialize_schema io io' b =
    if b.state.header_present
    then version_reply io' b
    else elim (commit {A = Unit {0}} io (header append_log_magic) tt b) [
      | none ↦ none
      | some (b', ok _) ↦ version_reply io' b'
      | some (b', err e) ↦ some (b', err e)
    ]
