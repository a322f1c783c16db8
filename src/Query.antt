-- ===== src/Query.antt =====
-- crates/core/src/storage_append_log.rs, the reads of `AppendLogBackend` over its state. A read
-- that is counted returns its rows with the number of rows that it looked at.
pub mod Rows
pub mod History
pub mod Keys
use kronroe.Common.{
  ℕ, zero, suc, Bool, true, false, not, ◌&&◌, ◌||◌, Option, none, some, List, [], ◌∷◌, ◌++◌,
  reverse, take, length, is_empty, is_none, if◌then◌else◌, ◌==◌, unwrap_or,
}
use kronroe.Common.Text.{Text, starts_with}
use kronroe.Common.Map
use kronroe.Common.Map.{Map}
use kronroe.Common.Set.{Set}
use kronroe.Time.{KronroeTimestamp}
use kronroe.FactId.{FactId, Parsed, parse}
use kronroe.FactId
use kronroe.Fact.{Fact, was_valid_at}
use kronroe.Contradiction.{Contradiction}
use kronroe.Error.{Result, ok, err, fail, ErrorKind}
use kronroe.Storage.{StoredFactRow, fact_row_key, subject_predicate_prefix}
use kronroe.Storage
use kronroe.Log.{
  AppendLogRecord, AppendLogState, header, schema_version, upsert_predicate_registry_entry,
  upsert_volatility_registry_entry, upsert_source_weight_registry_entry, upsert_fact,
  upsert_fact_and_idempotency, upsert_fact_with_embedding, replace_fact, default, append_log_magic,
  chain_of, apply_record,
}
use kronroe.Log.Versions.{upper_bound}

-- A stored fact id, whose text must parse.
unfoldable pub stored_id : Parsed FactId → Result FactId
stored_id (FactId.ok id) = ok id
stored_id (FactId.err e) = fail ErrorKind.storage

unfoldable pub get_idempotency : Text → AppendLogState → Result (Option FactId)
get_idempotency idempotency_key s = elim (Map.get idempotency_key s.idempotency) [
  | none ↦ ok none
  | some fact_id ↦ elim (stored_id (parse fact_id)) [ ok id ↦ ok (some id) | err e ↦ err e ]
]

-- `keys.iter().filter_map(|key| facts.get(key).map(row))`
unfoldable pub rows_of : Map Fact → List Text → List StoredFactRow
rows_of facts [] = []
rows_of facts (key ∷ keys) = elim (Map.get key facts) [
  | none ↦ rows_of facts keys
  | some fact ↦ record { key = key; fact = fact } ∷ rows_of facts keys
]

-- The rows whose keys start with a prefix and whose facts pass a test, in the order of the keys.
unfoldable pub rows_under : Text → (Fact → Bool) → Map Fact → List StoredFactRow
rows_under prefix test [] = []
rows_under prefix test ((key, fact) ∷ facts) =
    if starts_with prefix key && test fact
    then record { key = key; fact = fact } ∷ rows_under prefix test facts
    else rows_under prefix test facts

unfoldable pub scan_facts : Text → AppendLogState → List StoredFactRow × ℕ
scan_facts prefix s = elim (Map.get prefix s.facts_by_subject_predicate) [
  | some keys ↦ (rows_of s.facts keys, length keys)
  | none ↦ (rows_under prefix (λ fact. true) s.facts, length s.facts)
]

unfoldable pub fact_by_id : FactId → AppendLogState → Option StoredFactRow × ℕ
fact_by_id fact_id s = elim (Map.get fact_id.text s.fact_key_by_id) [
  | none ↦ (none, 0)
  | some key ↦ (
    elim (Map.get key s.facts) [
      | none ↦ none
      | some fact ↦ some (record { key = key; fact = fact })
    ],
    1,
  )
]

unfoldable pub current_facts : Text → Text → AppendLogState → List StoredFactRow × ℕ
current_facts subject predicate s =
    elim (Map.get (subject_predicate_prefix subject predicate)
      s.current_facts_by_subject_predicate) [
        | none ↦ ([], 0)
        | some keys ↦ (rows_of s.facts keys, length keys)
      ]

-- The loop of `facts_at` over the keys, the last of the chain first.
unfoldable pub valid_rows : Map Fact → KronroeTimestamp → List Text → List StoredFactRow
valid_rows facts at [] = []
valid_rows facts at (key ∷ keys) = elim (Map.get key facts) [
  | none ↦ valid_rows facts at keys
  | some fact ↦
      if was_valid_at fact at
      then record { key = key; fact = fact } ∷ valid_rows facts at keys
      else valid_rows facts at keys
]

unfoldable pub facts_at : Text → Text → KronroeTimestamp → AppendLogState → List StoredFactRow × ℕ
facts_at subject predicate at s =
    elim (Map.get (subject_predicate_prefix subject predicate)
      s.version_chain_by_subject_predicate) [
        | none ↦ ([], 0)
        | some chain ↦
            let bound = upper_bound s.facts at chain in
            (valid_rows s.facts at (reverse (take bound chain)), length (take bound chain))
      ]

unfoldable pub facts_of : List StoredFactRow → List Fact
facts_of [] = []
facts_of (row ∷ rows) = row.fact ∷ facts_of rows

-- The facts that a checked write compares the new one with.
unfoldable pub active_facts : Text → AppendLogState → List Fact
active_facts prefix s = elim (Map.get prefix s.active_facts_by_subject_predicate) [
  | some keys ↦ facts_of (rows_of s.facts keys)
  | none ↦ facts_of (rows_under prefix (λ fact. is_none fact.expired_at) s.facts)
]

-- The number of rows that it looks at for them.
unfoldable pub active_rows_scanned : Text → AppendLogState → ℕ
active_rows_scanned prefix s = elim (Map.get prefix s.active_facts_by_subject_predicate) [
  | some keys ↦ length keys
  | none ↦ length s.facts
]
