-- ===== src/Log/Json/RoundTrip/Records.antt =====
-- crates/core/src/storage_append_log.rs: which records fit, and their lines.
use kronroe.Common.{ℕ, ◌≡◌, true, some}
use kronroe.Common.Utf8.{is_utf8}
use kronroe.Error.{Result}
use kronroe.Json.{JsonValue, Outcome}
use kronroe.Json.Objects.{parse-Reads}
use kronroe.Json.Parse.{parse}
use kronroe.Log.{
  AppendLogRecord, header, schema_version, upsert_predicate_registry_entry,
  upsert_volatility_registry_entry, upsert_source_weight_registry_entry, upsert_fact,
  upsert_fact_and_idempotency, upsert_fact_with_embedding, replace_fact,
}
use kronroe.Log.Json.{record_json, record_from_json}
use kronroe.Log.Json.RoundTrip.{
  FactFit, VersionFits, RecordReads, header-RecordReads, version-RecordReads, fact-RecordReads,
  replace-RecordReads, idempotency-RecordReads, predicate-RecordReads, volatility-RecordReads,
  source_weight-RecordReads,
}
use kronroe.Log.Json.RoundTrip.Embedding.{EmbeddingFits, embedding-RecordReads}

-- A record whose texts are UTF-8, whose facts and numbers are read back.
abbrev pub RecordFits : AppendLogRecord → Type 0
RecordFits (header magic) = is_utf8 magic ≡ true
RecordFits (schema_version version) = (n : ℕ) × VersionFits version n
RecordFits (upsert_predicate_registry_entry predicate encoded) =
    (is_utf8 predicate ≡ true) × (is_utf8 encoded ≡ true)
RecordFits (upsert_volatility_registry_entry predicate encoded) =
    (is_utf8 predicate ≡ true) × (is_utf8 encoded ≡ true)
RecordFits (upsert_source_weight_registry_entry source encoded) =
    (is_utf8 source ≡ true) × (is_utf8 encoded ≡ true)
RecordFits (upsert_fact key fact) = (is_utf8 key ≡ true) × FactFit fact
RecordFits (upsert_fact_and_idempotency key fact idempotency_key) =
    (is_utf8 key ≡ true) × (FactFit fact × (is_utf8 idempotency_key ≡ true))
RecordFits (upsert_fact_with_embedding key fact embedding) =
    (is_utf8 key ≡ true) × (FactFit fact × EmbeddingFits embedding)
RecordFits (replace_fact key fact) = (is_utf8 key ≡ true) × FactFit fact

pub record_reads : (r : AppendLogRecord) → RecordFits r → RecordReads r
record_reads (header magic) u = header-RecordReads magic u
record_reads (schema_version version) u = version-RecordReads version u.0 u.1
record_reads (upsert_predicate_registry_entry predicate encoded) u =
    predicate-RecordReads predicate encoded u.0 u.1
record_reads (upsert_volatility_registry_entry predicate encoded) u =
    volatility-RecordReads predicate encoded u.0 u.1
record_reads (upsert_source_weight_registry_entry source encoded) u =
    source_weight-RecordReads source encoded u.0 u.1
record_reads (upsert_fact key fact) u = fact-RecordReads key fact u.0 u.1
record_reads (upsert_fact_and_idempotency key fact idempotency_key) (u, (f, w)) =
    idempotency-RecordReads key fact idempotency_key u f w
record_reads (upsert_fact_with_embedding key fact embedding) (u, (f, g)) =
    embedding-RecordReads key fact embedding u f g
record_reads (replace_fact key fact) u = replace-RecordReads key fact u.0 u.1

-- A record whose texts are UTF-8, whose times lie between 1 March of year 0 and the last that an
-- i64 holds and whose numbers are read back by the parser is written as JSON that parses and is
-- read as the same record.
pub record_from_json-record_json :
    (r : AppendLogRecord)
    → RecordFits r
    → (val : JsonValue) × (parse (record_json r) ≡ Outcome.ok val)
      × (record_from_json val ≡ Result.ok (some r))
record_from_json-record_json r h =
    let reads = record_reads r h in
    (reads.value, parse-Reads (record_json r) reads.value reads.reads, reads.back)
