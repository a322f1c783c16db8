-- ===== src/Log/Json.antt =====
-- crates/core/src/storage_append_log.rs: the JSON form of a record, one line of the file.
pub mod RoundTrip
use kronroe.Common.{ℕ, Option, none, some, List, [], ◌∷◌, ◌++◌, if◌then◌else◌}
use kronroe.Common.Text.{Text, codes, text_eq}
use kronroe.Error.{ErrorKind, Result, ok, fail, ◌>>=◌}
use kronroe.Fact.{Fact}
use kronroe.Fact.Json.{fact_json, fact_from_json, or_missing, field}
use kronroe.Json.{
  JsonValue, object, empty, member, Elements, nil, cons, get, as_str, as_u64, as_f32, as_array,
}
use kronroe.Json.Write.{write_string, write_f32, write_kv_string, write_kv_u64}
use kronroe.Log.{
  AppendLogRecord, header, schema_version, upsert_predicate_registry_entry,
  upsert_volatility_registry_entry, upsert_source_weight_registry_entry, upsert_fact,
  upsert_fact_and_idempotency, upsert_fact_with_embedding, replace_fact,
}

-- `{"name":{` and `}}` around the members of a record
abbrev pub tagged : Text → Text → Text
tagged name inner = b'{' ∷ (write_string name ++ (b':' ∷ b'{' ∷ (inner ++ (b'}' ∷ b'}' ∷ []))))

abbrev fact_member : Fact → Text
fact_member fact = write_string (codes "fact") ++ (b':' ∷ fact_json fact)

-- The numbers of an embedding, between commas.
unfoldable pub write_elements : List ℕ → Text
write_elements [] = []
write_elements (v ∷ []) = write_f32 v
write_elements (v ∷ w ∷ vs) = write_f32 v ++ (b',' ∷ write_elements (w ∷ vs))

registry_json : Text → Text → Text → Text → Text
registry_json name key value encoded =
    tagged name (write_kv_string key value ++ (b',' ∷ write_kv_string (codes "encoded") encoded))

-- `AppendLogRecord::write_json`
unfoldable pub record_json : AppendLogRecord → Text
unfolding registry_json
record_json (header magic) = tagged (codes "Header") (write_kv_string (codes "magic") magic)
record_json (schema_version version) =
    tagged (codes "SchemaVersion") (write_kv_u64 (codes "version") version)
record_json (upsert_predicate_registry_entry predicate encoded) =
    registry_json (codes "UpsertPredicateRegistryEntry") (codes "predicate") predicate encoded
record_json (upsert_volatility_registry_entry predicate encoded) =
    registry_json (codes "UpsertVolatilityRegistryEntry") (codes "predicate") predicate encoded
record_json (upsert_source_weight_registry_entry source encoded) =
    registry_json (codes "UpsertSourceWeightRegistryEntry") (codes "source") source encoded
record_json (upsert_fact key fact) =
    tagged (codes "UpsertFact") (write_kv_string (codes "key") key ++ (b',' ∷ fact_member fact))
record_json (upsert_fact_and_idempotency key fact idempotency_key) =
    tagged (codes "UpsertFactAndIdempotency") (
      write_kv_string (codes "key") key
      ++ (b','
          ∷ (fact_member fact
              ++ (b',' ∷ write_kv_string (codes "idempotency_key") idempotency_key))))
record_json (upsert_fact_with_embedding key fact embedding) =
    tagged (codes "UpsertFactWithEmbedding") (
      write_kv_string (codes "key") key
      ++ (b','
          ∷ (fact_member fact
              ++ (b','
                  ∷ (write_string (codes "embedding")
                      ++ (b':' ∷ b'[' ∷ (write_elements embedding ++ (b']' ∷ []))))))))
record_json (replace_fact key fact) =
    tagged (codes "ReplaceFact") (write_kv_string (codes "key") key ++ (b',' ∷ fact_member fact))

-- `iter().map(as_f32).collect::<Result<Vec<f32>>>()`
unfoldable pub numbers_of : Elements → Result (List ℕ)
numbers_of nil = ok []
numbers_of (cons v vs) = do n ← or_missing (as_f32 v); ns ← numbers_of vs; ok (n ∷ ns)

abbrev text_member : Text → JsonValue → Result Text
text_member key inner = or_missing (field as_str key inner)

fact_of : JsonValue → Result Fact
fact_of inner = do val ← or_missing (get inner (codes "fact")); fact_from_json val

-- One variant for each name, and none for a name that is not known.
unfoldable pub variant : Text → JsonValue → Result (Option AppendLogRecord)
unfolding fact_of
variant name inner =
    if text_eq name (codes "Header")
    then (do magic ← text_member (codes "magic") inner; ok (some (header magic)))
    else if text_eq name (codes "SchemaVersion")
    then (do
      version ← or_missing (field as_u64 (codes "version") inner)
      ok (some (schema_version version)))
    else if text_eq name (codes "UpsertFact")
    then (do
      key ← text_member (codes "key") inner
      fact ← fact_of inner
      ok (some (upsert_fact key fact)))
    else if text_eq name (codes "UpsertFactAndIdempotency")
    then (do
      key ← text_member (codes "key") inner
      fact ← fact_of inner
      idempotency_key ← text_member (codes "idempotency_key") inner
      ok (some (upsert_fact_and_idempotency key fact idempotency_key)))
    else if text_eq name (codes "ReplaceFact")
    then (do
      key ← text_member (codes "key") inner
      fact ← fact_of inner
      ok (some (replace_fact key fact)))
    else if text_eq name (codes "UpsertFactWithEmbedding")
    then (do
      key ← text_member (codes "key") inner
      fact ← fact_of inner
      elements ← or_missing (field as_array (codes "embedding") inner)
      embedding ← numbers_of elements
      ok (some (upsert_fact_with_embedding key fact embedding)))
    else if text_eq name (codes "UpsertPredicateRegistryEntry")
    then (do
      predicate ← text_member (codes "predicate") inner
      encoded ← text_member (codes "encoded") inner
      ok (some (upsert_predicate_registry_entry predicate encoded)))
    else if text_eq name (codes "UpsertVolatilityRegistryEntry")
    then (do
      predicate ← text_member (codes "predicate") inner
      encoded ← text_member (codes "encoded") inner
      ok (some (upsert_volatility_registry_entry predicate encoded)))
    else if text_eq name (codes "UpsertSourceWeightRegistryEntry")
    then (do
      source ← text_member (codes "source") inner
      encoded ← text_member (codes "encoded") inner
      ok (some (upsert_source_weight_registry_entry source encoded)))
    else ok none

-- `AppendLogRecord::from_json`: an object with one member
unfoldable pub record_from_json : JsonValue → Result (Option AppendLogRecord)
record_from_json (object (member name inner empty)) = variant name inner
record_from_json _ = fail ErrorKind.serialization
