-- ===== src/Fact/Json.antt =====
-- crates/core/src/temporal_graph.rs: the JSON form of values and facts.
pub mod RoundTrip
use kronroe.Common.{Option, none, some, [], ◌∷◌, ◌++◌, if◌then◌else◌, unwrap_or}
use kronroe.Common.Text.{Text, codes, text_eq}
use kronroe.Error.{ErrorKind, Result, ok, err, fail, ◌>>=◌}
use kronroe.Fact.{Value, text, number, boolean, entity, Fact, one_f32}
use kronroe.FactId
use kronroe.FactId.{FactId}
use kronroe.Json.{JsonValue, get, as_str, as_f64, as_bool, as_f32, is_null}
use kronroe.Json.Write.{
  write_string, write_bool, write_null, write_f64, write_kv_string, write_kv_f32,
  write_kv_option_string,
}
use kronroe.Time.{KronroeTimestamp}
use kronroe.Time.Rfc3339.{to_rfc3339_z, parse_rfc3339}

-- `Value::write_json`
unfoldable pub value_json : Value → Text
value_json (text s) =
    b'{'
    ∷ (write_kv_string (codes "type") (codes "Text")
        ++ (b',' ∷ (write_kv_string (codes "value") s ++ (b'}' ∷ []))))
value_json (number n) =
    b'{'
    ∷ (write_kv_string (codes "type") (codes "Number")
        ++ (b',' ∷ ((write_string (codes "value") ++ (b':' ∷ write_f64 n)) ++ (b'}' ∷ []))))
value_json (boolean b) =
    b'{'
    ∷ (write_kv_string (codes "type") (codes "Boolean")
        ++ (b',' ∷ ((write_string (codes "value") ++ (b':' ∷ write_bool b)) ++ (b'}' ∷ []))))
value_json (entity s) =
    b'{'
    ∷ (write_kv_string (codes "type") (codes "Entity")
        ++ (b',' ∷ (write_kv_string (codes "value") s ++ (b'}' ∷ []))))

-- `ok_or_else` with an error of serialization
abbrev pub or_missing {ℓ} : {A : Type ℓ} → Option A → Result A
or_missing none = fail ErrorKind.serialization
or_missing (some a) = ok a

-- `val.get(key).and_then(read)`
abbrev pub field : {A : Type 0} → (JsonValue → Option A) → Text → JsonValue → Option A
field read key val = elim (get val key) [ none ↦ none | some v ↦ read v ]

value_of : Text → JsonValue → Result Value
value_of typ val =
    if text_eq typ (codes "Text")
    then (do s ← or_missing (field as_str (codes "value") val); ok (text s))
    else if text_eq typ (codes "Number")
    then (do n ← or_missing (field as_f64 (codes "value") val); ok (number n))
    else if text_eq typ (codes "Boolean")
    then (do b ← or_missing (field as_bool (codes "value") val); ok (boolean b))
    else if text_eq typ (codes "Entity")
    then (do s ← or_missing (field as_str (codes "value") val); ok (entity s))
    else fail ErrorKind.serialization

unfoldable pub value_from_json : JsonValue → Result Value
unfolding value_of
value_from_json val = do typ ← or_missing (field as_str (codes "type") val); value_of typ val

-- A timestamp, or null.
unfoldable pub optional_time : Option KronroeTimestamp → Text
unfolding write_null
optional_time none = write_null
optional_time (some t) = write_string (to_rfc3339_z t)

-- `Fact::write_json`
unfoldable pub fact_json : Fact → Text
unfolding optional_time
fact_json fact =
    b'{'
    ∷ (write_kv_string (codes "id") fact.id.text
        ++ (b','
            ∷ (write_kv_string (codes "subject") fact.subject
                ++ (b','
                    ∷ (write_kv_string (codes "predicate") fact.predicate
                        ++ (b','
                            ∷ ((write_string (codes "object") ++ (b':' ∷ value_json fact.object))
                                ++ (b','
                                    ∷ (write_kv_string (codes "valid_from")
                                          (to_rfc3339_z fact.valid_from)
                                        ++ (b','
                                            ∷ ((write_string (codes "valid_to")
                                                  ++ (b':' ∷ optional_time fact.valid_to))
                                                ++ (b','
                                                    ∷ (write_kv_string (codes "recorded_at")
                                                          (to_rfc3339_z fact.recorded_at)
                                                        ++ (b','
                                                            ∷ ((write_string (codes "expired_at")
                                                            ++ (b':'
                                                            ∷ optional_time fact.expired_at))
                                                            ++ (b','
                                                            ∷ (write_kv_f32 (codes "confidence")
                                                            fact.confidence
                                                            ++ (b','
                                                            ∷ (write_kv_option_string
                                                            (codes "source") fact.source
                                                            ++ (b'}' ∷ []))))))))))))))))))))

-- `map_err` to an error of serialization
abbrev pub as_serialization {ℓ} : {A : Type ℓ} → Result A → Result A
as_serialization (ok a) = ok a
as_serialization (err e) = fail ErrorKind.serialization

abbrev pub id_of : FactId.Parsed FactId → Result FactId
id_of (FactId.Parsed.ok id) = ok id
id_of (FactId.Parsed.err e) = fail ErrorKind.serialization

unfoldable pub time_of : JsonValue → Result (Option KronroeTimestamp)
time_of v =
    if is_null v
    then ok none
    else do s ← or_missing (as_str v); t ← as_serialization (parse_rfc3339 s); ok (some t)

-- A member that is absent or null is no timestamp.
unfoldable pub optional_time_of : Option JsonValue → Result (Option KronroeTimestamp)
optional_time_of none = ok none
optional_time_of (some v) = time_of v

unfoldable pub fact_from_json : JsonValue → Result Fact
fact_from_json val = do
  id_text ← or_missing (field as_str (codes "id") val)
  id ← id_of (FactId.parse id_text)
  subject ← or_missing (field as_str (codes "subject") val)
  predicate ← or_missing (field as_str (codes "predicate") val)
  object_json ← or_missing (get val (codes "object"))
  object ← value_from_json object_json
  from_text ← or_missing (field as_str (codes "valid_from") val)
  valid_from ← as_serialization (parse_rfc3339 from_text)
  valid_to ← optional_time_of (get val (codes "valid_to"))
  recorded_text ← or_missing (field as_str (codes "recorded_at") val)
  recorded_at ← as_serialization (parse_rfc3339 recorded_text)
  expired_at ← optional_time_of (get val (codes "expired_at"))
  ok (record {
    id = id;
    subject = subject;
    predicate = predicate;
    object = object;
    valid_from = valid_from;
    valid_to = valid_to;
    recorded_at = recorded_at;
    expired_at = expired_at;
    confidence = unwrap_or (field as_f32 (codes "confidence") val) one_f32;
    source = field as_str (codes "source") val;
  })
