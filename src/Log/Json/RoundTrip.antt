-- ===== src/Log/Json/RoundTrip.antt =====
-- crates/core/src/storage_append_log.rs: records and the lines that are written of them.
pub mod Embedding
pub mod Records
use mathlib.Core.List.{append_assoc}
use kronroe.Common.{
  ℕ, ◌≡◌, refl, ◌∙◌, ap, sym, Bool, true, false, Option, none, some, List, [], ◌∷◌, ◌++◌, All,
}
use kronroe.Common.Decimal.{decimal_text}
use kronroe.Common.Text.{Text, codes, text_eq, text_lt}
use kronroe.Common.Utf8.{is_utf8, utf8_after, announced}
use kronroe.Error.{Result, ok}
use kronroe.Fact.{Fact}
use kronroe.Fact.Json.{fact_json, fact_from_json, or_missing, field}
use kronroe.Fact.Json.RoundTrip.{FactFits, fact_value, fact-Reads, fact_from_json-fact_value}
use kronroe.Json.{
  JsonValue, number, str, object, Members, empty, member, insert_member, get, as_str, as_u64,
  as_array, Outcome,
}
use kronroe.Json.Numbers.{IsNumber, number-Reads}
use kronroe.Json.Objects.{
  Reads, Entry, entry_text, entries_text, EntryReads, inserted, str-Reads, object-Reads,
  parse-Reads,
}
use kronroe.Json.Parse.{parse}
use kronroe.Json.Write.{write_string, write_kv_string, write_kv_u64}
use kronroe.Log.{
  AppendLogRecord, header, schema_version, upsert_predicate_registry_entry,
  upsert_volatility_registry_entry, upsert_source_weight_registry_entry, upsert_fact,
  upsert_fact_and_idempotency, upsert_fact_with_embedding, replace_fact,
}
use kronroe.Log.Json.{record_json, record_from_json, tagged, variant, write_elements, numbers_of}

-- Members between commas, without the brace after them.
abbrev joined : Entry → List Entry → Text
joined e [] = entry_text e
joined e (f ∷ es) = entry_text e ++ (b',' ∷ joined f es)

entries_text-joined : (e : Entry) (es : List Entry) → entries_text e es ≡ joined e es ++ (b'}' ∷ [])
entries_text-joined e [] = refl
entries_text-joined e (f ∷ es) =
    ap (λ x. entry_text e ++ (b',' ∷ x)) (entries_text-joined f es)
    ∙ sym (append_assoc (entry_text e) (b',' ∷ joined f es) (b'}' ∷ []))

abbrev inner_value : Entry → List Entry → JsonValue
inner_value e es = object (inserted empty (e ∷ es))

tagged-joined :
    (name : Text) (e : Entry) (es : List Entry)
    → tagged name (joined e es)
      ≡ b'{' ∷ entries_text (name, b'{' ∷ entries_text e es, inner_value e es) []
tagged-joined name e es =
    ap (λ x. b'{' ∷ x)
      (ap (λ x. write_string name ++ (b':' ∷ b'{' ∷ x))
          (sym (append_assoc (joined e es) (b'}' ∷ []) (b'}' ∷ []))
            ∙ ap (λ x. x ++ (b'}' ∷ [])) (sym (entries_text-joined e es)))
        ∙ sym (append_assoc (write_string name) (b':' ∷ b'{' ∷ entries_text e es) (b'}' ∷ [])))

tagged-Reads :
    (name : Text) (e : Entry) (es : List Entry)
    → is_utf8 name ≡ true
    → EntryReads e
    → All EntryReads es
    → Reads (tagged name (joined e es)) (object (member name (inner_value e es) empty))
unfolding insert_member
tagged-Reads name e es u r rs = rw (tagged-joined name e es) (
    object-Reads (name, b'{' ∷ entries_text e es, inner_value e es) [] (u, object-Reads e es r rs)
      tt)

abbrev text_entry : Text → Text → Entry
text_entry key s = (key, write_string s, str s)

text_entry-Reads :
    (key s : Text) → is_utf8 key ≡ true → is_utf8 s ≡ true → EntryReads (text_entry key s)
text_entry-Reads key s k u = (k, str-Reads s u)

-- The number of a schema version is read back.
pub record VersionFits (version n : ℕ) : Type 0 where
  pub text : IsNumber (decimal_text 20 version) n
  pub value : as_u64 (number n) ≡ some version

abbrev pub FactFit : Fact → Type 0
FactFit fact = (c : ℕ) × FactFits fact c

abbrev fact_entry : (fact : Fact) → FactFit fact → Entry
fact_entry fact f = (codes "fact", fact_json fact, fact_value fact f.0)

pub record RecordReads (r : AppendLogRecord) : Type 0 where
  pub value : JsonValue
  pub reads : Reads (record_json r) value
  pub back : record_from_json value ≡ ok (some r)

header-RecordReads : (magic : Text) → is_utf8 magic ≡ true → RecordReads (header magic)
unfolding record_json record_from_json variant write_kv_string is_utf8 utf8_after announced
    insert_member get as_str text_eq text_lt
header-RecordReads magic u = record {
  value = _;
  reads =
      tagged-Reads (codes "Header") (text_entry (codes "magic") magic) [] refl
        (refl, str-Reads magic u) tt;
  back = refl;
}

version-RecordReads : (version n : ℕ) → VersionFits version n → RecordReads (schema_version version)
unfolding record_json record_from_json variant write_kv_u64 is_utf8 utf8_after announced
    insert_member get text_eq text_lt
version-RecordReads version n u = record {
  value = _;
  reads =
      tagged-Reads (codes "SchemaVersion") (codes "version", decimal_text 20 version, number n) []
        refl (refl, number-Reads (decimal_text 20 version) n u.text) tt;
  back = rw u.value refl;
}

fact-RecordReads :
    (key : Text) (fact : Fact)
    → is_utf8 key ≡ true
    → FactFit fact
    → RecordReads (upsert_fact key fact)
unfolding record_json record_from_json variant write_kv_string is_utf8 utf8_after announced
    insert_member get as_str text_eq text_lt
fact-RecordReads key fact u f = record {
  value = _;
  reads =
      tagged-Reads (codes "UpsertFact") (text_entry (codes "key") key) (fact_entry fact f ∷ []) refl
        (refl, str-Reads key u) ((refl, fact-Reads fact f.0 f.1), tt);
  back = rw (fact_from_json-fact_value fact f.0 f.1) refl;
}

replace-RecordReads :
    (key : Text) (fact : Fact)
    → is_utf8 key ≡ true
    → FactFit fact
    → RecordReads (replace_fact key fact)
unfolding record_json record_from_json variant write_kv_string is_utf8 utf8_after announced
    insert_member get as_str text_eq text_lt
replace-RecordReads key fact u f = record {
  value = _;
  reads =
      tagged-Reads (codes "ReplaceFact") (text_entry (codes "key") key) (fact_entry fact f ∷ [])
        refl (refl, str-Reads key u) ((refl, fact-Reads fact f.0 f.1), tt);
  back = rw (fact_from_json-fact_value fact f.0 f.1) refl;
}

idempotency-RecordReads :
    (key : Text) (fact : Fact) (idempotency_key : Text)
    → is_utf8 key ≡ true
    → FactFit fact
    → is_utf8 idempotency_key ≡ true
    → RecordReads (upsert_fact_and_idempotency key fact idempotency_key)
unfolding record_json record_from_json variant write_kv_string is_utf8 utf8_after announced
    insert_member get as_str text_eq text_lt
idempotency-RecordReads key fact idempotency_key u f w = record {
  value = _;
  reads =
      tagged-Reads (codes "UpsertFactAndIdempotency") (text_entry (codes "key") key)
        (fact_entry fact f ∷ text_entry (codes "idempotency_key") idempotency_key ∷ []) refl
        (refl, str-Reads key u)
        ((refl, fact-Reads fact f.0 f.1), ((refl, str-Reads idempotency_key w), tt));
  back = rw (fact_from_json-fact_value fact f.0 f.1) refl;
}

module _ (key encoded : Text) (u : is_utf8 key ≡ true) (w : is_utf8 encoded ≡ true) where
  predicate-RecordReads : RecordReads (upsert_predicate_registry_entry key encoded)
  unfolding record_json record_from_json variant write_kv_string is_utf8 utf8_after announced
      insert_member get as_str text_eq text_lt
  predicate-RecordReads = record {
    value = _;
    reads =
        tagged-Reads (codes "UpsertPredicateRegistryEntry") (text_entry (codes "predicate") key)
          (text_entry (codes "encoded") encoded ∷ []) refl (refl, str-Reads key u)
          ((refl, str-Reads encoded w), tt);
    back = refl;
  }

  volatility-RecordReads : RecordReads (upsert_volatility_registry_entry key encoded)
  unfolding record_json record_from_json variant write_kv_string is_utf8 utf8_after announced
      insert_member get as_str text_eq text_lt
  volatility-RecordReads = record {
    value = _;
    reads =
        tagged-Reads (codes "UpsertVolatilityRegistryEntry") (text_entry (codes "predicate") key)
          (text_entry (codes "encoded") encoded ∷ []) refl (refl, str-Reads key u)
          ((refl, str-Reads encoded w), tt);
    back = refl;
  }

  source_weight-RecordReads : RecordReads (upsert_source_weight_registry_entry key encoded)
  unfolding record_json record_from_json variant write_kv_string is_utf8 utf8_after announced
      insert_member get as_str text_eq text_lt
  source_weight-RecordReads = record {
    value = _;
    reads =
        tagged-Reads (codes "UpsertSourceWeightRegistryEntry") (text_entry (codes "source") key)
          (text_entry (codes "encoded") encoded ∷ []) refl (refl, str-Reads key u)
          ((refl, str-Reads encoded w), tt);
    back = refl;
  }
