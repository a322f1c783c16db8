-- ===== src/Fact/Json/RoundTrip.antt =====
-- crates/core/src/temporal_graph.rs: `from_json` of what `write_json` wrote, for values and facts.
use kronroe.Common.{ℕ, ◌≡◌, refl, true, Option, none, some, List, [], ◌∷◌, ◌++◌}
use kronroe.Common.Int.{◌≤ℤ◌}
use kronroe.Common.Text.{Text, codes, text_eq, text_lt}
use kronroe.Common.Utf8.{is_utf8, utf8_after, announced}
use kronroe.Error.{ok}
use kronroe.Fact.{Value, text, number, boolean, entity, Fact}
use kronroe.Fact.Json.{
  time_of, write_bool, value_json, value_from_json, optional_time, fact_json, fact_from_json,
  optional_time_of,
}
use kronroe.FactId
use kronroe.FactId.{FactId}
use kronroe.Float.Decimal.{f32_of_f64}
use kronroe.Json.{
  JsonValue, null, str, object, empty, insert_member, get, as_str, as_f64, as_bool, as_f32, is_null,
}
use kronroe.Json.Numbers.{IsNumber, number-Reads}
use kronroe.Json.Objects.{
  Reads, str-Reads, null-Reads, boolean-Reads, object-Reads, Entry, entries_text, inserted,
}
use kronroe.Json.Parse.{parse}
use kronroe.Json.{Outcome}
use kronroe.Json.Objects.{parse-Reads}
use kronroe.Json.Write.{
  write_string, write_f64, write_f32, write_kv_string, write_kv_f32, write_kv_option_string,
  write_null,
}
use kronroe.Time.{KronroeTimestamp, i64_max}
use kronroe.Time.Rfc3339.{to_rfc3339_z, parse_rfc3339}
use kronroe.Time.Rfc3339.Ascii.{to_rfc3339_z-is_utf8}
use kronroe.Time.Rfc3339.RoundTrip.{first_micros, parse_rfc3339-to_rfc3339_z}

-- A value of the types of the source whose number, if it is one, is read back by the parser.
abbrev pub ValueFits : Value → Type 0
ValueFits (text s) = is_utf8 s ≡ true
ValueFits (number n) = IsNumber (write_f64 n) n
ValueFits (boolean b) = Unit
ValueFits (entity s) = is_utf8 s ≡ true

-- The value of a JSON object that stands for a value.
abbrev pub value_value : Value → JsonValue
value_value (text s) = object (
    inserted empty (
      (codes "type", write_string (codes "Text"), str (codes "Text"))
      ∷ (codes "value", write_string s, str s)
      ∷ []))
value_value (number n) = object (
    inserted empty (
      (codes "type", write_string (codes "Number"), str (codes "Number"))
      ∷ (codes "value", write_f64 n, JsonValue.number n)
      ∷ []))
value_value (boolean b) = object (
    inserted empty (
      (codes "type", write_string (codes "Boolean"), str (codes "Boolean"))
      ∷ (codes "value", write_bool b, JsonValue.boolean b)
      ∷ []))
value_value (entity s) = object (
    inserted empty (
      (codes "type", write_string (codes "Entity"), str (codes "Entity"))
      ∷ (codes "value", write_string s, str s)
      ∷ []))

-- Two members, of which the first names the type.
tagged-Reads :
    (name t : Text) (v : JsonValue)
    → is_utf8 name ≡ true
    → Reads t v
    → Reads
        (b'{'
          ∷ entries_text (codes "type", write_string name, str name) ((codes "value", t, v) ∷ []))
        (object (
          inserted empty
            ((codes "type", write_string name, str name) ∷ (codes "value", t, v) ∷ [])))
unfolding is_utf8 utf8_after announced
tagged-Reads name t v u r =
    object-Reads (codes "type", write_string name, str name) ((codes "value", t, v) ∷ [])
      (refl, str-Reads name u) ((refl, r), tt)

value-Reads : (v : Value) → ValueFits v → Reads (value_json v) (value_value v)
unfolding value_json write_kv_string is_utf8 utf8_after announced
value-Reads (text s) u = tagged-Reads (codes "Text") (write_string s) (str s) refl (str-Reads s u)
value-Reads (number n) r =
    tagged-Reads (codes "Number") (write_f64 n) (JsonValue.number n) refl
      (number-Reads (write_f64 n) n r)
value-Reads (boolean b) u =
    tagged-Reads (codes "Boolean") (write_bool b) (JsonValue.boolean b) refl (boolean-Reads b)
value-Reads (entity s) u =
    tagged-Reads (codes "Entity") (write_string s) (str s) refl (str-Reads s u)

value_from_json-value_value : (v : Value) → value_from_json (value_value v) ≡ ok v
unfolding value_from_json insert_member get as_str as_f64 as_bool text_eq text_lt
value_from_json-value_value (text s) = refl
value_from_json-value_value (number n) = refl
value_from_json-value_value (boolean b) = refl
value_from_json-value_value (entity s) = refl

-- A time between 1 March of year 0 and the last that an i64 holds.
abbrev pub TimeFits : KronroeTimestamp → Type 0
TimeFits t = (first_micros ≤ℤ t.unix_micros) × (t.unix_micros ≤ℤ i64_max)

abbrev pub OptionFits : {A : Type 0} → (A → Type 0) → Option A → Type 0
OptionFits P none = Unit
OptionFits P (some a) = P a

-- A fact of the types of the source whose times are not before year 0 and whose numbers are read
-- back by the parser; `c` is the number that is read of the confidence.
pub record FactFits (f : Fact) (c : ℕ) : Type 0 where
  pub id : FactId.parse f.id.text ≡ FactId.Parsed.ok f.id
  pub id_text : is_utf8 f.id.text ≡ true
  pub subject : is_utf8 f.subject ≡ true
  pub predicate : is_utf8 f.predicate ≡ true
  pub object : ValueFits f.object
  pub valid_from : TimeFits f.valid_from
  pub valid_to : OptionFits TimeFits f.valid_to
  pub recorded_at : TimeFits f.recorded_at
  pub expired_at : OptionFits TimeFits f.expired_at
  pub confidence : IsNumber (write_f32 f.confidence) c
  pub confidence_value : f32_of_f64 c ≡ f.confidence
  pub source : OptionFits (λ s. is_utf8 s ≡ true) f.source

abbrev pub time_value : KronroeTimestamp → JsonValue
time_value t = str (to_rfc3339_z t)

abbrev pub optional : {A : Type 0} → (A → JsonValue) → Option A → JsonValue
optional f none = null
optional f (some a) = f a

abbrev pub optional_text : Option Text → Text
optional_text none = write_null
optional_text (some s) = write_string s

time-Reads : (t : KronroeTimestamp) → Reads (write_string (to_rfc3339_z t)) (time_value t)
time-Reads t = str-Reads (to_rfc3339_z t) (to_rfc3339_z-is_utf8 t)

optional_time-Reads :
    (t : Option KronroeTimestamp) → Reads (optional_time t) (optional time_value t)
unfolding optional_time
optional_time-Reads none = null-Reads
optional_time-Reads (some t) = time-Reads t

optional_text-Reads :
    (s : Option Text)
    → OptionFits (λ s. is_utf8 s ≡ true) s
    → Reads (optional_text s) (optional str s)
optional_text-Reads none u = null-Reads
optional_text-Reads (some s) u = str-Reads s u

-- The members of a fact, after the first.
abbrev pub entries : Fact → ℕ → List Entry
entries f c =
    (codes "subject", write_string f.subject, str f.subject)
    ∷ (codes "predicate", write_string f.predicate, str f.predicate)
    ∷ (codes "object", value_json f.object, value_value f.object)
    ∷ (codes "valid_from", write_string (to_rfc3339_z f.valid_from), time_value f.valid_from)
    ∷ (codes "valid_to", optional_time f.valid_to, optional time_value f.valid_to)
    ∷ (codes "recorded_at", write_string (to_rfc3339_z f.recorded_at), time_value f.recorded_at)
    ∷ (codes "expired_at", optional_time f.expired_at, optional time_value f.expired_at)
    ∷ (codes "confidence", write_f32 f.confidence, JsonValue.number c)
    ∷ (codes "source", optional_text f.source, optional str f.source)
    ∷ []

abbrev pub first_entry : Fact → Entry
first_entry f = (codes "id", write_string f.id.text, str f.id.text)

abbrev pub fact_value : Fact → ℕ → JsonValue
fact_value f c = object (inserted empty (first_entry f ∷ entries f c))

source_member :
    (s : Option Text)
    → write_kv_option_string (codes "source") s
      ≡ write_string (codes "source") ++ (b':' ∷ optional_text s)
unfolding write_kv_option_string
source_member none = refl
source_member (some s) = refl

fact_json-entries :
    (f : Fact) (c : ℕ) → fact_json f ≡ b'{' ∷ entries_text (first_entry f) (entries f c)
unfolding fact_json write_kv_string write_kv_f32
fact_json-entries f c = rw (source_member f.source) refl

pub fact-Reads : (f : Fact) (c : ℕ) → FactFits f c → Reads (fact_json f) (fact_value f c)
unfolding is_utf8 utf8_after announced
fact-Reads f c h = rw (fact_json-entries f c) (
    object-Reads (first_entry f) (entries f c) (refl, str-Reads f.id.text h.id_text)
      (
        (refl, str-Reads f.subject h.subject),
        (
          (refl, str-Reads f.predicate h.predicate),
          (
            (refl, value-Reads f.object h.object),
            (
              (refl, time-Reads f.valid_from),
              (
                (refl, optional_time-Reads f.valid_to),
                (
                  (refl, time-Reads f.recorded_at),
                  (
                    (refl, optional_time-Reads f.expired_at),
                    (
                      (refl, number-Reads (write_f32 f.confidence) c h.confidence),
                      ((refl, optional_text-Reads f.source h.source), tt),
                    ),
                  ),
                ),
              ),
            ),
          ),
        ),
      ))

time_read : (t : KronroeTimestamp) → TimeFits t → parse_rfc3339 (to_rfc3339_z t) ≡ ok t
time_read t h = parse_rfc3339-to_rfc3339_z t h.0 h.1

optional_time_read :
    (t : Option KronroeTimestamp)
    → OptionFits TimeFits t
    → optional_time_of (some (optional time_value t)) ≡ ok t
unfolding optional_time_of is_null as_str time_of
optional_time_read none h = refl
optional_time_read (some t) h = rw (time_read t h) refl

optional_text_read : (s : Option Text) → as_str (optional str s) ≡ s
unfolding as_str
optional_text_read none = refl
optional_text_read (some s) = refl

pub fact_from_json-fact_value :
    (f : Fact) (c : ℕ) → FactFits f c → fact_from_json (fact_value f c) ≡ ok f
unfolding fact_from_json get insert_member text_eq text_lt as_f32 as_str
fact_from_json-fact_value f c h =
    rw
      (
        h.id,
        value_from_json-value_value f.object,
        time_read f.valid_from h.valid_from,
        optional_time_read f.valid_to h.valid_to,
        time_read f.recorded_at h.recorded_at,
        optional_time_read f.expired_at h.expired_at,
        h.confidence_value,
        optional_text_read f.source,
      )
      refl

-- A fact whose id and texts are valid, whose times lie between 1 March of year 0 and the last
-- that an i64 holds and whose numbers are read back by the parser is written as JSON that parses
-- and is read as the same fact.
pub fact_from_json-fact_json :
    (f : Fact) (c : ℕ)
    → FactFits f c
    → (val : JsonValue) × (parse (fact_json f) ≡ Outcome.ok val) × (fact_from_json val ≡ ok f)
fact_from_json-fact_json f c h = (
  fact_value f c,
  parse-Reads (fact_json f) (fact_value f c) (fact-Reads f c h),
  fact_from_json-fact_value f c h,
)
