-- ===== src/Log/Load/Whole.antt =====
-- crates/core/src/storage_append_log.rs: the lines that are written of records, opened again.
use mathlib.Core.List.{append_assoc}
use kronroe.Common.{ℕ, ◌≡◌, refl, ◌∙◌, ap, sym, false, none, some, List, [], ◌∷◌, ◌++◌, map, All}
use kronroe.Common.Text.{Text}
use kronroe.Common.Utf8.{is_utf8, utf8_after, announced}
use kronroe.Error.{Result}
use kronroe.Json.{JsonValue, Outcome}
use kronroe.Json.Objects.{parse-Reads}
use kronroe.Json.Parse.{parse}
use kronroe.Json.Write.{write_string}
use kronroe.Log.{
  AppendLogRecord, AppendLogState, default, append_log_magic, replay, header, schema_version,
  upsert_predicate_registry_entry, upsert_volatility_registry_entry,
  upsert_source_weight_registry_entry, upsert_fact, upsert_fact_and_idempotency,
  upsert_fact_with_embedding, replace_fact,
}
use kronroe.Log.Json.{record_json, record_from_json, tagged}
use kronroe.Log.Json.RoundTrip.Records.{RecordFits, record_reads}
use kronroe.Log.Load.{
  loaded, known, line_of, line_of_value, line_of_record, version_error, load_state,
  is_ascii_whitespace, trim_ascii_whitespace, trim_start, trim_end,
}
use kronroe.Log.Load.Torn.{lines_text, IsLine, AreLines, IsTorn, load_state_torn}

-- `write_record_line`
unfoldable pub record_line : AppendLogRecord → Text
record_line r = record_json r ++ (10 ∷ [])

-- The bytes of a file after a sequence of records.
unfoldable pub file_text : List AppendLogRecord → Text
unfolding record_line
file_text [] = []
file_text (r ∷ rs) = record_line r ++ file_text rs

trim_end-append :
    (t : Text) (c : ℕ) → is_ascii_whitespace c ≡ false → trim_end (t ++ (c ∷ [])) ≡ t ++ (c ∷ [])
unfolding trim_end
trim_end-append [] c h = rw (h, trim_end) refl
trim_end-append (d ∷ []) c h = rw (h, trim_end) refl
trim_end-append (d ∷ e ∷ ds) c h = rw (trim_end-append (e ∷ ds) c h, trim_end) refl

-- A text between braces has no space around it.
trim_braces :
    (t : Text) → trim_ascii_whitespace (b'{' ∷ (t ++ (b'}' ∷ []))) ≡ b'{' ∷ (t ++ (b'}' ∷ []))
unfolding trim_ascii_whitespace trim_start is_ascii_whitespace
trim_braces t = trim_end-append (b'{' ∷ t) b'}' refl

between : Text → Text → Text
between name inner = write_string name ++ (b':' ∷ b'{' ∷ (inner ++ (b'}' ∷ [])))

tagged_braces : (name inner : Text) → tagged name inner ≡ b'{' ∷ (between name inner ++ (b'}' ∷ []))
unfolding between
tagged_braces name inner =
    ap (λ x. b'{' ∷ x)
      (ap (λ x. write_string name ++ (b':' ∷ b'{' ∷ x))
          (sym (append_assoc inner (b'}' ∷ []) (b'}' ∷ [])))
        ∙ sym (append_assoc (write_string name) (b':' ∷ b'{' ∷ (inner ++ (b'}' ∷ []))) (b'}' ∷ [])))

record_tagged :
    (r : AppendLogRecord) → (name : Text) × (inner : Text) × (record_json r ≡ tagged name inner)
unfolding record_json
record_tagged (header magic) = (_, _, refl)
record_tagged (schema_version version) = (_, _, refl)
record_tagged (upsert_predicate_registry_entry predicate encoded) = (_, _, refl)
record_tagged (upsert_volatility_registry_entry predicate encoded) = (_, _, refl)
record_tagged (upsert_source_weight_registry_entry source encoded) = (_, _, refl)
record_tagged (upsert_fact key fact) = (_, _, refl)
record_tagged (upsert_fact_and_idempotency key fact idempotency_key) = (_, _, refl)
record_tagged (upsert_fact_with_embedding key fact embedding) = (_, _, refl)
record_tagged (replace_fact key fact) = (_, _, refl)

read_line :
    (t : Text) (val : JsonValue) (r : AppendLogRecord)
    → parse (b'{' ∷ t) ≡ Outcome.ok val
    → record_from_json val ≡ Result.ok (some r)
    → line_of (b'{' ∷ t) ≡ known r
unfolding line_of line_of_value line_of_record
read_line t val r p b = rw (p, b) refl

line_reads :
    (r : AppendLogRecord) → RecordFits r → line_of (trim_ascii_whitespace (record_json r)) ≡ known r
line_reads r h =
    let (name, inner, e) = record_tagged r in
    let reads = record_reads r h in
    let braces = e ∙ tagged_braces name inner in
    ap (λ t. line_of (trim_ascii_whitespace t)) braces
    ∙ ap (λ t. line_of t) (trim_braces (between name inner))
    ∙ read_line (between name inner ++ (b'}' ∷ [])) reads.value r
        (ap (λ t. parse t) (sym braces) ∙ parse-Reads (record_json r) reads.value reads.reads)
        reads.back

pub record_json-IsLine :
    (r : AppendLogRecord) → RecordFits r → version_error r ≡ none → IsLine (record_json r) r
record_json-IsLine r h v = record {
  whole = (record_reads r h).reads.one_line;
  reads = line_reads r h;
  version = v;
}

-- A record that fits, of a schema version that is known.
abbrev pub IsWritten : AppendLogRecord → Type 0
IsWritten r = RecordFits r × (version_error r ≡ none)

records-AreLines : (rs : List AppendLogRecord) → All IsWritten rs → AreLines (map record_json rs) rs
records-AreLines [] h = tt
records-AreLines (r ∷ rs) h = (record_json-IsLine r h.0.0 h.0.1, records-AreLines rs h.1)

file_text-lines :
    (rs : List AppendLogRecord) (torn : Text)
    → file_text rs ++ torn ≡ lines_text (map record_json rs) torn
unfolding file_text record_line
file_text-lines [] torn = refl
file_text-lines (r ∷ rs) torn =
    append_assoc (record_line r) (file_text rs) torn
    ∙ append_assoc (record_json r) (10 ∷ []) (file_text rs ++ torn)
    ∙ ap (λ t. record_json r ++ (10 ∷ t)) (file_text-lines rs torn)

-- The lines of the header and of records of a known schema version with texts and numbers that
-- are read back, with nothing or one torn line of bytes behind them, are opened as the state
-- that the records replay to.
pub load_state-file_text :
    (rs : List AppendLogRecord) (torn : Text)
    → All IsWritten rs
    → IsTorn torn
    → (t : AppendLogState) × (replay default (header append_log_magic ∷ rs) ≡ some t)
      × (load_state (file_text (header append_log_magic ∷ rs) ++ torn) ≡ loaded t)
unfolding is_utf8 utf8_after announced version_error
load_state-file_text rs torn h u =
    let magic = header append_log_magic in
    let (t, e, f) =
      load_state_torn (record_json magic) (map record_json rs) rs torn
        (record_json-IsLine magic refl refl) (records-AreLines rs h) u in
    (t, e, ap (λ x. load_state x) (file_text-lines (magic ∷ rs) torn) ∙ f)
