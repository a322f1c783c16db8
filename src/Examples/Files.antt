-- ===== src/Examples/Files.antt =====
-- Runs of the theorems on files: records and whole files are read back.
use kronroe.Common.{
  arith, ℕ, ◌≡◌, ◌≢◌, refl, Option, some, none, true, false, List, [], ◌∷◌, ◌++◌, inr, map,
}
use mathlib.Core.Path.{subst}
use kronroe.Common.Parse.{split}
use kronroe.Common.Text.{Text, codes}
use kronroe.Error.{Result, ErrorKind, plain}
use kronroe.Json.{JsonValue, Outcome, out_of_fuel, ok}
use kronroe.Json.Parse.{parse, parse_number}
use kronroe.Json.Scan.{parse_string}
use kronroe.Json.Write.{write_f32}
use kronroe.Common.{All}
use kronroe.Common.Utf8.{is_utf8}
use kronroe.Log.{
  AppendLogRecord, AppendLogState, header, schema_version, upsert_fact_with_embedding, replay,
  default, append_log_magic,
}
use kronroe.Log.Json.{record_json, record_from_json}
use kronroe.Log.Json.RoundTrip.{VersionFits}
use kronroe.Log.Json.RoundTrip.Embedding.{ElementFits}
use kronroe.Log.Json.RoundTrip.Records.{RecordFits, record_from_json-record_json}
use kronroe.Log.Load.{load_state, loaded, line_of, trim_ascii_whitespace, version_error}
use kronroe.Log.Load.Torn.{IsTorn, IsLine, load_state_corrupt, lines_text}
use kronroe.Log.Load.Sound.{IsSound, load_state-IsSound}
use kronroe.Log.Load.Whole.{file_text, IsWritten}
use kronroe.Backend.{AppendLogBackend, written, initialize_schema}
use kronroe.Backend.Steps.{Reach, here, next, created, schema_initialized, fact_written}
use kronroe.Backend.Recovery.{load_state-Reach}
use kronroe.Log.{apply_record, upsert_fact}
use kronroe.Log.Versions.{insertion_index}
use kronroe.Common.Map
use kronroe.Storage.{fact_row_key, subject_predicate_prefix}
use kronroe.Backend.{write_fact, commit, append_record}
use kronroe.Log.Load.{refused, broken}
use kronroe.Log.Load.Whole.{record_json-IsLine}
use kronroe.Examples.{state_or_default, acme, acme_key}
use kronroe.Examples.Texts.{one_f64, acme_fits}

abbrev two_f64 : ℕ
two_f64 = 4611686018427387904

two_version : VersionFits 2 two_f64
unfolding write_f32 parse_number kronroe.Common.Decimal.padded kronroe.Common.Decimal.width_of
    kronroe.Float.Decimal.is_ascii_digit kronroe.Common.Utf8.is_utf8 kronroe.Common.Utf8.utf8_after
    kronroe.Common.Utf8.announced kronroe.Json.Parse.signed_part kronroe.Json.Parse.int_part
    kronroe.Json.Scan.consume_digits kronroe.Json.Parse.fraction_part
    kronroe.Json.Parse.exponent_part kronroe.Json.Parse.number_of kronroe.Float.Decimal.f64_of_text
    kronroe.Json.as_u64
two_version = record {
  text = record { start = refl; utf8 = refl; one_line = refl; whole = refl };
  value = refl;
}

abbrev half_f32 : ℕ
half_f32 = 1056964608

half : ElementFits half_f32 4602678819172646912
unfolding write_f32 parse_number kronroe.Common.Decimal.padded kronroe.Common.Decimal.width_of
    kronroe.Float.Decimal.is_ascii_digit kronroe.Common.Utf8.is_utf8 kronroe.Common.Utf8.utf8_after
    kronroe.Common.Utf8.announced kronroe.Json.Parse.signed_part kronroe.Json.Parse.int_part
    kronroe.Json.Scan.consume_digits kronroe.Json.Parse.fraction_part
    kronroe.Json.Parse.exponent_part kronroe.Json.Parse.number_of kronroe.Float.Decimal.f64_of_text
    kronroe.Float.Display.display kronroe.Float.is_nan kronroe.Float.Decimal.f32_of_f64
half = record {
  text = record { start = refl; utf8 = refl; one_line = refl; whole = refl };
  value = refl;
}

abbrev embedded : AppendLogRecord
embedded = upsert_fact_with_embedding acme_key acme (half_f32 ∷ half_f32 ∷ [])

acme_key_utf8 : is_utf8 acme_key ≡ true
unfolding is_utf8 kronroe.Common.Utf8.utf8_after kronroe.Common.Utf8.announced
acme_key_utf8 = refl

embedded_fits : RecordFits embedded
embedded_fits = (acme_key_utf8, ((one_f64, acme_fits), ((_, half), ((_, half), tt))))

record_from_json-record_json_example :
    (val : JsonValue) × (parse (record_json embedded) ≡ Outcome.ok val)
    × (record_from_json val ≡ Result.ok (some embedded))
record_from_json-record_json_example = record_from_json-record_json embedded embedded_fits

-- The first bytes of a record.
abbrev torn : Text
torn = codes "{\"UpsertFact\":{\"key\""

torn_broken : line_of (trim_ascii_whitespace torn) ≡ broken
unfolding trim_ascii_whitespace line_of parse kronroe.Common.Utf8.utf8_after
    kronroe.Common.Utf8.announced kronroe.Json.Parse.value_at kronroe.Json.Parse.opened
    kronroe.Json.Parse.parse_key parse_string
torn_broken = refl

torn-IsTorn : IsTorn torn
torn-IsTorn = record { whole = refl; reads = inr torn_broken }

abbrev stored_records : List AppendLogRecord
stored_records = schema_version 2 ∷ embedded ∷ []

stored-IsWritten : All IsWritten stored_records
unfolding version_error
stored-IsWritten = (((two_f64, two_version), refl), ((embedded_fits, refl), tt))

magic_utf8 : is_utf8 append_log_magic ≡ true
unfolding is_utf8 kronroe.Common.Utf8.utf8_after kronroe.Common.Utf8.announced
magic_utf8 = refl

known_header : version_error (header append_log_magic) ≡ none
unfolding version_error
known_header = refl

known_version : version_error (schema_version 2) ≡ none
unfolding version_error
known_version = refl

-- The second line is cut short, and the file goes on.
load_state_corrupt_example :
    load_state (
      lines_text
        (record_json (header append_log_magic) ∷ record_json (schema_version 2) ∷ [])
        (torn ++ (10 ∷ codes "{}")))
    ≡ refused (plain ErrorKind.storage)
load_state_corrupt_example =
    let header_line : IsLine (record_json (header append_log_magic)) (header append_log_magic) =
      record_json-IsLine (header append_log_magic) magic_utf8 known_header in
    let version_line : IsLine (record_json (schema_version 2)) (schema_version 2) =
      record_json-IsLine (schema_version 2) (two_f64, two_version) known_version in
    load_state_corrupt (record_json (header append_log_magic)) (record_json (schema_version 2) ∷ [])
      (schema_version 2 ∷ []) torn (codes "{}") header_line (version_line, tt) refl torn_broken

-- A new file after its schema is written.
abbrev headed : AppendLogBackend
headed = record created {
  state = record default { header_present = true; schema_version = some 2 };
  file = header append_log_magic ∷ schema_version 2 ∷ [];
}

-- The state after a fact is written to it.
unfoldable with_acme : AppendLogState
unfolding state_or_default
with_acme = state_or_default (apply_record headed.state (upsert_fact acme_key acme))

abbrev saved : AppendLogBackend
saved = record headed {
  state = with_acme;
  file = header append_log_magic ∷ schema_version 2 ∷ upsert_fact acme_key acme ∷ [];
}

schema_saved : initialize_schema written written created ≡ some (headed, Result.ok 2)
unfolding initialize_schema commit apply_record kronroe.Common.Text.text_eq
schema_saved = refl

acme-saved : write_fact written acme headed ≡ some (saved, Result.ok tt)
unfolding write_fact with_acme commit append_record apply_record kronroe.Log.insert_into_chain
    insertion_index Map.get Map.insert kronroe.Common.Text.text_eq fact_row_key
    subject_predicate_prefix kronroe.Log.Versions.insert_at kronroe.Common.Text.text_lt
acme-saved = refl

saved_fits : All IsWritten (schema_version 2 ∷ upsert_fact acme_key acme ∷ [])
unfolding version_error
saved_fits = (((two_f64, two_version), refl), (((acme_key_utf8, (one_f64, acme_fits)), refl), tt))

abbrev saved_records : List AppendLogRecord
saved_records = schema_version 2 ∷ upsert_fact acme_key acme ∷ []

saved-Reach : Reach created saved
saved-Reach =
    next
      (next here
        (schema_initialized written written (Result.ok 2) (λ e. cc e) (λ e. cc e) schema_saved))
      (fact_written written acme (Result.ok tt) (λ e. cc e) acme-saved)

load_state-Reach_example : load_state (file_text saved.file ++ torn) ≡ loaded saved.state
load_state-Reach_example =
    load_state-Reach {b = saved} saved_records torn saved-Reach refl saved_fits torn-IsTorn

-- The file of three records behind which a torn one stands.
abbrev torn_file : Text
torn_file = file_text saved.file ++ torn

torn_file-loaded : load_state torn_file ≡ loaded saved.state
torn_file-loaded =
    load_state-Reach {b = saved} saved_records torn saved-Reach refl saved_fits torn-IsTorn

load_state-IsSound_example : IsSound false default (split 10 torn_file) (loaded saved.state)
load_state-IsSound_example =
    subst (λ r. IsSound false default (split 10 torn_file) r) torn_file-loaded
      (load_state-IsSound torn_file)
