-- ===== src/Log/Load.antt =====
-- crates/core/src/storage_append_log.rs: opening a file, a line at a time.
pub mod Torn
pub mod Sound
pub mod Whole
use kronroe.Common.{
  ℕ, Bool, true, false, not, ◌&&◌, ◌||◌, Option, none, some, List, [], ◌∷◌, ◌++◌, ◌==◌,
  if◌then◌else◌,
}
use kronroe.Common.Parse.{split}
use kronroe.Common.Text.{Text, text_eq}
use kronroe.Error.{KronroeError, plain, ErrorKind, Result}
use kronroe.Json.{JsonValue, Outcome}
use kronroe.Json.Parse.{parse}
use kronroe.Log.{
  AppendLogRecord, header, schema_version, AppendLogState, default, apply_record, append_log_magic,
}
use kronroe.Log.Json.{record_from_json}
use kronroe.Storage

-- What opening a file ends in. `out_of_fuel` is a run that the model did not finish.
pub data Loaded : Type 0 where
  loaded : AppendLogState → Loaded
  refused : KronroeError → Loaded
  panicked out_of_fuel : Loaded

-- `is_ascii_whitespace`
unfoldable pub is_ascii_whitespace : ℕ → Bool
is_ascii_whitespace c = c == 32 || c == 9 || c == 10 || c == 12 || c == 13

-- The text from the first byte on that is not space.
unfoldable pub trim_start : Text → Text
unfolding is_ascii_whitespace
trim_start [] = []
trim_start (c ∷ cs) = if is_ascii_whitespace c then trim_start cs else c ∷ cs

-- The text up to the last byte that is not space.
unfoldable pub trim_end : Text → Text
unfolding is_ascii_whitespace
trim_end [] = []
trim_end (c ∷ cs) = elim (trim_end cs) [
  | [] ↦ if is_ascii_whitespace c then [] else c ∷ []
  | d ∷ ds ↦ c ∷ d ∷ ds
]

unfoldable pub trim_ascii_whitespace : Text → Text
unfolding trim_start trim_end
trim_ascii_whitespace bytes = trim_end (trim_start bytes)

-- What a line reads as.
pub data Line : Type 0 where
  blank unknown broken panics unfinished : Line
  known : AppendLogRecord → Line

unfoldable pub line_of_record : Result (Option AppendLogRecord) → Line
line_of_record (Result.ok (some r)) = known r
line_of_record (Result.ok none) = unknown
line_of_record (Result.err e) = broken

unfoldable pub line_of_value : Outcome JsonValue → Line
unfolding line_of_record record_from_json
line_of_value (Outcome.ok v) = line_of_record (record_from_json v)
line_of_value (Outcome.err e) = broken
line_of_value Outcome.panicked = panics
line_of_value Outcome.out_of_fuel = unfinished

unfoldable pub line_of : Text → Line
unfolding line_of_value parse
line_of [] = blank
line_of (c ∷ cs) = line_of_value (parse (c ∷ cs))

-- Why a record must not stand here, if so.
unfoldable pub header_error : Bool → AppendLogRecord → Option KronroeError
header_error true r = none
header_error false (header magic) =
    if text_eq magic append_log_magic then none else some (plain ErrorKind.storage)
header_error false r = some (plain ErrorKind.storage)

unfoldable pub version_error : AppendLogRecord → Option KronroeError
version_error (schema_version version) =
    if version == Storage.schema_version
    then none
    else some (plain (ErrorKind.schema_mismatch version Storage.schema_version))
version_error r = none

-- A round of the loop: another one, with `saw_valid_record` and the state, or the end.
pub data Round : Type 0 where
  again : Bool → AppendLogState → Round
  stop : Loaded → Round

-- The round ends at an error.
unfoldable pub unless : Option KronroeError → Round → Round
unless none r = r
unless (some e) r = stop (refused e)

unfoldable pub state_round : Option AppendLogState → Round
state_round none = stop panicked
state_round (some s) = again true s

unfoldable pub known_line : Bool → AppendLogState → AppendLogRecord → Round
unfolding header_error version_error state_round unless
known_line saw s r =
    unless (header_error saw r) (unless (version_error r) (state_round (apply_record s r)))

-- `tail`: the line is the last, and no newline ends it.
unfoldable pub line_round : Bool → Bool → AppendLogState → Line → Round
unfolding known_line
line_round tail saw s blank = again saw s
line_round tail saw s unknown = again true s
line_round tail saw s broken =
    if saw && tail then stop (loaded s) else stop (refused (plain ErrorKind.storage))
line_round tail saw s panics = stop panicked
line_round tail saw s unfinished = stop out_of_fuel
line_round tail saw s (known r) = known_line saw s r

unfoldable pub is_last : List Text → Bool
is_last [] = true
is_last (l ∷ ls) = false

unfoldable pub after_round : Round → (Bool → AppendLogState → Loaded) → Loaded
after_round (again saw s) k = k saw s
after_round (stop r) k = r

unfoldable pub load_lines : Bool → Bool → AppendLogState → List Text → Loaded
unfolding after_round line_round line_of trim_ascii_whitespace is_last
load_lines ends_with_newline saw s [] = loaded s
load_lines ends_with_newline saw s (segment ∷ segments) =
    after_round
      (line_round (is_last segments && not ends_with_newline) saw s
        (line_of (trim_ascii_whitespace segment)))
      (λ saw' s'. load_lines ends_with_newline saw' s' segments)

-- Whether the last byte is a newline.
unfoldable pub ends_with_newline : Text → Bool
ends_with_newline [] = false
ends_with_newline (c ∷ []) = c == 10
ends_with_newline (c ∷ d ∷ ds) = ends_with_newline (d ∷ ds)

-- `load_state_from_path`, given the bytes that were read
unfoldable pub load_state : Text → Loaded
unfolding load_lines ends_with_newline split
load_state [] = loaded default
load_state (b ∷ bs) = load_lines (ends_with_newline (b ∷ bs)) false default (split 10 (b ∷ bs))
