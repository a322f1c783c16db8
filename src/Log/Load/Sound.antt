-- ===== src/Log/Load/Sound.antt =====
-- crates/core/src/storage_append_log.rs: what a file that is opened gives, whatever it holds.
use mathlib.Core.Path.{subst}
use kronroe.Common.{
  Bool, true, false, not, ◌&&◌, Option, none, some, List, [], ◌∷◌, ◌++◌, ◌≡◌, refl, ◌⊎◌, inl, inr,
  Option-cases, arith, ap, ◌∙◌, sym,
}
use kronroe.Common.Parse.{split}
use kronroe.Common.Text.{Text}
use kronroe.Error.{Result, KronroeError, ErrorKind, plain}
use kronroe.Json.{JsonValue, Outcome}
use kronroe.Json.Parse.{parse}
use kronroe.Json.Parse.Total.{parse-ne-out_of_fuel}
use kronroe.Log.{AppendLogRecord, AppendLogState, default, apply_record, replay}
use kronroe.Log.Json.{record_from_json}
use kronroe.Log.Invariant.{Inv, apply_record-Inv, default-Inv}
use kronroe.Log.Load.{
  Loaded, loaded, refused, panicked, out_of_fuel, Line, blank, unknown, broken, panics, unfinished,
  known, line_of, line_of_value, line_of_record, header_error, version_error, state_round, unless,
  known_line, line_round, after_round, load_lines, load_state, ends_with_newline, is_last,
  trim_ascii_whitespace,
}

abbrev pub record_of_line : Line → List AppendLogRecord
record_of_line (known r) = r ∷ []
record_of_line _ = []

-- The records of the lines that read as one, in their order.
abbrev pub records_of : List Text → List AppendLogRecord
records_of [] = []
records_of (l ∷ ls) = record_of_line (line_of (trim_ascii_whitespace l)) ++ records_of ls

-- Whether a record has been seen, behind a line.
abbrev pub seen_after : Bool → Line → Bool
seen_after saw (known r) = true
seen_after saw unknown = true
seen_after saw _ = saw

-- What an error says of the line that it is about.
abbrev pub Refuses : KronroeError → Bool → Line → Type 0
Refuses e saw broken = e ≡ plain ErrorKind.storage
Refuses e saw (known r) = (header_error saw r ≡ some e) ⊎ (version_error r ≡ some e)
Refuses e saw _ = ⊥

-- An error is about one of the lines.
abbrev pub Refused : KronroeError → Bool → List Text → Type 0
Refused e saw [] = ⊥
Refused e saw (l ∷ ls) =
    Refuses e saw (line_of (trim_ascii_whitespace l))
    ⊎ Refused e (seen_after saw (line_of (trim_ascii_whitespace l))) ls

abbrev pub Somewhere : (Text → Type 0) → List Text → Type 0
Somewhere P [] = ⊥
Somewhere P (l ∷ ls) = P l ⊎ Somewhere P ls

-- What the end of a run on the lines, from a state, says of them: a loaded state is the replay of
-- their records, an error is about one of them, and a panic is that of the JSON reader on one of
-- them. `saw`: a record has been seen before.
abbrev pub IsSound : Bool → AppendLogState → List Text → Loaded → Type 0
IsSound saw s lines (loaded t) = (replay s (records_of lines) ≡ some t) × Inv t
IsSound saw s lines (refused e) = Refused e saw lines
IsSound saw s lines panicked =
    Somewhere (λ l. parse (trim_ascii_whitespace l) ≡ Outcome.panicked) lines
IsSound saw s lines out_of_fuel = ⊥

of_record-ne-panics : (r : Result (Option AppendLogRecord)) → line_of_record r ≡ panics → ⊥
unfolding line_of_record
of_record-ne-panics (Result.ok (some r)) e = cc e
of_record-ne-panics (Result.ok none) e = cc e
of_record-ne-panics (Result.err x) e = cc e

of_record-ne-unfinished : (r : Result (Option AppendLogRecord)) → line_of_record r ≡ unfinished → ⊥
unfolding line_of_record
of_record-ne-unfinished (Result.ok (some r)) e = cc e
of_record-ne-unfinished (Result.ok none) e = cc e
of_record-ne-unfinished (Result.err x) e = cc e

value-panics : (o : Outcome JsonValue) → line_of_value o ≡ panics → o ≡ Outcome.panicked
unfolding line_of_value
value-panics (Outcome.ok v) e = absurd (of_record-ne-panics (record_from_json v) e)
value-panics (Outcome.err f) e = absurd (ground (arith, e))
value-panics Outcome.panicked e = refl
value-panics Outcome.out_of_fuel e = absurd (ground (arith, e))

value-unfinished : (o : Outcome JsonValue) → line_of_value o ≡ unfinished → o ≡ Outcome.out_of_fuel
unfolding line_of_value
value-unfinished (Outcome.ok v) e = absurd (of_record-ne-unfinished (record_from_json v) e)
value-unfinished (Outcome.err f) e = absurd (ground (arith, e))
value-unfinished Outcome.panicked e = absurd (ground (arith, e))
value-unfinished Outcome.out_of_fuel e = refl

-- A line panics only where the JSON reader does.
line_of-panics : (line : Text) → line_of line ≡ panics → parse line ≡ Outcome.panicked
unfolding line_of
line_of-panics [] e = absurd (ground (arith, e))
line_of-panics (c ∷ cs) e = value-panics (parse (c ∷ cs)) e

line_of-ne-unfinished : (line : Text) → line_of line ≡ unfinished → ⊥
unfolding line_of
line_of-ne-unfinished [] e = ground (arith, e)
line_of-ne-unfinished (c ∷ cs) e =
    parse-ne-out_of_fuel (c ∷ cs) (value-unfinished (parse (c ∷ cs)) e)

-- A tail that is cut short has no line behind it.
torn_last : (ls : List Text) (b : Bool) → (is_last ls && b) ≡ true → ls ≡ []
unfolding is_last
torn_last [] b h = refl
torn_last (l ∷ ls) b h = absurd (ground (arith, h))

module _ (l : Text) (ls : List Text) where
  -- The end of a run on the other lines, behind one that is no record.
  behind :
      (saw : Bool) (s : AppendLogState) (line : Line) (r : Loaded)
      → line_of (trim_ascii_whitespace l) ≡ line
      → record_of_line line ≡ []
      → IsSound (seen_after saw line) s ls r
      → IsSound saw s (l ∷ ls) r
  behind saw s line (loaded t) e n h = (
    ap (λ x. replay s (record_of_line x ++ records_of ls)) e
        ∙ ap (λ x. replay s (x ++ records_of ls)) n
        ∙ h.0,
    h.1,
  )
  behind saw s line (refused x) e n h = inr (subst (λ y. Refused x (seen_after saw y) ls) (sym e) h)
  behind saw s line panicked e n h = inr h
  behind saw s line out_of_fuel e n h = h

  -- The same behind a record that is applied.
  behind_record :
      (saw : Bool) (s t : AppendLogState) (a : AppendLogRecord) (r : Loaded)
      → line_of (trim_ascii_whitespace l) ≡ known a
      → apply_record s a ≡ some t
      → IsSound true t ls r
      → IsSound saw s (l ∷ ls) r
  unfolding replay
  behind_record saw s t a (loaded u) e p h =
      (ap (λ x. replay s (record_of_line x ++ records_of ls)) e ∙ rw (p, replay) h.0, h.1)
  behind_record saw s t a (refused x) e p h =
      inr (subst (λ y. Refused x (seen_after saw y) ls) (sym e) h)
  behind_record saw s t a panicked e p h = inr h
  behind_record saw s t a out_of_fuel e p h = h

  module _ (k : Bool → AppendLogState → Loaded)
      (sound : (saw : Bool) (s : AppendLogState) → Inv s → IsSound saw s ls (k saw s)) where
    known-IsSound :
        (saw : Bool) (s : AppendLogState) (r : AppendLogRecord)
        → Inv s
        → line_of (trim_ascii_whitespace l) ≡ known r
        → IsSound saw s (l ∷ ls) (after_round (known_line saw s r) k)
    unfolding known_line after_round unless state_round
    known-IsSound saw s r i e = elim (Option-cases (header_error saw r)) [
      | inr (x, p) ↦ rw p (inl (subst (Refuses x saw) (sym e) (inl p)))
      | inl p ↦ elim (Option-cases (version_error r)) [
        | inr (x, q) ↦ rw (p, q) (inl (subst (Refuses x saw) (sym e) (inr q)))
        | inl q ↦
            let (t, a, j) = apply_record-Inv s r i in
            rw (p, q, a) (behind_record saw s t r (k true t) e a (sound true t j))
      ]
    ]

    line-IsSound :
        (tail saw : Bool) (s : AppendLogState) (line : Line)
        → (tail ≡ true → ls ≡ [])
        → Inv s
        → line_of (trim_ascii_whitespace l) ≡ line
        → IsSound saw s (l ∷ ls) (after_round (line_round tail saw s line) k)
    unfolding line_round after_round replay
    line-IsSound tail saw s blank last i e = behind saw s blank (k saw s) e refl (sound saw s i)
    line-IsSound tail saw s unknown last i e =
        behind saw s unknown (k true s) e refl (sound true s i)
    line-IsSound true true s broken last i e =
        behind true s broken (loaded s) e refl (ap (λ x. replay s (records_of x)) (last refl), i)
    line-IsSound false true s broken last i e =
        inl (subst (Refuses (plain ErrorKind.storage) true) (sym e) refl)
    line-IsSound tail false s broken last i e =
        inl (subst (Refuses (plain ErrorKind.storage) false) (sym e) refl)
    line-IsSound tail saw s panics last i e = inl (line_of-panics (trim_ascii_whitespace l) e)
    line-IsSound tail saw s unfinished last i e =
        absurd (line_of-ne-unfinished (trim_ascii_whitespace l) e)
    line-IsSound tail saw s (known r) last i e = known-IsSound saw s r i e

lines-IsSound :
    (ends saw : Bool) (s : AppendLogState) (lines : List Text)
    → Inv s
    → IsSound saw s lines (load_lines ends saw s lines)
unfolding load_lines replay
lines-IsSound ends saw s [] i = (refl, i)
lines-IsSound ends saw s (l ∷ ls) i =
    line-IsSound l ls (λ saw' s'. load_lines ends saw' s' ls)
      (λ saw' s' i'. lines-IsSound ends saw' s' ls i') (is_last ls && not ends) saw s
      (line_of (trim_ascii_whitespace l)) (torn_last ls (not ends)) i refl

-- Opening a file of any bytes ends, within the fuel of the model. A state that it loads is the
-- replay, from the empty state, of the records of those lines of the file that read as one, in
-- their order, and has exact indexes and version chains. An error is the storage error of a line
-- of the file that does not read, the header error of the record that is the first of the file,
-- or the version error of a record of the file. If it panics, then the JSON reader panics on a
-- line of the file.
pub load_state-IsSound : (bytes : Text) → IsSound false default (split 10 bytes) (load_state bytes)
unfolding load_state replay split line_of trim_ascii_whitespace
load_state-IsSound [] = (refl, default-Inv)
load_state-IsSound (b ∷ bs) =
    lines-IsSound (ends_with_newline (b ∷ bs)) false default (split 10 (b ∷ bs)) default-Inv
