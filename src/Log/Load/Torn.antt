-- ===== src/Log/Load/Torn.antt =====
-- crates/core/src/storage_append_log.rs: opening a file of whole lines, with or without a torn one
-- behind them.
use mathlib.Core.List.{append_assoc}
use kronroe.Common.{
  if◌then◌else◌, arith, ℕ, Bool, true, false, not, ◌&&◌, ◌||◌, Option, none, some, List, [], ◌∷◌,
  ◌++◌, ◌==◌, ◌≡◌, refl, ◌∙◌, ap, sym, All, ◌⊎◌, inl, inr, map,
}
use kronroe.Common.Parse.{split, onto_first}
use kronroe.Common.Text.{Text}
use kronroe.Error.{plain, ErrorKind}
use kronroe.Json.OneLine.{no_newline}
use kronroe.Log.{
  AppendLogRecord, AppendLogState, default, append_log_magic, apply_record, header, replay,
}
use kronroe.Log.Invariant.{Inv, apply_record-Inv, default-Inv}
use kronroe.Log.Load.{
  refused, loaded, broken, known, again, line_of, header_error, version_error, state_round, unless,
  known_line, line_round, after_round, load_lines, load_state, ends_with_newline, is_last,
  trim_ascii_whitespace, trim_start, trim_end,
}

-- Lines, each with a newline after it, and what is behind them.
abbrev pub lines_text : List Text → Text → Text
lines_text [] torn = torn
lines_text (l ∷ ls) torn = l ++ (10 ∷ lines_text ls torn)

-- A line that reads as the record, of a schema version that is known.
pub record IsLine (l : Text) (r : AppendLogRecord) : Type 0 where
  pub whole : no_newline l ≡ true
  pub reads : line_of (trim_ascii_whitespace l) ≡ known r
  pub version : version_error r ≡ none

abbrev pub AreLines : List Text → List AppendLogRecord → Type 0
AreLines [] [] = Unit
AreLines (l ∷ ls) (r ∷ rs) = IsLine l r × AreLines ls rs
AreLines _ _ = ⊥

-- Nothing, or a line that does not read as a record.
pub record IsTorn (l : Text) : Type 0 where
  pub whole : no_newline l ≡ true
  pub reads : (l ≡ []) ⊎ (line_of (trim_ascii_whitespace l) ≡ broken)

split-line : (l rest : Text) → no_newline l ≡ true → split 10 (l ++ (10 ∷ rest)) ≡ l ∷ split 10 rest
unfolding split onto_first
split-line [] rest h = refl
split-line (c ∷ cs) rest h =
    let e : (c == 10) ≡ false = ground arith in rw (e, split-line cs rest (ground arith)) refl

split-torn : (l : Text) → no_newline l ≡ true → split 10 l ≡ l ∷ []
unfolding split onto_first
split-torn [] h = refl
split-torn (c ∷ cs) h =
    let e : (c == 10) ≡ false = ground arith in rw (e, split-torn cs (ground arith)) refl

torn_line_ends :
    (c : ℕ) (cs : Text) → no_newline (c ∷ cs) ≡ true → ends_with_newline (c ∷ cs) ≡ false
unfolding ends_with_newline
torn_line_ends c [] h = ground arith
torn_line_ends c (d ∷ ds) h = torn_line_ends d ds (ground arith)

-- What a text ends with, there is nothing in front of it to change.
ends-append :
    (l : Text) (c : ℕ) (cs : Text) → ends_with_newline (l ++ (c ∷ cs)) ≡ ends_with_newline (c ∷ cs)
unfolding ends_with_newline
ends-append [] c cs = refl
ends-append (d ∷ []) c cs = refl
ends-append (d ∷ e ∷ es) c cs = ends-append (e ∷ es) c cs

lines-append : (ls : List Text) (torn : Text) → lines_text ls torn ≡ lines_text ls [] ++ torn
lines-append [] torn = refl
lines-append (l ∷ ls) torn =
    ap (λ x. l ++ (10 ∷ x)) (lines-append ls torn)
    ∙ sym (append_assoc l (10 ∷ lines_text ls []) torn)

ends-lines :
    (ls : List Text) (c : ℕ) (cs : Text)
    → ends_with_newline (lines_text ls (c ∷ cs)) ≡ ends_with_newline (c ∷ cs)
ends-lines ls c cs =
    ap (λ x. ends_with_newline x) (lines-append ls (c ∷ cs)) ∙ ends-append (lines_text ls []) c cs

-- The last line ends the run with the state before it.
torn_last :
    (ls : List Text) (l : Text) (s : AppendLogState)
    → IsTorn l
    → load_lines (ends_with_newline (lines_text ls l)) true s (l ∷ []) ≡ loaded s
unfolding load_lines line_of trim_ascii_whitespace trim_start trim_end line_round after_round
    is_last
torn_last ls [] s t = refl
torn_last ls (c ∷ cs) s t = elim t.reads [
  | inl e ↦ absurd (cc e)
  | inr e ↦ rw (e, ends-lines ls c cs, torn_line_ends c cs t.whole) refl
]

known_round :
    (tail : Bool) (s t : AppendLogState) (r : AppendLogRecord)
    → version_error r ≡ none
    → apply_record s r ≡ some t
    → line_round tail true s (known r) ≡ again true t
unfolding line_round known_line header_error unless state_round
known_round tail s t r v e = rw (v, e) refl

line_loaded :
    (ends : Bool) (s t : AppendLogState) (l : Text) (r : AppendLogRecord) (ls : List Text)
    → IsLine l r
    → apply_record s r ≡ some t
    → load_lines ends true s (l ∷ ls) ≡ load_lines ends true t ls
unfolding load_lines after_round
line_loaded ends s t l r ls h e =
    rw (h.reads, known_round (is_last ls && not ends) s t r h.version e) refl

-- Behind lines that were read, the run goes on in the state that their records give.
lines_loaded :
    (ls : List Text) (rs : List AppendLogRecord) (torn : Text) (ends : Bool) (s : AppendLogState)
    → Inv s
    → AreLines ls rs
    → (t : AppendLogState) × (replay s rs ≡ some t)
      × (load_lines ends true s (split 10 (lines_text ls torn))
          ≡ load_lines ends true t (split 10 torn))
unfolding replay
lines_loaded [] [] torn ends s i h = (s, refl, refl)
lines_loaded (l ∷ ls) (r ∷ rs) torn ends s i h =
    let (u, e, j) = apply_record-Inv s r i in
    let (t, f, g) = lines_loaded ls rs torn ends u j h.1 in
    (
      t,
      rw (e, replay) f,
      rw (split-line l (lines_text ls torn) h.0.whole)
          (line_loaded ends s u l r (split 10 (lines_text ls torn)) h.0 e ∙ g),
    )
lines_loaded [] (r ∷ rs) torn ends s i h = absurd h
lines_loaded (l ∷ ls) [] torn ends s i h = absurd h

-- The header is accepted as the first record.
header_loaded :
    (ends : Bool) (l : Text) (ls : List Text)
    → IsLine l (header append_log_magic)
    → load_lines ends false default (l ∷ ls)
      ≡ load_lines ends true (record default { header_present = true }) ls
unfolding load_lines after_round line_round known_line header_error unless state_round version_error
    apply_record kronroe.Common.Text.text_eq
header_loaded ends l ls h = rw h.reads refl

abbrev with_header : AppendLogState
with_header = record default { header_present = true }

with_header-Inv : Inv with_header
with_header-Inv = record {
  all = default-Inv.all;
  active = default-Inv.active;
  current = default-Inv.current;
  chains = default-Inv.chains;
}

header_replay :
    (rs : List AppendLogRecord)
    → replay default (header append_log_magic ∷ rs) ≡ replay with_header rs
unfolding replay apply_record kronroe.Common.Text.text_eq
header_replay rs = refl

by_lines :
    (l rest : Text)
    → load_state (l ++ (10 ∷ rest))
      ≡ load_lines
          (ends_with_newline (l ++ (10 ∷ rest)))
          false
          default
          (split 10 (l ++ (10 ∷ rest)))
unfolding load_state
by_lines [] rest = refl
by_lines (c ∷ cs) rest = refl

-- x
pub load_state_torn :
    (l : Text) (ls : List Text) (rs : List AppendLogRecord) (torn : Text)
    → IsLine l (header append_log_magic)
    → AreLines ls rs
    → IsTorn torn
    → (t : AppendLogState) × (replay default (header append_log_magic ∷ rs) ≡ some t)
      × (load_state (lines_text (l ∷ ls) torn) ≡ loaded t)
load_state_torn l ls rs torn h hs u =
    let ends = ends_with_newline (lines_text (l ∷ ls) torn) in
    let (t, e, f) = lines_loaded ls rs torn ends with_header with_header-Inv hs in
    (
      t,
      header_replay rs ∙ e,
      by_lines l (lines_text ls torn)
          ∙ ap (λ x. load_lines ends false default x) (split-line l (lines_text ls torn) h.whole)
          ∙ header_loaded ends l (split 10 (lines_text ls torn)) h
          ∙ f
          ∙ ap (λ x. load_lines ends true t x) (split-torn torn u.whole)
          ∙ torn_last (l ∷ ls) torn t u,
    )

pushed : (c : ℕ) (ls : List Text) → is_last (onto_first c ls) ≡ false
unfolding onto_first is_last
pushed c [] = refl
pushed c (l ∷ ls) = refl

not_last : (rest : Text) → is_last (split 10 rest) ≡ false
unfolding split onto_first is_last
not_last [] = refl
not_last (c ∷ cs) =
    elim (c == 10)
      as (λ b. is_last (if b then [] ∷ split 10 cs else onto_first c (split 10 cs)) ≡ false) [
        | true ↦ refl
        | false ↦ pushed c (split 10 cs)
      ]

broken_loaded :
    (ends : Bool) (bad : Text) (ls : List Text) (s : AppendLogState)
    → is_last ls ≡ false
    → line_of (trim_ascii_whitespace bad) ≡ broken
    → load_lines ends true s (bad ∷ ls) ≡ refused (plain ErrorKind.storage)
unfolding load_lines after_round line_round
broken_loaded ends bad ls s n h = rw (h, n) refl

-- Opening a file fails with a storage error if it holds a header line, lines that read as
-- records of a known schema version, and behind them a line that does not read as a record and
-- that a newline ends, whatever follows.
pub load_state_corrupt :
    (l : Text) (ls : List Text) (rs : List AppendLogRecord) (bad rest : Text)
    → IsLine l (header append_log_magic)
    → AreLines ls rs
    → no_newline bad ≡ true
    → line_of (trim_ascii_whitespace bad) ≡ broken
    → load_state (lines_text (l ∷ ls) (bad ++ (10 ∷ rest))) ≡ refused (plain ErrorKind.storage)
load_state_corrupt l ls rs bad rest h hs w b =
    let torn = bad ++ (10 ∷ rest) in
    let ends = ends_with_newline (lines_text (l ∷ ls) torn) in
    let (t, e, f) = lines_loaded ls rs torn ends with_header with_header-Inv hs in
    by_lines l (lines_text ls torn)
    ∙ ap (λ x. load_lines ends false default x) (split-line l (lines_text ls torn) h.whole)
    ∙ header_loaded ends l (split 10 (lines_text ls torn)) h
    ∙ f
    ∙ ap (λ x. load_lines ends true t x) (split-line bad rest w)
    ∙ broken_loaded ends bad (split 10 rest) t (not_last rest) b
