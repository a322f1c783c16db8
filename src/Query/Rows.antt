-- ===== src/Query/Rows.antt =====
-- `current_facts` and `scan_facts` of crates/core/src/storage_append_log.rs: the rows read
-- through an index and those of the fact table.
use kronroe.Common.{
  Bool, true, false, ◌≡◌, refl, ap, ◌∙◌, Option, none, some, List, [], ◌∷◌, arith, if◌then◌else◌,
  inl, inr, Option-cases,
}
use kronroe.Common.Text.{Text, text_eq, text_eq_iff}
use kronroe.Common.Map
use kronroe.Common.Map.{Map}
use kronroe.Common.Set.{member}
use kronroe.Fact.{Fact, is_currently_valid}
use kronroe.Storage.{StoredFactRow, subject_predicate_prefix}
use kronroe.Log.{AppendLogState}
use kronroe.Log.Upsert.{belongs}
use kronroe.Log.Invariant.{Inv, any}
use kronroe.Query.{rows_of, current_facts, scan_facts}

-- The fact that a list of rows has under a key.
abbrev pub row_at : Text → List StoredFactRow → Option Fact
row_at key [] = none
row_at key (row ∷ rows) = if text_eq row.key key then some row.fact else row_at key rows

-- The row of a key, if its fact passes a test and has a subject and predicate.
abbrev pub expected : (Fact → Bool) → Text → Option Fact → Option Fact
expected test prefix row = if belongs test prefix row then row else none

row_at-rows_of :
    (facts : Map Fact) (keys : List Text) (key : Text)
    → row_at key (rows_of facts keys) ≡ (if member key keys then Map.get key facts else none)
unfolding rows_of member
row_at-rows_of facts [] key = refl
row_at-rows_of facts (k ∷ keys) key = elim (Option-cases (Map.get k facts)) [
  | inl e ↦ rw (e, rows_of) (ground (arith, text_eq_iff k key, row_at-rows_of facts keys key))
  | inr (fact, e) ↦
      rw (e, rows_of) (ground (arith, text_eq_iff k key, row_at-rows_of facts keys key, e))
]

row_at-entry :
    (test : Fact → Bool) (s : AppendLogState) (prefix key : Text) (keys : List Text)
    → member key keys ≡ belongs test prefix (Map.get key s.facts)
    → row_at key (rows_of s.facts keys) ≡ expected test prefix (Map.get key s.facts)
row_at-entry test s prefix key keys h =
    row_at-rows_of s.facts keys key ∙ ap (λ (b : Bool). if b then Map.get key s.facts else none) h

-- In a state with exact indexes, current_facts of a subject and predicate has under every key
-- the row of the fact table if that row is of this prefix and currently valid, and no row
-- otherwise.
pub current_facts_exact :
    (subject predicate : Text) (s : AppendLogState) (key : Text)
    → Inv s
    → row_at key (current_facts subject predicate s).0
      ≡ expected is_currently_valid
          (subject_predicate_prefix subject predicate)
          (Map.get key s.facts)
unfolding current_facts
current_facts_exact subject predicate s key h =
    elim (Option-cases (Map.get prefix s.current_facts_by_subject_predicate)) [
      | inl e ↦ rw (e, current_facts) (ground (arith, h.current.exact prefix key, e, nothing key))
      | inr (keys, e) ↦
          rw (e, current_facts)
            (row_at-entry is_currently_valid s prefix key keys
              (rw e at (h.current.exact prefix key)))
    ]
  where
    prefix : Text
    prefix = subject_predicate_prefix subject predicate

    nothing : (k : Text) → member k [] ≡ false
    nothing k = unfold member in refl

-- In a state with exact indexes that has a row of the subject and predicate, scan_facts of their
-- prefix has under every key the row of the table if it is of this prefix, and no row otherwise.
pub scan_facts_exact :
    (subject predicate : Text) (s : AppendLogState) (key witness : Text)
    → Inv s
    → belongs any (subject_predicate_prefix subject predicate) (Map.get witness s.facts) ≡ true
    → row_at key (scan_facts (subject_predicate_prefix subject predicate) s).0
      ≡ expected any (subject_predicate_prefix subject predicate) (Map.get key s.facts)
unfolding scan_facts
scan_facts_exact subject predicate s key witness h w =
    elim (Option-cases (Map.get prefix s.facts_by_subject_predicate)) [
      | inl e ↦ absurd (ground (arith, h.all.exact prefix witness, e, w, nothing witness))
      | inr (keys, e) ↦
          rw (e, scan_facts) (row_at-entry any s prefix key keys (rw e at (h.all.exact prefix key)))
    ]
  where
    prefix : Text
    prefix = subject_predicate_prefix subject predicate

    nothing : (k : Text) → member k [] ≡ false
    nothing k = unfold member in refl
