-- ===== src/Graph/AllPairs/Exact.antt =====
-- crates/core/src/temporal_graph.rs: the contradictions of a graph, against its fact table.
use mathlib.Core.List.{Perm}
use mathlib.Core.Path.{subst}
use kronroe.Common.{
  ◌≡◌, refl, ◌∙◌, sym, ap, Bool, true, false, ◌&&◌, Option, none, some, List, [], ◌∷◌, ◌++◌, All,
  is_none, is_empty, keep, if◌then◌else◌, Bool-cases, Option-cases, inl, inr, arith,
}
use kronroe.Common.Map
use kronroe.Common.Map.{Map}
use kronroe.Common.Set
use kronroe.Common.Text.{Text, text_eq, text_eq_iff, starts_with}
use kronroe.Fact.{Fact}
use kronroe.Storage.{subject_predicate_prefix}
use kronroe.Log.{AppendLogState}
use kronroe.Log.Upsert.{belongs}
use kronroe.Log.Invariant.{Inv, any}
use kronroe.Contradiction.{Contradiction, detect_pairwise, singleton_predicates}
use kronroe.Query.{facts_of, scan_facts, rows_under}
use kronroe.Graph.{TemporalGraph, scan_prefix}
use kronroe.Graph.Singletons.{all_pairs, conflicts_after}
use kronroe.Graph.AllPairs.{contains_text, pairs_of_groups, grouped, detect_all_contradictions}
use kronroe.Graph.AllPairs.Complete.{reported, pairs-grouped}
use kronroe.Graph.AllPairs.Genuine.{IsConflict, IsActive, detect_all_contradictions-IsConflict}

module _ (test : Fact → Bool) where
  -- The conflicts of a fact with those rows of a table that pass a test.
  abbrev pub conflicts_with : Fact → Map Fact → List Contradiction
  conflicts_with a [] = []
  conflicts_with a ((key, b) ∷ facts) =
      (if test b then reported (detect_pairwise a b) else []) ++ conflicts_with a facts

  -- The conflicts of any two rows that pass it.
  abbrev pub table_conflicts : Map Fact → List Contradiction
  table_conflicts [] = []
  table_conflicts ((key, a) ∷ facts) =
      (if test a then conflicts_with a facts else []) ++ table_conflicts facts

abbrev pub is_active : List Text → Fact → Bool
is_active names f = is_none f.expired_at && contains_text f.predicate names

values : Map Fact → List Fact
values [] = []
values ((key, fact) ∷ facts) = fact ∷ values facts

rows_under-values :
    (facts : Map Fact) → facts_of (rows_under [] (λ fact. true) facts) ≡ values facts
unfolding rows_under facts_of values starts_with
rows_under-values [] = refl
rows_under-values ((key, fact) ∷ facts) = ap (λ fs. fact ∷ fs) (rows_under-values facts)

-- No row stands under the empty prefix.
no_prefix : (fact : Option Fact) → belongs any [] fact ≡ false
unfolding subject_predicate_prefix text_eq
no_prefix none = refl
no_prefix (some fact) = empty fact.subject
  where
    empty :
        (subject : Text)
        → (text_eq (subject_predicate_prefix subject fact.predicate) [] && any fact) ≡ false
    empty [] = refl
    empty (c ∷ cs) = refl

not_indexed : (s : AppendLogState) → Inv s → Map.get [] s.facts_by_subject_predicate ≡ none
unfolding Set.member
not_indexed s i = elim (Option-cases (Map.get [] s.facts_by_subject_predicate)) [
  | inl e ↦ e
  | inr ([], e) ↦ absurd (i.all.non_empty [] e)
  | inr (key ∷ keys, e) ↦
      absurd (
        ground (arith, e, i.all.exact [] key, no_prefix (Map.get key s.facts), text_eq_iff key key))
]

scanned : (s : AppendLogState) → Inv s → facts_of (scan_facts [] s).0 ≡ values s.facts
unfolding scan_facts
scanned s i = rw (not_indexed s i, scan_facts) (rows_under-values s.facts)

module _ (names : List Text) where
  -- The facts that the two filters leave.
  active : Map Fact → List Fact
  active facts =
      keep (λ (f : Fact). contains_text f.predicate names)
        (keep (λ (f : Fact). is_none f.expired_at) (values facts))

  active_cons :
      (key : Text) (f : Fact) (facts : Map Fact)
      → active ((key, f) ∷ facts) ≡ (if is_active names f then f ∷ active facts else active facts)
  unfolding active values
  active_cons key f facts = elim (Bool-cases (is_none f.expired_at)) [
    | inl e ↦ rw e refl
    | inr e ↦ rw e refl
  ]

  conflicts_after-active :
      (a : Fact) (facts : Map Fact)
      → conflicts_after a (active facts) ≡ conflicts_with (is_active names) a facts
  unfolding conflicts_after active values
  conflicts_after-active a [] = refl
  conflicts_after-active a ((key, b) ∷ facts) =
      ap (conflicts_after a) (active_cons key b facts)
      ∙ one (is_active names b) (conflicts_after-active a facts)
    where
      first :
          (found : Option Contradiction) (cs : List Contradiction)
          → (elim found [ none ↦ cs | some c ↦ c ∷ cs ]) ≡ reported found ++ cs
      first none cs = refl
      first (some c) cs = refl

      one :
          (t : Bool)
          → conflicts_after a (active facts) ≡ conflicts_with (is_active names) a facts
          → conflicts_after a (if t then b ∷ active facts else active facts)
            ≡ (if t then reported (detect_pairwise a b) else [])
              ++ conflicts_with (is_active names) a facts
      one true e =
          first (detect_pairwise a b) (conflicts_after a (active facts))
          ∙ ap (λ cs. reported (detect_pairwise a b) ++ cs) e
      one false e = e

  all_pairs-active :
      (facts : Map Fact) → all_pairs (active facts) ≡ table_conflicts (is_active names) facts
  unfolding all_pairs active values
  all_pairs-active [] = refl
  all_pairs-active ((key, a) ∷ facts) =
      ap all_pairs (active_cons key a facts) ∙ one (is_active names a) (all_pairs-active facts)
    where
      one :
          (t : Bool)
          → all_pairs (active facts) ≡ table_conflicts (is_active names) facts
          → all_pairs (if t then a ∷ active facts else active facts)
            ≡ (if t then conflicts_with (is_active names) a facts else [])
              ++ table_conflicts (is_active names) facts
      one true e =
          ap (λ cs. cs ++ all_pairs (active facts)) (conflicts_after-active a facts)
          ∙ ap (λ cs. conflicts_with (is_active names) a facts ++ cs) e
      one false e = e

nothing_kept : (fs : List Fact) → keep (λ (f : Fact). contains_text f.predicate []) fs ≡ []
unfolding contains_text
nothing_kept [] = refl
nothing_kept (f ∷ fs) = nothing_kept fs

-- Without a singleton predicate there is no pair.
none_named :
    (names : List Text) (fs : List Fact)
    → (let found =
          pairs_of_groups (grouped [] (keep (λ (f : Fact). contains_text f.predicate names) fs)) in
        (if is_empty names then [] else found) ≡ found)
unfolding pairs_of_groups grouped
none_named [] fs = sym (ap (λ gs. pairs_of_groups (grouped [] gs)) (nothing_kept fs))
none_named (n ∷ names) fs = refl

-- In a graph whose state has exact indexes, detect_all_contradictions returns, in some order,
-- exactly what detect_pairwise finds in any two rows of the fact table, the earlier row first,
-- whose facts have not expired and have a registered singleton for their predicate. Each
-- contradiction that it returns is that of two facts of the table of one subject and predicate.
pub detect_all_contradictions_exact :
    (g : TemporalGraph)
    → Inv g.storage.state
    → Perm (detect_all_contradictions g) (
        table_conflicts
          (is_active (singleton_predicates g.contradiction_detector))
          g.storage.state.facts)
      × All (IsConflict (IsActive g)) (detect_all_contradictions g)
unfolding detect_all_contradictions scan_prefix active
detect_all_contradictions_exact g i =
    let names = singleton_predicates g.contradiction_detector in
    let fs =
      keep (λ (f : Fact). is_none f.expired_at) (facts_of (scan_facts [] g.storage.state).0) in
    (
      subst (λ cs. Perm cs (table_conflicts (is_active names) g.storage.state.facts))
          (sym (none_named names fs))
          (subst (Perm _)
            (ap
                (λ vs. all_pairs (
                  keep (λ (f : Fact). contains_text f.predicate names)
                    (keep (λ (f : Fact). is_none f.expired_at) vs)))
                (scanned g.storage.state i)
              ∙ all_pairs-active names g.storage.state.facts)
            (pairs-grouped (keep (λ (f : Fact). contains_text f.predicate names) fs))),
      detect_all_contradictions-IsConflict g,
    )
