-- ===== src/Graph/AllPairs/Genuine.antt =====
-- crates/core/src/temporal_graph.rs: which contradictions `detect_all_contradictions` returns.
use kronroe.Common.{
  ◌&&◌, ◌⊎◌, Option-cases, ◌≡◌, refl, ◌∙◌, sym, Bool, true, false, Option, none, some, List, [],
  ◌∷◌, ◌++◌, All, is_none, is_empty, keep, if◌then◌else◌, Bool-cases, inl, inr, arith,
}
use kronroe.Common.Map
use kronroe.Common.Map.{Map}
use kronroe.Common.Text.{Text, text_eq, text_eq_iff, starts_with}
use kronroe.Fact.{Fact}
use kronroe.Contradiction.{Contradiction, detect_pairwise, singleton_predicates}
use kronroe.Log.{AppendLogState}
use kronroe.Query.{facts_of, scan_facts, rows_of, rows_under}
use kronroe.Graph.{TemporalGraph, scan_prefix}
use kronroe.Graph.Singletons.{all_pairs, conflicts_after}
use kronroe.Graph.AllPairs.{
  Group, is_of, push_fact, grouped, contains_text, pairs_of_groups, detect_all_contradictions,
}

module _ (P : Fact → Type 0) where
  -- Two facts of a subject and predicate, both with the property, that are in conflict.
  abbrev pub IsConflict : Contradiction → Type 0
  IsConflict c =
      (a : Fact) × (b : Fact) × P a
      × P b
      × (a.subject ≡ b.subject)
      × (a.predicate ≡ b.predicate)
      × (detect_pairwise a b ≡ some c)

  abbrev InGroup : Group → Fact → Type 0
  InGroup g f = P f × (f.subject ≡ g.subject) × (f.predicate ≡ g.predicate)

  abbrev IsGroup : Group → Type 0
  IsGroup g = All (InGroup g) g.facts

  All-append :
      {A : Type 0} (Q : A → Type 0) (xs ys : List A) → All Q xs → All Q ys → All Q (xs ++ ys)
  All-append Q [] ys h k = k
  All-append Q (x ∷ xs) ys h k = (h.0, All-append Q xs ys h.1 k)

  push_fact-IsGroup :
      (f : Fact) (gs : List Group) → P f → All IsGroup gs → All IsGroup (push_fact f gs)
  unfolding push_fact
  push_fact-IsGroup f [] p h = (((p, refl, refl), tt), tt)
  push_fact-IsGroup f (g ∷ gs) p h = elim (Bool-cases (is_of f g)) [
    | inl e ↦
        let s : f.subject ≡ g.subject = (text_eq_iff f.subject g.subject).0 (ground arith) in
        let q : f.predicate ≡ g.predicate =
          (text_eq_iff f.predicate g.predicate).0 (ground arith) in
        rw e (All-append (InGroup g) g.facts (f ∷ []) h.0 ((p, s, q), tt), h.1)
    | inr e ↦ rw e (h.0, push_fact-IsGroup f gs p h.1)
  ]

  grouped-IsGroup :
      (gs : List Group) (fs : List Fact) → All IsGroup gs → All P fs → All IsGroup (grouped gs fs)
  unfolding grouped
  grouped-IsGroup gs [] h k = h
  grouped-IsGroup gs (f ∷ fs) h k =
      grouped-IsGroup (push_fact f gs) fs (push_fact-IsGroup f gs k.0 h) k.1

  module _ (g : Group) where
    conflicts_after-IsConflict :
        (f : Fact) (fs : List Fact)
        → InGroup g f
        → All (InGroup g) fs
        → All IsConflict (conflicts_after f fs)
    unfolding conflicts_after
    conflicts_after-IsConflict f [] h hs = tt
    conflicts_after-IsConflict f (b ∷ fs) h hs =
        one (detect_pairwise f b) refl (conflicts_after-IsConflict f fs h hs.1)
      where
        one :
            (found : Option Contradiction)
            → detect_pairwise f b ≡ found
            → All IsConflict (conflicts_after f fs)
            → All IsConflict
                (elim found [ none ↦ conflicts_after f fs | some c ↦ c ∷ conflicts_after f fs ])
        one none e k = k
        one (some c) e k = ((f, b, h.0, hs.0.0, h.1 ∙ sym hs.0.1, h.2 ∙ sym hs.0.2, e), k)

    all_pairs-IsConflict : (fs : List Fact) → All (InGroup g) fs → All IsConflict (all_pairs fs)
    unfolding all_pairs
    all_pairs-IsConflict [] h = tt
    all_pairs-IsConflict (f ∷ fs) h =
        All-append IsConflict (conflicts_after f fs) (all_pairs fs)
          (conflicts_after-IsConflict f fs h.0 h.1) (all_pairs-IsConflict fs h.1)

  pairs-IsConflict : (gs : List Group) → All IsGroup gs → All IsConflict (pairs_of_groups gs)
  unfolding pairs_of_groups
  pairs-IsConflict [] h = tt
  pairs-IsConflict (g ∷ gs) h =
      All-append IsConflict (all_pairs g.facts) (pairs_of_groups gs)
        (all_pairs-IsConflict g g.facts h.0) (pairs-IsConflict gs h.1)

-- The fact stands in a row of the table.
abbrev pub IsStored : Map Fact → Fact → Type 0
IsStored [] f = ⊥
IsStored ((key, fact) ∷ facts) f = (f ≡ fact) ⊎ IsStored facts f

-- A stored fact of a singleton predicate that has not expired.
abbrev pub IsActive : TemporalGraph → Fact → Type 0
IsActive g f =
    IsStored g.storage.state.facts f
    × (contains_text f.predicate (singleton_predicates g.contradiction_detector) ≡ true)
    × (is_none f.expired_at ≡ true)

module _ (Q : Fact → Type 0) where
  kept :
      (test : Fact → Bool) (fs : List Fact)
      → All Q fs
      → All (λ f. Q f × (test f ≡ true)) (keep test fs)
  kept test [] h = tt
  kept test (f ∷ fs) h = elim (Bool-cases (test f)) [
    | inl e ↦ rw e ((h.0, e), kept test fs h.1)
    | inr e ↦ rw e (kept test fs h.1)
  ]

get-IsStored :
    (key : Text) (facts : Map Fact) (f : Fact) → Map.get key facts ≡ some f → IsStored facts f
unfolding Map.get
get-IsStored key [] f e = absurd (cc e)
get-IsStored key ((k, fact) ∷ facts) f e = elim (Bool-cases (text_eq k key)) [
  | inl t ↦ inl (ground (arith, t, e))
  | inr n ↦ inr (get-IsStored key facts f (ground (arith, n, e)))
]

rows_of-IsStored :
    (facts : Map Fact) (keys : List Text) → All (IsStored facts) (facts_of (rows_of facts keys))
unfolding rows_of facts_of
rows_of-IsStored facts [] = tt
rows_of-IsStored facts (key ∷ keys) = elim (Option-cases (Map.get key facts)) [
  | inl n ↦ rw (n, rows_of) (rows_of-IsStored facts keys)
  | inr (fact, e) ↦ rw (e, rows_of) (get-IsStored key facts fact e, rows_of-IsStored facts keys)
]

later-IsStored :
    (row : Text × Fact) (facts : Map Fact) (fs : List Fact)
    → All (IsStored facts) fs
    → All (IsStored (row ∷ facts)) fs
later-IsStored row facts [] h = tt
later-IsStored row facts (f ∷ fs) h = (inr h.0, later-IsStored row facts fs h.1)

rows_under-IsStored :
    (prefix : Text) (test : Fact → Bool) (facts : Map Fact)
    → All (IsStored facts) (facts_of (rows_under prefix test facts))
unfolding rows_under facts_of
rows_under-IsStored prefix test [] = tt
rows_under-IsStored prefix test ((key, fact) ∷ facts) =
    let rest =
      later-IsStored (key, fact) facts (facts_of (rows_under prefix test facts))
        (rows_under-IsStored prefix test facts) in
    elim (Bool-cases (starts_with prefix key && test fact)) [
      | inl e ↦ rw e (inl refl, rest)
      | inr e ↦ rw e rest
    ]

scan_facts-IsStored :
    (prefix : Text) (s : AppendLogState) → All (IsStored s.facts) (facts_of (scan_facts prefix s).0)
unfolding scan_facts
scan_facts-IsStored prefix s = elim (Option-cases (Map.get prefix s.facts_by_subject_predicate)) [
  | inl n ↦ rw (n, scan_facts) (rows_under-IsStored prefix (λ fact. true) s.facts)
  | inr (keys, e) ↦ rw (e, scan_facts) (rows_of-IsStored s.facts keys)
]

nothing_or :
    (Q : Contradiction → Type 0) (b : Bool) (cs : List Contradiction)
    → All Q cs
    → All Q (if b then [] else cs)
nothing_or Q true cs h = tt
nothing_or Q false cs h = h

All-map :
    {A : Type 0} (Q R : A → Type 0) (xs : List A) → ((x : A) → Q x → R x) → All Q xs → All R xs
All-map Q R [] f h = tt
All-map Q R (x ∷ xs) f h = (f x h.0, All-map Q R xs f h.1)

-- Every contradiction that is returned is that of two stored facts that are active.
pub detect_all_contradictions-IsConflict :
    (g : TemporalGraph) → All (IsConflict (IsActive g)) (detect_all_contradictions g)
unfolding detect_all_contradictions scan_prefix
detect_all_contradictions-IsConflict g =
    let names = singleton_predicates g.contradiction_detector in
    let stored = facts_of (scan_facts [] g.storage.state).0 in
    let active = keep (λ (f : Fact). is_none f.expired_at) stored in
    let single = keep (λ (f : Fact). contains_text f.predicate names) active in
    nothing_or (IsConflict (IsActive g)) (is_empty names) _ (
      pairs-IsConflict (IsActive g) _ (
        grouped-IsGroup (IsActive g) [] _ tt (
          All-map _ (IsActive g) single (λ f h. (h.0.0, h.1, h.0.1))
            (kept _ (λ (f : Fact). contains_text f.predicate names) active
              (kept (IsStored g.storage.state.facts) (λ (f : Fact). is_none f.expired_at) stored
                (scan_facts-IsStored [] g.storage.state))))))
