-- ===== src/Query/History.antt =====
-- `facts_at` of crates/core/src/storage_append_log.rs: the search of the version chain for its bound,
-- and the rows that the loop returns.
use mathlib.Core.List.{reverse-cons, append-nil}
use kronroe.Common.{
  ℕ, Bool, false, ◌||◌, ◌≡◌, refl, sym, ap, ◌∙◌, Option, none, some, List, [], ◌∷◌, ◌++◌, reverse,
  arith, if◌then◌else◌, inl, inr, Option-cases, Bool-cases, All, keep, take, ltb,
}
use kronroe.Common.Int.{ℤ, ◌≤ℤ◌, leb_ℤ}
use kronroe.Common.Text.{Text, text_eq_iff}
use kronroe.Common.Map
use kronroe.Common.Map.{Map}
use kronroe.Common.Set.{member}
use kronroe.Time.{KronroeTimestamp, not_after}
use kronroe.Fact.{Fact, was_valid_at}
use kronroe.Storage.{StoredFactRow, subject_predicate_prefix}
use kronroe.Log.{AppendLogState, chain_of}
use kronroe.Log.Versions.{Chain, upper_bound, Ordered, start, count}
use kronroe.Log.Invariant.{Inv}
use kronroe.Query.{rows_of, facts_at, valid_rows}
use kronroe.Query.Rows.{row_at, expected}

late_rows :
    (facts : Map Fact) (at : KronroeTimestamp) (low : ℤ) (chain : Chain)
    → All (λ j. low ≤ℤ start facts j) chain
    → leb_ℤ low at.unix_micros ≡ false
    → valid_rows facts at chain ≡ []
unfolding valid_rows was_valid_at
late_rows facts at low [] a n = refl
late_rows facts at low (k ∷ chain) a n = elim (Option-cases (Map.get k facts)) [
  | inl e ↦ rw (e, valid_rows) (late_rows facts at low chain a.1 n)
  | inr (fact, e) ↦
      let late : was_valid_at fact at ≡ false = ground (arith, a.0, e) in
      rw (e, valid_rows, late) (late_rows facts at low chain a.1 n)
]

-- The keys past the bound of the search have no valid row.
valid_rows-take :
    (facts : Map Fact) (at : KronroeTimestamp) (chain : Chain)
    → Ordered facts chain
    → valid_rows facts at (take (upper_bound facts at chain) chain) ≡ valid_rows facts at chain
unfolding valid_rows upper_bound
valid_rows-take facts at [] o = refl
valid_rows-take facts at (k ∷ chain) o = elim (Option-cases (Map.get k facts)) [
  | inl e ↦ absurd (ground (arith, o.0))
  | inr (fact, e) ↦ elim (Bool-cases (not_after fact.valid_from at)) [
    | inl early ↦
        rw (e, early, upper_bound, valid_rows) (rw (e, valid_rows-take facts at chain o.2))
    | inr late ↦
        let none_early : upper_bound facts at (k ∷ chain) ≡ 0 = rw (e, upper_bound, late) in
        ap (λ (n : ℕ). valid_rows facts at (take n (k ∷ chain))) none_early
        ∙ sym (
            late_rows facts at (start facts k) (k ∷ chain) (omega arith, o.1)
              (ground (arith, e, late)))
  ]
]

-- The loop, as a filter of the rows.
abbrev pub valid : KronroeTimestamp → List StoredFactRow → List StoredFactRow
valid at = keep (λ row. was_valid_at row.fact at)

valid_rows-eq-valid :
    (facts : Map Fact) (at : KronroeTimestamp) (keys : List Text)
    → valid_rows facts at keys ≡ valid at (rows_of facts keys)
unfolding valid_rows rows_of
valid_rows-eq-valid facts at [] = refl
valid_rows-eq-valid facts at (k ∷ keys) = elim (Option-cases (Map.get k facts)) [
  | inl e ↦ rw (e, valid_rows, rows_of) (valid_rows-eq-valid facts at keys)
  | inr (fact, e) ↦ rw (e, valid_rows, rows_of) (ground (arith, valid_rows-eq-valid facts at keys))
]

keep-append {ℓ} :
    {A : Type ℓ} (test : A → Bool) (xs ys : List A)
    → keep test (xs ++ ys) ≡ keep test xs ++ keep test ys
keep-append test [] ys = refl
keep-append test (x ∷ xs) ys = ground (arith, keep-append test xs ys)

keep-reverse {ℓ} :
    {A : Type ℓ} (test : A → Bool) (xs : List A) → keep test (reverse xs) ≡ reverse (keep test xs)
keep-reverse test [] = refl
keep-reverse test (x ∷ xs) =
    rw (reverse-cons x xs, keep-append test (reverse xs) (x ∷ []), keep-reverse test xs)
      (ground (arith, reverse-cons x (keep test xs), append-nil (reverse (keep test xs))))

rows_of-append :
    (facts : Map Fact) (xs ys : List Text)
    → rows_of facts (xs ++ ys) ≡ rows_of facts xs ++ rows_of facts ys
unfolding rows_of
rows_of-append facts [] ys = refl
rows_of-append facts (x ∷ xs) ys = ground (arith, rows_of-append facts xs ys)

rows_of-reverse :
    (facts : Map Fact) (xs : List Text) → rows_of facts (reverse xs) ≡ reverse (rows_of facts xs)
rows_of-reverse facts [] = unfold rows_of in refl
rows_of-reverse facts (x ∷ xs) =
    rw (reverse-cons x xs, rows_of-append facts (reverse xs) (x ∷ []), rows_of-reverse facts xs)
      (last (Map.get x facts) refl)
  where
    last :
        (o : Option Fact)
        → Map.get x facts ≡ o
        → reverse (rows_of facts xs) ++ rows_of facts (x ∷ []) ≡ reverse (rows_of facts (x ∷ xs))
    last none e = unfold rows_of in rw (e, rows_of) (append-nil (reverse (rows_of facts xs)))
    last (some fact) e =
        unfold rows_of in
        rw (e, rows_of) (sym (reverse-cons (record { key = x; fact = fact }) (rows_of facts xs)))

chain_rows :
    (facts : Map Fact) (at : KronroeTimestamp) (chain : Chain)
    → Ordered facts chain
    → valid_rows facts at (reverse (take (upper_bound facts at chain) chain))
      ≡ reverse (valid at (rows_of facts chain))
chain_rows facts at chain o =
    valid_rows-eq-valid facts at (reverse early)
    ∙ ap (valid at) (rows_of-reverse facts early)
    ∙ keep-reverse (λ (row : StoredFactRow). was_valid_at row.fact at) (rows_of facts early)
    ∙ ap reverse (
        sym (valid_rows-eq-valid facts at early)
        ∙ valid_rows-take facts at chain o
        ∙ valid_rows-eq-valid facts at chain)
  where
    early : Chain
    early = take (upper_bound facts at chain) chain

-- In a state with exact indexes, the rows of facts_at are those of the whole version chain that
-- are valid at the moment, in the reverse of the order of valid_from: the search for the bound
-- drops no valid row.
pub facts_at_lem :
    (subject predicate : Text) (at : KronroeTimestamp) (s : AppendLogState)
    → Inv s
    → (facts_at subject predicate at s).0
      ≡ reverse (
          valid at (
            rows_of s.facts (
              chain_of
                (subject_predicate_prefix subject predicate)
                s.version_chain_by_subject_predicate)))
unfolding facts_at
facts_at_lem subject predicate at s h =
    elim (Option-cases (Map.get prefix s.version_chain_by_subject_predicate)) [
      | inl e ↦ rw (e, facts_at) (unfold rows_of in refl)
      | inr (chain, e) ↦
          rw (e, facts_at) (chain_rows s.facts at chain (rw e at (h.chains.ordered prefix)))
    ]
  where
    prefix : Text
    prefix = subject_predicate_prefix subject predicate

row_at-valid :
    (at : KronroeTimestamp) (facts : Map Fact) (keys : List Text) (key : Text)
    → row_at key (valid at (rows_of facts keys)) ≡ (
        if member key keys
        then elim (Map.get key facts) [
          | none ↦ none
          | some fact ↦ if was_valid_at fact at then some fact else none
        ]
        else none)
unfolding rows_of member
row_at-valid at facts [] key = refl
row_at-valid at facts (k ∷ keys) key = elim (Option-cases (Map.get k facts)) [
  | inl e ↦ rw (e, rows_of) (ground (arith, text_eq_iff k key, row_at-valid at facts keys key, e))
  | inr (fact, e) ↦
      rw (e, rows_of) (ground (arith, text_eq_iff k key, row_at-valid at facts keys key, e))
]

member-append :
    (key : Text) (xs ys : List Text) → member key (xs ++ ys) ≡ (member key xs || member key ys)
unfolding member
member-append key [] ys = refl
member-append key (x ∷ xs) ys = ground (arith, member-append key xs ys)

member-reverse : (key : Text) (xs : List Text) → member key (reverse xs) ≡ member key xs
member-reverse key [] = refl
member-reverse key (x ∷ xs) =
    rw (reverse-cons x xs, member-append key (reverse xs) (x ∷ []), member-reverse key xs)
      (unfold member in ground arith)

member-count : (key : Text) (chain : Chain) → member key chain ≡ ltb 0 (count key chain)
unfolding member count
member-count key [] = refl
member-count key (x ∷ chain) = ground (arith, member-count key chain)

-- In a state with exact indexes, facts_at of a subject and predicate at a moment has under every
-- key the row of the fact table if that row is of this prefix and valid at the moment, and no
-- row otherwise.
pub facts_at_exact :
    (subject predicate : Text) (at : KronroeTimestamp) (s : AppendLogState) (key : Text)
    → Inv s
    → row_at key (facts_at subject predicate at s).0
      ≡ expected
          (λ fact. was_valid_at fact at)
          (subject_predicate_prefix subject predicate)
          (Map.get key s.facts)
facts_at_exact subject predicate at s key h =
    ap (row_at key) (facts_at_lem subject predicate at s h ∙ sym turned)
    ∙ row_at-valid at s.facts (reverse chain) key
    ∙ ground (arith, member-reverse key chain, member-count key chain, h.chains.exact prefix key)
  where
    prefix : Text
    prefix = subject_predicate_prefix subject predicate

    chain : Chain
    chain = chain_of prefix s.version_chain_by_subject_predicate

    turned : valid at (rows_of s.facts (reverse chain)) ≡ reverse (valid at (rows_of s.facts chain))
    turned =
        ap (valid at) (rows_of-reverse s.facts chain)
        ∙ keep-reverse (λ (row : StoredFactRow). was_valid_at row.fact at) (rows_of s.facts chain)
