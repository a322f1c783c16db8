-- ===== src/Graph/Checked.antt =====
-- The checked write of crates/core/src/storage_append_log.rs as `assert_fact_checked` uses it: what
-- it compares a new fact with, and what it leaves when it stores or refuses the fact.
use mathlib.Core.Path.{subst}
use kronroe.Common.{
  ℕ, true, ◌≡◌, refl, none, some, List, [], ◌∷◌, arith, is_empty, inl, inr, Option-cases,
  Bool-cases, All,
}
use kronroe.Common.Text.{Text, text_eq, text_eq_iff}
use kronroe.Common.Map
use kronroe.Common.Map.{Map, get-insert}
use kronroe.Common.Set.{member}
use kronroe.Fact.{Fact}
use kronroe.Contradiction.{
  Contradiction, ContradictionDetector, check_against, conflicts_with, detect_pairwise,
}
use kronroe.Error.{ok, err, KronroeError}
use kronroe.Storage.{subject_predicate_prefix, fact_row_key}
use kronroe.Log.{AppendLogState, upsert_fact, apply_record}
use kronroe.Log.Upsert.{belongs}
use kronroe.Log.Invariant.{Inv, unexpired}
use kronroe.Query.{rows_of, facts_of, active_facts}
use kronroe.Backend.{AppendLogBackend, AppendOutcome, write_fact_with_contradiction_check}
use kronroe.Backend.Writes.{commit_ok, commit_err}

pub conflicts_with_nil :
    (new_fact : Fact) (existing : List Fact)
    → conflicts_with new_fact existing ≡ []
    → All (λ e. detect_pairwise e new_fact ≡ none) existing
unfolding conflicts_with
conflicts_with_nil new_fact [] h = tt
conflicts_with_nil new_fact (e ∷ existing) h = elim (Option-cases (detect_pairwise e new_fact)) [
  | inl n ↦ (n, conflicts_with_nil new_fact existing (rw (n, conflicts_with) at h))
  | inr (c, p) ↦ absurd (cc (rw (p, conflicts_with) at h))
]

All-row :
    (P : Fact → Type 0) (facts : Map Fact) (keys : List Text) (key : Text) (fact : Fact)
    → All P (facts_of (rows_of facts keys))
    → member key keys ≡ true
    → Map.get key facts ≡ some fact
    → P fact
unfolding member rows_of facts_of
All-row P facts [] key fact a m e = absurd (cc m)
All-row P facts (k ∷ keys) key fact a m e = elim (Option-cases (Map.get k facts)) [
  | inl n ↦
      All-row P facts keys key fact (rw (n, rows_of) at a)
        (ground (arith, text_eq_iff k key, n, e, m)) e
  | inr (f, p) ↦
      let (here, there) : P f × All P (facts_of (rows_of facts keys)) = rw (p, rows_of) at a in
      elim (Bool-cases (text_eq k key)) [
        | inl same ↦ subst P (ground (arith, text_eq_iff k key, same, p, e)) here
        | inr other ↦ All-row P facts keys key fact there (ground (arith, other, m)) e
      ]
]

-- A stored active fact is among those that a checked write of its subject and predicate compares.
pub All-active :
    (P : Fact → Type 0) (s : AppendLogState) (subject predicate key : Text) (fact : Fact)
    → Inv s
    → All P (active_facts (subject_predicate_prefix subject predicate) s)
    → Map.get key s.facts ≡ some fact
    → fact.expired_at ≡ none
    → fact.subject ≡ subject
    → fact.predicate ≡ predicate
    → P fact
unfolding active_facts member
All-active P s subject predicate key fact h a e x es ep =
    elim (Option-cases (Map.get prefix s.active_facts_by_subject_predicate)) [
      | inl n ↦ absurd (ground (arith, h.active.exact prefix key, belongs_here, n))
      | inr (keys, p) ↦
          let indexed : member key keys ≡ true =
            ground (arith, h.active.exact prefix key, belongs_here, p) in
          let compared : All P (facts_of (rows_of s.facts keys)) = rw (p, active_facts) at a in
          All-row P s.facts keys key fact compared indexed e
    ]
  where
    prefix : Text
    prefix = subject_predicate_prefix subject predicate

    belongs_here : belongs unexpired prefix (Map.get key s.facts) ≡ true
    belongs_here =
        let same : subject_predicate_prefix fact.subject fact.predicate ≡ prefix =
          rw (es, ep) refl in
        ground (
          arith,
          e,
          x,
          same,
          text_eq_iff (subject_predicate_prefix fact.subject fact.predicate) prefix,
        )

-- A checked write that may refuse and does not finds no conflict, and applies its record.
pub checked_ok :
    (io : AppendOutcome) (subject predicate : Text) (fact : Fact) (det : ContradictionDetector)
    (b b' : AppendLogBackend) (cs : List Contradiction × ℕ)
    → write_fact_with_contradiction_check io subject predicate fact true
        (λ existing. ok (check_against det fact existing))
        b
      ≡ some (b', ok cs)
    → (check_against det fact (active_facts (subject_predicate_prefix subject predicate) b.state)
        ≡ [])
      × (apply_record b.state (upsert_fact (fact_row_key fact.subject fact.predicate fact.id) fact)
          ≡ some b'.state)
unfolding write_fact_with_contradiction_check
checked_ok io subject predicate fact det b b' cs e =
    found
      (check_against det fact (active_facts (subject_predicate_prefix subject predicate) b.state))
      refl
  where
    found :
        (found_cs : List Contradiction)
        → check_against det fact (active_facts (subject_predicate_prefix subject predicate) b.state)
          ≡ found_cs
        → (check_against det fact
              (active_facts (subject_predicate_prefix subject predicate) b.state)
            ≡ [])
          × (apply_record b.state
                (upsert_fact (fact_row_key fact.subject fact.predicate fact.id) fact)
              ≡ some b'.state)
    found [] p =
        (p, (commit_ok io _ _ cs b b' (rw (p, write_fact_with_contradiction_check) at e)).0)
    found (c ∷ rest) p = absurd (cc (rw (p, write_fact_with_contradiction_check) at e))

pub checked_err :
    (io : AppendOutcome) (subject predicate : Text) (fact : Fact) (det : ContradictionDetector)
    (b b' : AppendLogBackend) (x : KronroeError)
    → write_fact_with_contradiction_check io subject predicate fact true
        (λ existing. ok (check_against det fact existing))
        b
      ≡ some (b', err x)
    → b'.state ≡ b.state
unfolding write_fact_with_contradiction_check
checked_err io subject predicate fact det b b' x e =
    elim (Bool-cases (
      is_empty (
        check_against det fact
          (active_facts (subject_predicate_prefix subject predicate) b.state)))) [
            | inl n ↦ commit_err io _ _ b b' x (rw (n, write_fact_with_contradiction_check) at e)
            | inr n ↦ ground (arith, rw (n, write_fact_with_contradiction_check) at e)
          ]
