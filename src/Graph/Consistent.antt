-- ===== src/Graph/Consistent.antt =====
-- `assert_fact_checked` of crates/core/src/temporal_graph.rs under the policy `Reject`, and the
-- active facts of a singleton predicate.
use mathlib.Core.Path.{subst}
use kronroe.Common.{
  ℕ, is_some, true, false, ◌≡◌, ◌≢◌, refl, sym, ◌∙◌, none, some, List, [], ◌∷◌, arith,
  if◌then◌else◌, inl, inr, Bool-cases,
}
use kronroe.Common.Text.{Text, text_eq, text_eq_iff}
use kronroe.Common.Map
use kronroe.Common.Map.{Map, get-insert}
use kronroe.Time.{KronroeTimestamp, max_timestamp, before, not_after}
use kronroe.FactId.{FactId}
use kronroe.Fact.{Fact, Value, with_confidence, one_f32}
use kronroe.Fact
use kronroe.Contradiction.{
  Contradiction, reject, is_singleton, policy_for, check_against, conflicts_with, detect_pairwise,
  values_conflict,
}
use kronroe.Contradiction.Overlap.{covers}
use kronroe.Contradiction.Pairwise.{detect_pairwise_complete, values_conflict_comm}
use kronroe.Error.{fail, ErrorKind, Result, ok}
use kronroe.Storage.{subject_predicate_prefix, fact_row_key}
use kronroe.Log.{AppendLogState, apply_record}
use kronroe.Log.Invariant.{Inv}
use kronroe.Query.{active_facts}
use kronroe.Backend.{AppendOutcome, write_fact_with_contradiction_check}
use kronroe.Backend.Writes.{upsert_kept}
use kronroe.Graph.{TemporalGraph, on_storage}
use kronroe.Graph.Singletons.{assert_fact_checked, is_allow, is_reject}
use kronroe.Graph.Replies.{build_fact_default, on_storage_cases}
use kronroe.Graph.Checked.{conflicts_with_nil, All-active, checked_ok, checked_err}

-- Two rows with the subject and predicate, of unexpired facts, whose windows share a moment before
-- the last timestamp, have values that do not conflict.
abbrev pub Agree : Text → Text → Fact → Fact → Type 0
Agree subject predicate f g =
    (t : KronroeTimestamp)
    → f.expired_at ≡ none
    → g.expired_at ≡ none
    → f.subject ≡ subject
    → g.subject ≡ subject
    → f.predicate ≡ predicate
    → g.predicate ≡ predicate
    → before t max_timestamp ≡ true
    → covers f t ≡ true
    → covers g t ≡ true
    → values_conflict f.object g.object ≡ false

-- The rows of a subject and predicate agree with one another.
abbrev pub Consistent : Text → Text → Map Fact → Type 0
Consistent subject predicate facts =
    (j k : Text) (f g : Fact)
    → Map.get j facts ≡ some f
    → Map.get k facts ≡ some g
    → j ≢ k
    → Agree subject predicate f g

Agree-comm : (s p : Text) (f g : Fact) → Agree s p f g → Agree s p g f
Agree-comm s p f g h t ef eg sf sg pf pg b cf cg =
    values_conflict_comm g.object f.object ∙ h t eg ef sg sf pg pf b cg cf

Consistent-insert :
    (subject predicate key : Text) (fact : Fact) (facts facts' : Map Fact)
    → ((k : Text) → Map.get k facts' ≡ (if text_eq key k then some fact else Map.get k facts))
    → Consistent subject predicate facts
    → ((k : Text) (f : Fact) → Map.get k facts ≡ some f → Agree subject predicate f fact)
    → Consistent subject predicate facts'
Consistent-insert subject predicate key fact facts facts' at h new j k f g ej ek ne =
    elim (Bool-cases (text_eq key j)) [
      | inl hj ↦ elim (Bool-cases (text_eq key k)) [
        | inl hk ↦ absurd (ne (ground (arith, text_eq_iff key j, text_eq_iff key k, hj, hk)))
        | inr hk ↦
            let old : Map.get k facts ≡ some g = ground (arith, at k, hk, ek) in
            let same : fact ≡ f = ground (arith, at j, hj, ej) in
            subst (λ x. Agree subject predicate x g) same
              (Agree-comm subject predicate g fact (new k g old))
      ]
      | inr hj ↦ elim (Bool-cases (text_eq key k)) [
        | inl hk ↦
            let old : Map.get j facts ≡ some f = ground (arith, at j, hj, ej) in
            let same : fact ≡ g = ground (arith, at k, hk, ek) in
            subst (λ x. Agree subject predicate f x) same (new j f old)
        | inr hk ↦ h j k f g (ground (arith, at j, hj, ej)) (ground (arith, at k, hk, ek)) ne
      ]
    ]

-- A fact that no stored active fact conflicts with agrees with all of them.
compared-Agree :
    (s : AppendLogState) (subject predicate : Text) (new_fact : Fact)
    → Inv s
    → conflicts_with new_fact (active_facts (subject_predicate_prefix subject predicate) s) ≡ []
    → (k : Text) (f : Fact) → Map.get k s.facts ≡ some f
    → Agree subject predicate f new_fact
compared-Agree s subject predicate new_fact h e k f ek t ef eg sf sg pf pg b cf cg =
    elim (Bool-cases (values_conflict f.object new_fact.object)) [
      | inl c ↦
          let quiet : detect_pairwise f new_fact ≡ none =
            All-active (λ x. detect_pairwise x new_fact ≡ none) s subject predicate k f h
              (conflicts_with_nil new_fact _ e) ek ef sf pf in
          absurd (
            ground (
              arith,
              detect_pairwise_complete f new_fact t ef eg (sf ∙ sym sg) (pf ∙ sym pg) c b cf cg,
              quiet,
            ))
      | inr c ↦ c
    ]

module _ (io : AppendOutcome) (id : FactId) (now : KronroeTimestamp) (subject predicate : Text)
    (object : Value) (valid_from : KronroeTimestamp) (g : TemporalGraph)
    (rejects : policy_for g.contradiction_detector predicate ≡ reject)
    (single : is_singleton g.contradiction_detector predicate ≡ true) where
  abbrev asserted : Fact
  asserted = Fact.new id now subject predicate object valid_from

  may_refuse :
      (is_allow (policy_for g.contradiction_detector predicate) ≡ false)
      × (is_reject (policy_for g.contradiction_detector predicate) ≡ true)
  unfolding is_allow is_reject
  may_refuse = (rw rejects refl, rw rejects refl)

  checked_reply :
      assert_fact_checked io id now subject predicate object valid_from g
      ≡ on_storage g
          (λ (found : List Contradiction × ℕ). (id, found.0))
          (write_fact_with_contradiction_check io subject predicate asserted true
            (λ existing. ok (check_against g.contradiction_detector asserted existing))
            g.storage)
  unfolding assert_fact_checked Fact.new
  checked_reply =
      rw
        (
          single,
          may_refuse.0,
          build_fact_default id now subject predicate object valid_from,
          may_refuse.1,
        )
        refl

  compared :
      (existing : List Fact)
      → check_against g.contradiction_detector asserted existing ≡ conflicts_with asserted existing
  unfolding check_against Fact.new
  compared existing = rw single refl

  -- If the predicate is a singleton whose policy is Reject, the indexes are exact, and the
  -- unexpired rows of the subject and predicate under distinct keys do not conflict at any
  -- shared moment before the last timestamp, then the same holds of the rows after
  -- assert_fact_checked, whatever it returns.
  pub assert_fact_checked-Consistent :
      (g' : TemporalGraph) (res : Result (FactId × List Contradiction))
      → Inv g.storage.state
      → Consistent subject predicate g.storage.state.facts
      → assert_fact_checked io id now subject predicate object valid_from g ≡ some (g', res)
      → Consistent subject predicate g'.storage.state.facts
  unfolding apply_record
  assert_fact_checked-Consistent g' res h c e =
      elim (on_storage_cases g g' _ _ res (sym checked_reply ∙ e)) [
        | inl (cs, stored) ↦
            let (quiet, applied) =
              checked_ok io subject predicate asserted g.contradiction_detector g.storage g'.storage
                cs stored in
            Consistent-insert subject predicate
              (fact_row_key asserted.subject asserted.predicate asserted.id) asserted
              g.storage.state.facts g'.storage.state.facts
              (λ k.
                upsert_kept (fact_row_key asserted.subject asserted.predicate asserted.id) asserted
                  g.storage.state g'.storage.state k applied)
              c
              (compared-Agree g.storage.state subject predicate asserted h
                (sym (compared _) ∙ quiet))
        | inr (x, failed) ↦
            subst (λ (s : AppendLogState). Consistent subject predicate s.facts)
              (sym (
                checked_err io subject predicate asserted g.contradiction_detector g.storage
                  g'.storage x failed))
              c
      ]

  -- If the predicate is a singleton whose policy is Reject, the indexes are exact, and a stored
  -- unexpired fact of the subject and predicate has a conflicting value at a moment before the
  -- last timestamp that both windows cover, then assert_fact_checked fails with a non-empty list
  -- of contradictions and leaves the graph as it is.
  pub assert_fact_checked_refuses :
      (k : Text) (f : Fact) (t : KronroeTimestamp)
      → Inv g.storage.state
      → Map.get k g.storage.state.facts ≡ some f
      → f.expired_at ≡ none
      → f.subject ≡ subject
      → f.predicate ≡ predicate
      → before t max_timestamp ≡ true
      → covers f t ≡ true
      → not_after valid_from t ≡ true
      → values_conflict f.object object ≡ true
      → (c : Contradiction) × (cs : List Contradiction) × (assert_fact_checked io id now subject
            predicate object valid_from g
          ≡ some (g, fail (ErrorKind.contradiction_rejected (c ∷ cs))))
  unfolding write_fact_with_contradiction_check
  assert_fact_checked_refuses k f t h ek ef sf pf b cf late conflict =
      refused (check_against g.contradiction_detector asserted existing) refl
    where
      existing : List Fact
      existing = active_facts (subject_predicate_prefix subject predicate) g.storage.state

      unreported : detect_pairwise f asserted ≢ none
      unreported n =
          let reported : is_some (detect_pairwise f asserted) ≡ true =
            detect_pairwise_complete f asserted t ef (unfold Fact.new in refl)
              (sf ∙ (unfold Fact.new in refl)) (pf ∙ (unfold Fact.new in refl))
              (unfold Fact.new in conflict) b cf (unfold Fact.new in ground (arith, late)) in
          ground (arith, reported, n)

      refused :
          (found : List Contradiction)
          → check_against g.contradiction_detector asserted existing ≡ found
          → (c : Contradiction) × (cs : List Contradiction) × (assert_fact_checked io id now subject
                predicate object valid_from g
              ≡ some (g, fail (ErrorKind.contradiction_rejected (c ∷ cs))))
      refused [] e = absurd (
          unreported (
            All-active (λ x. detect_pairwise x asserted ≡ none) g.storage.state subject predicate k
              f h (conflicts_with_nil asserted existing (sym (compared existing) ∙ e)) ek ef sf pf))
      refused (c ∷ cs) e = (c, cs, checked_reply ∙ rw (e, write_fact_with_contradiction_check) refl)
