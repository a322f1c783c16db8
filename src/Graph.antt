-- ===== src/Graph.antt =====
-- crates/core/src/temporal_graph.rs, `TemporalGraph`: the operations over the backend and the
-- contradiction detector. An operation that stores a new fact is given the id that the generator
-- returns and the time that the clock reads. The detector's lock is not poisoned. `none` is a panic.
pub mod Invalidation
pub mod Correction
pub mod Singletons
pub mod Replies
pub mod Checked
pub mod Consistent
pub mod Embeddings
pub mod Weighed
pub mod AllPairs
use kronroe.Common.{
  ℕ, Bool, true, false, not, ◌&&◌, ◌||◌, Option, none, some, List, [], ◌∷◌, ◌++◌, is_none,
  if◌then◌else◌, is_empty, keep,
}
use kronroe.Common.Text.{Text, codes}
use kronroe.Float.{f32, is_finite, clamp}
use kronroe.Time.{KronroeTimestamp}
use kronroe.FactId.{FactId, Parsed, parse}
use kronroe.FactId
use kronroe.Fact.{Value, Fact, with_confidence, with_source, invalidate, zero_f32, one_f32}
use kronroe.Fact
use kronroe.Contradiction.{
  Contradiction, ContradictionDetector, ConflictPolicy, allow, warn, reject, singleton, register,
  is_singleton, policy_for, check_against, detect_pairwise,
}
use kronroe.Contradiction.Registry.{encode_predicate_registry}
use kronroe.Error.{Result, ok, err, fail, ErrorKind}
use kronroe.Storage.{StoredFactRow, subject_predicate_prefix}
use kronroe.Query
use kronroe.Query.{facts_of, scan_facts, get_idempotency}
use kronroe.Backend.{
  AppendLogBackend, AppendOutcome, write_fact, replace_fact_row, write_predicate_registry_entry,
  write_fact_and_idempotency, write_fact_with_contradiction_check,
}
use kronroe.Backend

pub record TemporalGraph : Type 0 where
  pub storage : AppendLogBackend
  pub contradiction_detector : ContradictionDetector

-- The graph after an operation, and what the operation returns.
abbrev pub Reply {ℓ} : Type ℓ → Type ℓ
Reply A = Option (TemporalGraph × Result A)

-- A reply of the storage as one of the graph, its value changed.
abbrev pub on_storage {ℓ κ} :
    {A : Type ℓ} {B : Type κ} → TemporalGraph → (A → B) → Backend.Reply A → Reply B
on_storage g f none = none
on_storage g f (some (b, ok a)) = some (record g { storage = b }, ok (f a))
on_storage g f (some (b, err e)) = some (record g { storage = b }, err e)

with_source_given : Option Text → Fact → Fact
with_source_given none fact = fact
with_source_given (some src) fact = with_source fact src

unfoldable pub build_fact :
    FactId
    → KronroeTimestamp
    → Text
    → Text
    → Value
    → KronroeTimestamp
    → ℕ
    → Option Text
    → Result Fact
unfolding with_source_given
build_fact id now subject predicate object valid_from confidence source =
    if is_finite f32 confidence
    then ok (
        with_source_given source (
          with_confidence (Fact.new id now subject predicate object valid_from)
            (clamp f32 zero_f32 one_f32 confidence)))
    else fail ErrorKind.search

resolved : Parsed FactId → Result FactId
resolved (FactId.ok id) = ok id
resolved (FactId.err e) = fail ErrorKind.invalid_fact_id

unfoldable pub resolve_fact_id_input : Text → Result FactId
unfolding resolved
resolve_fact_id_input fact_id = resolved (parse fact_id)

-- The facts that `build_fact` refuses are not stored.
stored : AppendOutcome → Result Fact → TemporalGraph → Reply FactId
stored io (err e) g = some (g, err e)
stored io (ok fact) g = on_storage g (λ (u : Unit {0}). fact.id) (write_fact io fact g.storage)

unfoldable pub assert_fact :
    AppendOutcome
    → FactId
    → KronroeTimestamp
    → Text
    → Text
    → Value
    → KronroeTimestamp
    → TemporalGraph
    → Reply FactId
unfolding stored
assert_fact io id now subject predicate object valid_from =
    stored io (build_fact id now subject predicate object valid_from one_f32 none)

unfoldable pub assert_fact_with_confidence :
    AppendOutcome
    → FactId
    → KronroeTimestamp
    → Text
    → Text
    → Value
    → KronroeTimestamp
    → ℕ
    → TemporalGraph
    → Reply FactId
unfolding stored
assert_fact_with_confidence io id now subject predicate object valid_from confidence =
    stored io (build_fact id now subject predicate object valid_from confidence none)

unfoldable pub assert_fact_with_source :
    AppendOutcome
    → FactId
    → KronroeTimestamp
    → Text
    → Text
    → Value
    → KronroeTimestamp
    → ℕ
    → Text
    → TemporalGraph
    → Reply FactId
unfolding stored
assert_fact_with_source io id now subject predicate object valid_from confidence source =
    stored io (build_fact id now subject predicate object valid_from confidence (some source))

unfoldable pub assert_fact_idempotent :
    AppendOutcome
    → FactId
    → KronroeTimestamp
    → Text
    → Text
    → Text
    → Value
    → KronroeTimestamp
    → TemporalGraph
    → Reply FactId
assert_fact_idempotent io id now idempotency_key subject predicate object valid_from g =
    elim (get_idempotency idempotency_key g.storage.state) [
      | err e ↦ some (g, err e)
      | ok (some existing_id) ↦ some (g, ok existing_id)
      | ok none ↦ elim (build_fact id now subject predicate object valid_from one_f32 none) [
        | err e ↦ some (g, err e)
        | ok fact ↦
            on_storage g (λ (i : FactId). i)
              (write_fact_and_idempotency io idempotency_key fact g.storage)
      ]
    ]

unfoldable pub current_facts : Text → Text → TemporalGraph → List Fact
current_facts subject predicate g =
    facts_of (Query.current_facts subject predicate g.storage.state).0

unfoldable pub facts_at : Text → Text → KronroeTimestamp → TemporalGraph → List Fact
facts_at subject predicate at g = facts_of (Query.facts_at subject predicate at g.storage.state).0

unfoldable pub scan_prefix : Text → (Fact → Bool) → TemporalGraph → List Fact
scan_prefix prefix test g = keep test (facts_of (scan_facts prefix g.storage.state).0)

unfoldable pub all_facts_about : Text → TemporalGraph → List Fact
unfolding scan_prefix
all_facts_about subject = scan_prefix (subject ++ codes ":") (λ fact. true)

unfoldable pub row_found : Option StoredFactRow → Result StoredFactRow
row_found none = fail ErrorKind.not_found
row_found (some row) = ok row

-- The row of the id that a text stands for.
unfoldable pub row_of_input : Text → TemporalGraph → Result StoredFactRow
unfolding row_found
row_of_input fact_id g = elim (resolve_fact_id_input fact_id) [
  | err e ↦ err e
  | ok id ↦ row_found (Query.fact_by_id id g.storage.state).0
]

unfoldable pub fact_by_id : Text → TemporalGraph → Result Fact
fact_by_id fact_id g = elim (row_of_input fact_id g) [ err e ↦ err e | ok row ↦ ok row.fact ]

unfoldable pub invalidate_fact :
    AppendOutcome → Text → KronroeTimestamp → TemporalGraph → Reply (Unit {0})
invalidate_fact io fact_id at g = elim (row_of_input fact_id g) [
  | err e ↦ some (g, err e)
  | ok row ↦
      on_storage g (λ (u : Unit {0}). u)
        (replace_fact_row io row.key (invalidate row.fact at) g.storage)
]

-- Two appends: the invalidation, then the replacement.
unfoldable pub correct_fact :
    AppendOutcome
    → AppendOutcome
    → FactId
    → KronroeTimestamp
    → Text
    → Value
    → KronroeTimestamp
    → TemporalGraph
    → Reply FactId
correct_fact io io' id now fact_id new_value at g = elim (fact_by_id fact_id g) [
  | err e ↦ some (g, err e)
  | ok old ↦ elim (invalidate_fact io fact_id at g) [
    | none ↦ none
    | some (g', err e) ↦ some (g', err e)
    | some (g', ok _) ↦ assert_fact io' id now old.subject old.predicate new_value at g'
  ]
]
