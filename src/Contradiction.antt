-- ===== src/Contradiction.antt =====
-- crates/core/src/contradiction.rs: pairwise detection of facts that conflict on a singleton
-- predicate, its severity and the suggested resolution, and the registry of predicates. The text
-- form of a registry entry is not modelled here.
pub mod Overlap
pub mod Pairwise
pub mod Registry
pub mod Decode
pub mod Reopen
use kronroe.Common.{
  ℕ, ◌+◌, Bool, true, false, not, ◌&&◌, ◌||◌, Option, none, some, List, [], ◌∷◌, ltb, if◌then◌else◌,
  is_some, unwrap_or,
}
use kronroe.Common.Int.{ℤ, pos, ltb_ℤ, pos_part, neg_part}
use kronroe.Common.Text.{Text, text_eq}
use kronroe.Common.Map
use kronroe.Common.Map.{Map}
use kronroe.Float.{f32, f64, lt, ge, abs, sub}
use kronroe.Time.{
  KronroeTimestamp, max_timestamp, before, not_after, same_time, earlier, later, since, num_days,
  num_seconds,
}
use kronroe.Fact.{Value, text, number, boolean, entity, Fact}

pub data PredicateCardinality : Type 0 where
  singleton multi_valued : PredicateCardinality

pub data ConflictSeverity : Type 0 where
  low medium high : ConflictSeverity

pub data ConflictPolicy : Type 0 where
  allow warn reject : ConflictPolicy

pub data SuggestedResolution : Type 0 where
  close_older_fact : Text → SuggestedResolution
  invalidate_older_fact : Text → SuggestedResolution
  reject_new_fact : SuggestedResolution
  manual_review : SuggestedResolution

pub record Contradiction : Type 0 where
  pub existing_fact_id : Text
  pub conflicting_fact_id : Text
  pub subject : Text
  pub predicate : Text
  pub overlap_start : KronroeTimestamp
  pub overlap_end : Option KronroeTimestamp
  pub severity : ConflictSeverity
  pub confidence_delta : ℕ
  pub suggested_resolution : SuggestedResolution

abbrev pub Window : Type 0
Window = KronroeTimestamp × Option KronroeTimestamp

-- The end of a valid-time window, an open one at the last timestamp.
abbrev pub end_of : Fact → KronroeTimestamp
end_of fact = unwrap_or fact.valid_to max_timestamp

unfoldable pub valid_time_overlap : Fact → Fact → Option Window
valid_time_overlap a b =
    if is_some a.expired_at || is_some b.expired_at
    then none
    else if before a.valid_from (end_of b) && before b.valid_from (end_of a)
    then (let min_end = earlier (end_of a) (end_of b) in
        some (
          later a.valid_from b.valid_from,
          if same_time min_end max_timestamp then none else some min_end,
        ))
    else none

-- f64::EPSILON
abbrev pub epsilon : ℕ
epsilon = 0x3cb0000000000000

abbrev pub bool_eq : Bool → Bool → Bool
bool_eq true b = b
bool_eq false b = not b

unfoldable pub values_conflict : Value → Value → Bool
values_conflict (text x) (text y) = not (text_eq x y)
values_conflict (number x) (number y) = lt f64 epsilon (abs f64 (sub f64 x y))
values_conflict (boolean x) (boolean y) = not (bool_eq x y)
values_conflict (entity x) (entity y) = not (text_eq x y)
values_conflict _ _ = true

-- One window holds the other.
abbrev pub contains : Fact → Fact → Bool
contains a b = not_after a.valid_from b.valid_from && not_after (end_of b) (end_of a)

overlap_days : Window → ℤ
overlap_days (start, none) = pos 365
overlap_days (start, some e) = num_days (since e start)

unfoldable pub compute_severity : Fact → Fact → Window → ConflictSeverity
unfolding overlap_days
compute_severity a b overlap =
    if contains a b || contains b a
    then high
    else if ltb_ℤ (pos 30) (overlap_days overlap)
    then medium
    else low

-- 0.3 as `f32`
abbrev pub confidence_gap : ℕ
confidence_gap = 0x3e99999a

unfoldable pub suggest_resolution : Fact → Fact → SuggestedResolution
suggest_resolution a b =
    let gap = num_seconds (since a.recorded_at b.recorded_at) in
    if ge f32 (abs f32 (sub f32 a.confidence b.confidence)) confidence_gap
    then invalidate_older_fact (if lt f32 a.confidence b.confidence then a.id.text else b.id.text)
    else if ltb 3600 (pos_part gap + neg_part gap)
    then close_older_fact (if before a.recorded_at b.recorded_at then a.id.text else b.id.text)
    else manual_review

contradiction_of : Fact → Fact → Option Window → Option Contradiction
contradiction_of a b none = none
contradiction_of a b (some (overlap_start, overlap_end)) = some (record {
  existing_fact_id = a.id.text;
  conflicting_fact_id = b.id.text;
  subject = a.subject;
  predicate = a.predicate;
  overlap_start = overlap_start;
  overlap_end = overlap_end;
  severity = compute_severity a b (overlap_start, overlap_end);
  confidence_delta = abs f32 (sub f32 a.confidence b.confidence);
  suggested_resolution = suggest_resolution a b;
})

unfoldable pub detect_pairwise : Fact → Fact → Option Contradiction
unfolding contradiction_of
detect_pairwise a b =
    if not (text_eq a.subject b.subject) || not (text_eq a.predicate b.predicate)
    then none
    else if not (values_conflict a.object b.object)
    then none
    else contradiction_of a b (valid_time_overlap a b)

pub record ContradictionDetector : Type 0 where
  pub registry : Map PredicateCardinality
  pub policies : Map ConflictPolicy

abbrev pub new : ContradictionDetector
new = record { registry = []; policies = [] }

unfoldable pub register :
    ContradictionDetector → Text → PredicateCardinality → ConflictPolicy → ContradictionDetector
register det predicate cardinality policy = record {
  registry = Map.insert predicate cardinality det.registry;
  policies = Map.insert predicate policy det.policies;
}

is_singleton_entry : Option PredicateCardinality → Bool
is_singleton_entry (some singleton) = true
is_singleton_entry (some multi_valued) = false
is_singleton_entry none = false

unfoldable pub is_singleton : ContradictionDetector → Text → Bool
unfolding is_singleton_entry
is_singleton det predicate = is_singleton_entry (Map.get predicate det.registry)

unfoldable pub policy_for : ContradictionDetector → Text → ConflictPolicy
policy_for det predicate = unwrap_or (Map.get predicate det.policies) allow

-- `existing.iter().filter_map(|e| detect_pairwise(e, new_fact)).collect()`
unfoldable pub conflicts_with : Fact → List Fact → List Contradiction
conflicts_with new_fact [] = []
conflicts_with new_fact (e ∷ existing) =
    let rest = conflicts_with new_fact existing in
    elim (detect_pairwise e new_fact) [ none ↦ rest | some c ↦ c ∷ rest ]

unfoldable pub check_against : ContradictionDetector → Fact → List Fact → List Contradiction
unfolding conflicts_with is_singleton
check_against det new_fact existing =
    if is_singleton det new_fact.predicate then conflicts_with new_fact existing else []

-- `singleton_predicates`. The source takes the names out of a hash map, in any order; here they
-- stand by key.
unfoldable pub singleton_names : Map PredicateCardinality → List Text
singleton_names [] = []
singleton_names ((predicate, singleton) ∷ entries) = predicate ∷ singleton_names entries
singleton_names ((predicate, multi_valued) ∷ entries) = singleton_names entries

unfoldable pub singleton_predicates : ContradictionDetector → List Text
unfolding singleton_names
singleton_predicates det = singleton_names det.registry
