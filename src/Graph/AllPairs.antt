-- ===== src/Graph/AllPairs.antt =====
-- crates/core/src/temporal_graph.rs: `detect_all_contradictions`. The groups stand in the order of
-- their first fact; the map of the source has them in any order.
pub mod Complete
pub mod Genuine
pub mod Exact
use kronroe.Common.{
  Bool, true, false, ◌&&◌, ◌||◌, none, some, List, [], ◌∷◌, ◌++◌, is_none, is_empty, keep,
  if◌then◌else◌,
}
use kronroe.Common.Text.{Text, text_eq}
use kronroe.Fact.{Fact}
use kronroe.Contradiction.{Contradiction}
use kronroe.Contradiction
use kronroe.Graph.{TemporalGraph, scan_prefix}
use kronroe.Graph.Singletons.{all_pairs}

-- The facts of a subject and predicate.
pub record Group : Type 0 where
  pub subject : Text
  pub predicate : Text
  pub facts : List Fact

abbrev pub is_of : Fact → Group → Bool
is_of f g = text_eq f.subject g.subject && text_eq f.predicate g.predicate

-- `entry(key).or_default().push(fact)`
unfoldable pub push_fact : Fact → List Group → List Group
push_fact f [] = record { subject = f.subject; predicate = f.predicate; facts = f ∷ [] } ∷ []
push_fact f (g ∷ gs) =
    let rest = push_fact f gs in
    if is_of f g then record g { facts = g.facts ++ (f ∷ []) } ∷ gs else g ∷ rest

unfoldable pub grouped : List Group → List Fact → List Group
unfolding push_fact
grouped gs [] = gs
grouped gs (f ∷ fs) = grouped (push_fact f gs) fs

unfoldable pub contains_text : Text → List Text → Bool
unfolding text_eq
contains_text t [] = false
contains_text t (s ∷ ss) = text_eq s t || contains_text t ss

unfoldable pub pairs_of_groups : List Group → List Contradiction
unfolding all_pairs
pairs_of_groups [] = []
pairs_of_groups (g ∷ gs) = all_pairs g.facts ++ pairs_of_groups gs

unfoldable pub detect_all_contradictions : TemporalGraph → List Contradiction
unfolding grouped contains_text pairs_of_groups scan_prefix
detect_all_contradictions g =
    let singleton_preds = Contradiction.singleton_predicates g.contradiction_detector in
    if is_empty singleton_preds
    then []
    else pairs_of_groups (
        grouped [] (
          keep (λ (f : Fact). contains_text f.predicate singleton_preds)
            (scan_prefix [] (λ f. is_none f.expired_at) g)))
