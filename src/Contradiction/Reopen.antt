-- ===== src/Contradiction/Reopen.antt =====
-- crates/core/src/temporal_graph.rs: `init` registers the stored entries of the predicates again.
use kronroe.Common.{◌≡◌, refl, ◌∙◌, ap, List, [], ◌∷◌}
use kronroe.Common.Map.{Map}
use kronroe.Common.Text.{Text}
use kronroe.Contradiction.{
  PredicateCardinality, ConflictPolicy, ContradictionDetector, new, register,
}
use kronroe.Contradiction.Decode.{
  decode_predicate_registry, decode_predicate_registry-encode_predicate_registry,
}
use kronroe.Contradiction.Registry.{encode_predicate_registry}
use kronroe.Error.{Result, ok, err, fail, ErrorKind}
use kronroe.Json.{Outcome}

-- What follows a decoded entry.
unfoldable pub entry_then :
    Outcome (Result (PredicateCardinality × ConflictPolicy))
    → (PredicateCardinality → ConflictPolicy → Outcome (Result ContradictionDetector))
    → Outcome (Result ContradictionDetector)
entry_then (Outcome.ok (ok (cardinality, policy))) k = k cardinality policy
entry_then (Outcome.ok (err e)) k = Outcome.ok (fail ErrorKind.storage)
entry_then (Outcome.err e) k = Outcome.err e
entry_then Outcome.panicked k = Outcome.panicked
entry_then Outcome.out_of_fuel k = Outcome.out_of_fuel

-- The loop over `load_predicate_registry_entries`
unfoldable pub init_entries :
    ContradictionDetector → Map Text → Outcome (Result ContradictionDetector)
unfolding entry_then decode_predicate_registry
init_entries det [] = Outcome.ok (ok det)
init_entries det ((predicate, encoded) ∷ entries) =
    entry_then (decode_predicate_registry encoded)
      λ cardinality policy. init_entries (register det predicate cardinality policy) entries

unfoldable pub init_detector : Map Text → Outcome (Result ContradictionDetector)
unfolding init_entries
init_detector entries = init_entries new entries

-- A predicate with what it was registered as.
abbrev pub Registered : Type 0
Registered = Text × PredicateCardinality × ConflictPolicy

abbrev pub entries_of : List Registered → Map Text
entries_of [] = []
entries_of ((predicate, cardinality, policy) ∷ rs) =
    (predicate, encode_predicate_registry cardinality policy) ∷ entries_of rs

abbrev pub register_all : ContradictionDetector → List Registered → ContradictionDetector
register_all det [] = det
register_all det ((predicate, cardinality, policy) ∷ rs) =
    register_all (register det predicate cardinality policy) rs

init_entries-entries_of :
    (det : ContradictionDetector) (rs : List Registered)
    → init_entries det (entries_of rs) ≡ Outcome.ok (ok (register_all det rs))
unfolding init_entries entry_then
init_entries-entries_of det [] = refl
init_entries-entries_of det ((predicate, cardinality, policy) ∷ rs) =
    ap
      (λ d. entry_then d λ cardinality policy.
        init_entries (register det predicate cardinality policy) (entries_of rs))
      (decode_predicate_registry-encode_predicate_registry cardinality policy)
    ∙ init_entries-entries_of (register det predicate cardinality policy) rs

-- Opening a graph on registry entries that encode the cardinality and the policy of each
-- predicate registers exactly these, in the order of the entries.
pub init_detector-entries_of :
    (rs : List Registered) → init_detector (entries_of rs) ≡ Outcome.ok (ok (register_all new rs))
unfolding init_detector
init_detector-entries_of rs = init_entries-entries_of new rs
