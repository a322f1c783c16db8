-- ===== src/Contradiction/Decode.antt =====
-- crates/core/src/contradiction.rs: the text of a predicate's registry entry, read back.
use kronroe.Common.{◌≡◌, refl, Option, none, some, if◌then◌else◌}
use kronroe.Common.Text.{Text, codes, text_eq}
use kronroe.Contradiction.{
  PredicateCardinality, singleton, multi_valued, ConflictPolicy, allow, warn, reject,
}
use kronroe.Contradiction.Registry.{encode_predicate_registry}
use kronroe.Error.{Result, ok, fail, ErrorKind, ◌>>=◌}
use kronroe.Fact.Json.{or_missing}
use kronroe.Json.{JsonValue, Elements, nil, cons, array, as_str, Outcome}
use kronroe.Json.Decoded.{decoded}

unfoldable pub cardinality_from_str : Text → Option PredicateCardinality
cardinality_from_str s =
    if text_eq s (codes "Singleton")
    then some singleton
    else if text_eq s (codes "MultiValued")
    then some multi_valued
    else none

unfoldable pub policy_from_str : Text → Option ConflictPolicy
policy_from_str s =
    if text_eq s (codes "Allow")
    then some allow
    else if text_eq s (codes "Warn")
    then some warn
    else if text_eq s (codes "Reject")
    then some reject
    else none

unfoldable pub registry_entry : JsonValue → Result (PredicateCardinality × ConflictPolicy)
unfolding cardinality_from_str policy_from_str
registry_entry (array (cons c (cons p nil))) = do
  cardinality_str ← or_missing (as_str c)
  policy_str ← or_missing (as_str p)
  cardinality ← or_missing (cardinality_from_str cardinality_str)
  policy ← or_missing (policy_from_str policy_str)
  ok (cardinality, policy)
registry_entry _ = fail ErrorKind.serialization

unfoldable pub decode_predicate_registry :
    Text → Outcome (Result (PredicateCardinality × ConflictPolicy))
unfolding decoded registry_entry
decode_predicate_registry = decoded registry_entry

-- x
pub decode_predicate_registry-encode_predicate_registry :
    (cardinality : PredicateCardinality) (policy : ConflictPolicy)
    → decode_predicate_registry (encode_predicate_registry cardinality policy)
      ≡ Outcome.ok (ok (cardinality, policy))
unfolding decode_predicate_registry kronroe.Common.Utf8.utf8_after encode_predicate_registry
    kronroe.Common.Utf8.announced kronroe.Json.Parse.value_at kronroe.Json.Parse.opened
    kronroe.Json.Scan.parse_string kronroe.Json.Parse.parse_separator kronroe.Json.Parse.entry_end
    kronroe.Json.Parse.finish kronroe.Json.push as_str text_eq
decode_predicate_registry-encode_predicate_registry singleton allow = refl
decode_predicate_registry-encode_predicate_registry singleton warn = refl
decode_predicate_registry-encode_predicate_registry singleton reject = refl
decode_predicate_registry-encode_predicate_registry multi_valued allow = refl
decode_predicate_registry-encode_predicate_registry multi_valued warn = refl
decode_predicate_registry-encode_predicate_registry multi_valued reject = refl
