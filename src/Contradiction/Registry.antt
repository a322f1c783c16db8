-- ===== src/Contradiction/Registry.antt =====
-- crates/core/src/contradiction.rs: the text of a predicate's registry entry.
use kronroe.Common.{◌++◌}
use kronroe.Common.Text.{Text, codes}
use kronroe.Contradiction.{
  PredicateCardinality, singleton, multi_valued, ConflictPolicy, allow, warn, reject,
}

cardinality_str : PredicateCardinality → Text
cardinality_str singleton = codes "Singleton"
cardinality_str multi_valued = codes "MultiValued"

policy_str : ConflictPolicy → Text
policy_str allow = codes "Allow"
policy_str warn = codes "Warn"
policy_str reject = codes "Reject"

-- `format!("[\"{}\",\"{}\"]", cardinality.as_str(), policy.as_str())`
unfoldable pub encode_predicate_registry : PredicateCardinality → ConflictPolicy → Text
unfolding cardinality_str policy_str
encode_predicate_registry cardinality policy =
    codes "[\""
    ++ (cardinality_str cardinality ++ (codes "\",\"" ++ (policy_str policy ++ codes "\"]")))
