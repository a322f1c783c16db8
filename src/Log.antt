-- ===== src/Log.antt =====
-- crates/core/src/storage_append_log.rs: the records of the append log and the state that is
-- derived by applying them in order. All features of the crate are on. `none` is a panic.
pub mod KeySets
pub mod Versions
pub mod Upsert
pub mod Chained
pub mod Invariant
pub mod Json
pub mod Load
use kronroe.Common.{
  ℕ, Bool, true, false, Option, none, some, List, [], ◌∷◌, length, is_empty, is_none, if◌then◌else◌,
  unwrap_or,
}
use kronroe.Common.Text.{Text, codes, text_eq}
use kronroe.Common.Map
use kronroe.Common.Map.{Map}
use kronroe.Fact.{Fact, is_currently_valid}
use kronroe.FactId.{FactId}
use kronroe.Storage.{subject_predicate_prefix}
use KeySets.{Index, index_insert, index_remove}
use Versions.{Chain, insertion_index, insert_at, remove_first}

abbrev pub append_log_magic : Text
append_log_magic = codes "kronroe-append-log-v1"

pub data AppendLogRecord : Type 0 where
  header : Text → AppendLogRecord
  schema_version : ℕ → AppendLogRecord
  upsert_predicate_registry_entry : Text → Text → AppendLogRecord
  upsert_volatility_registry_entry : Text → Text → AppendLogRecord
  upsert_source_weight_registry_entry : Text → Text → AppendLogRecord
  upsert_fact : Text → Fact → AppendLogRecord
  upsert_fact_and_idempotency : Text → Fact → Text → AppendLogRecord
  upsert_fact_with_embedding : Text → Fact → List ℕ → AppendLogRecord
  replace_fact : Text → Fact → AppendLogRecord

pub record AppendLogState : Type 0 where
  pub header_present : Bool
  pub schema_version : Option ℕ
  pub predicate_registry : Map Text
  pub volatility_registry : Map Text
  pub source_weight_registry : Map Text
  pub embedding_dim : Option ℕ
  pub embeddings : Map (List ℕ)
  pub facts : Map Fact
  pub fact_key_by_id : Map Text
  pub facts_by_subject_predicate : Index
  pub active_facts_by_subject_predicate : Index
  pub current_facts_by_subject_predicate : Index
  pub version_chain_by_subject_predicate : Map Chain
  pub idempotency : Map Text

-- `AppendLogState::default()`
abbrev pub default : AppendLogState
default = record {
  header_present = false;
  schema_version = none;
  predicate_registry = [];
  volatility_registry = [];
  source_weight_registry = [];
  embedding_dim = none;
  embeddings = [];
  facts = [];
  fact_key_by_id = [];
  facts_by_subject_predicate = [];
  active_facts_by_subject_predicate = [];
  current_facts_by_subject_predicate = [];
  version_chain_by_subject_predicate = [];
  idempotency = [];
}

abbrev pub prefix_of : Fact → Text
prefix_of fact = subject_predicate_prefix fact.subject fact.predicate

abbrev pub chain_of : Text → Map Chain → Chain
chain_of prefix chains = unwrap_or (Map.get prefix chains) []

-- The part of `insert_fact_index` on the version chains.
unfoldable pub insert_into_chain : Text → Fact → Map Fact → Map Chain → Option (Map Chain)
insert_into_chain key fact facts chains =
    let chain = chain_of (prefix_of fact) chains in
    elim (insertion_index facts fact.valid_from chain) [
      | none ↦ none
      | some i ↦ some (Map.insert (prefix_of fact) (insert_at i key chain) chains)
    ]

with_chains : AppendLogState → Option (Map Chain) → Option AppendLogState
with_chains s none = none
with_chains s (some chains) = some (record s { version_chain_by_subject_predicate = chains })

unfoldable pub insert_fact_index : Text → Fact → AppendLogState → Option AppendLogState
unfolding with_chains
insert_fact_index key fact s =
    let prefix = prefix_of fact in
    with_chains
      (record s {
        facts_by_subject_predicate = index_insert prefix key s.facts_by_subject_predicate;
        active_facts_by_subject_predicate =
            if is_none fact.expired_at
            then index_insert prefix key s.active_facts_by_subject_predicate
            else s.active_facts_by_subject_predicate;
        current_facts_by_subject_predicate =
            if is_currently_valid fact
            then index_insert prefix key s.current_facts_by_subject_predicate
            else s.current_facts_by_subject_predicate;
      })
      (insert_into_chain key fact s.facts s.version_chain_by_subject_predicate)

-- The part of `remove_fact_index` on the version chains.
unfoldable pub remove_from_chain : Text → Text → Map Chain → Map Chain
remove_from_chain prefix key chains = elim (Map.get prefix chains) [
  | none ↦ chains
  | some chain ↦
      let left = remove_first key chain in
      if is_empty left then Map.remove prefix chains else Map.insert prefix left chains
]

unfoldable pub remove_fact_index : Text → Fact → AppendLogState → AppendLogState
remove_fact_index key fact s =
    let prefix = prefix_of fact in
    record s {
      facts_by_subject_predicate = index_remove prefix key s.facts_by_subject_predicate;
      active_facts_by_subject_predicate =
          index_remove prefix key s.active_facts_by_subject_predicate;
      current_facts_by_subject_predicate =
          index_remove prefix key s.current_facts_by_subject_predicate;
      version_chain_by_subject_predicate =
          remove_from_chain prefix key s.version_chain_by_subject_predicate;
    }

-- `if let Some(previous) = self.facts.insert(…) { self.remove_fact_index(&key, &previous); }`
unfoldable pub put_row : Text → Fact → AppendLogState → AppendLogState
unfolding remove_fact_index
put_row key fact s =
    let stored = record s { facts = Map.insert key fact s.facts } in
    elim (Map.get key s.facts) [
      | none ↦ stored
      | some previous ↦ remove_fact_index key previous stored
    ]

unfoldable pub apply_fact_upsert : Text → Fact → AppendLogState → Option AppendLogState
unfolding put_row insert_fact_index
apply_fact_upsert key fact s =
    let t = put_row key fact s in
    insert_fact_index key fact
      (record t { fact_key_by_id = Map.insert fact.id.text key t.fact_key_by_id })

unfoldable pub apply_embedding_upsert : FactId → List ℕ → AppendLogState → AppendLogState
apply_embedding_upsert fact_id embedding s = record s {
  embedding_dim = some (unwrap_or s.embedding_dim (length embedding));
  embeddings = Map.insert fact_id.text embedding s.embeddings;
}

unfoldable pub apply_record : AppendLogState → AppendLogRecord → Option AppendLogState
unfolding apply_fact_upsert apply_embedding_upsert
apply_record s (header magic) = some (record s { header_present = text_eq magic append_log_magic })
apply_record s (schema_version version) = some (record s { schema_version = some version })
apply_record s (upsert_predicate_registry_entry predicate encoded) =
    some (record s { predicate_registry = Map.insert predicate encoded s.predicate_registry })
apply_record s (upsert_volatility_registry_entry predicate encoded) =
    some (record s { volatility_registry = Map.insert predicate encoded s.volatility_registry })
apply_record s (upsert_source_weight_registry_entry source encoded) =
    some (record s { source_weight_registry = Map.insert source encoded s.source_weight_registry })
apply_record s (upsert_fact key fact) = apply_fact_upsert key fact s
apply_record s (replace_fact key fact) = apply_fact_upsert key fact s
apply_record s (upsert_fact_and_idempotency key fact idempotency_key) =
    apply_fact_upsert key fact
      (record s { idempotency = Map.insert idempotency_key fact.id.text s.idempotency })
apply_record s (upsert_fact_with_embedding key fact embedding) =
    apply_fact_upsert key fact (apply_embedding_upsert fact.id embedding s)

-- The state after a sequence of records.
unfoldable pub replay : AppendLogState → List AppendLogRecord → Option AppendLogState
replay s [] = some s
replay s (r ∷ records) = elim (apply_record s r) [ none ↦ none | some t ↦ replay t records ]
