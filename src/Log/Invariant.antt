-- ===== src/Log/Invariant.antt =====
-- crates/core/src/storage_append_log.rs: the indexes of `AppendLogState` and its fact table, over
-- sequences of records.
use kronroe.Common.{
  ℕ, Bool, true, ◌≡◌, refl, none, some, List, [], ◌∷◌, arith, is_none, inl, inr, Option-cases,
}
use kronroe.Common.Text.{Text}
use kronroe.Common.Map
use kronroe.Common.Map.{Map}
use kronroe.Fact.{Fact, is_currently_valid}
use kronroe.Log.{
  AppendLogRecord, AppendLogState, header, schema_version, upsert_predicate_registry_entry,
  upsert_volatility_registry_entry, upsert_source_weight_registry_entry, upsert_fact,
  upsert_fact_and_idempotency, upsert_fact_with_embedding, replace_fact, default, put_row,
  apply_fact_upsert, apply_embedding_upsert, apply_record, replay, insert_into_chain,
}
use kronroe.Common.Set
use kronroe.FactId.{FactId}
use kronroe.Log.Versions.{Chain, count}
use kronroe.Log.Upsert.{Indexes, without_row, with_row, upsert-Indexes}
use kronroe.Log.Chained.{Chains, without_version, upsert-Chains}

abbrev pub any : Fact → Bool
any fact = true

abbrev pub unexpired : Fact → Bool
unexpired fact = is_none fact.expired_at

-- Each index holds exactly the keys of the rows that belong there; each version chain holds every
-- key once, in the order of valid time.
pub record Inv (s : AppendLogState) : Type 0 where
  pub all : Indexes any s.facts s.facts_by_subject_predicate
  pub active : Indexes unexpired s.facts s.active_facts_by_subject_predicate
  pub current : Indexes is_currently_valid s.facts s.current_facts_by_subject_predicate
  pub chains : Chains s.facts s.version_chain_by_subject_predicate

-- The state after a row is stored and the row that its key had is taken out of the indexes.
put_row_fields :
    (key : Text) (fact : Fact) (s : AppendLogState)
    → let t = put_row key fact s in
      (t.facts ≡ Map.insert key fact s.facts)
      × (t.facts_by_subject_predicate
          ≡ without_row key (Map.get key s.facts) s.facts_by_subject_predicate)
      × (t.active_facts_by_subject_predicate
          ≡ without_row key (Map.get key s.facts) s.active_facts_by_subject_predicate)
      × (t.current_facts_by_subject_predicate
          ≡ without_row key (Map.get key s.facts) s.current_facts_by_subject_predicate)
      × (t.version_chain_by_subject_predicate
          ≡ without_version key (Map.get key s.facts) s.version_chain_by_subject_predicate)
unfolding put_row
put_row_fields key fact s = ground arith

-- What an upsert changes.
abbrev pub upserted : Text → Fact → AppendLogState → Map Chain → AppendLogState
upserted key fact s chains' = record s {
  facts = Map.insert key fact s.facts;
  fact_key_by_id = Map.insert fact.id.text key s.fact_key_by_id;
  facts_by_subject_predicate =
      with_row true key fact (without_row key (Map.get key s.facts) s.facts_by_subject_predicate);
  active_facts_by_subject_predicate =
      with_row (unexpired fact) key fact
        (without_row key (Map.get key s.facts) s.active_facts_by_subject_predicate);
  current_facts_by_subject_predicate =
      with_row (is_currently_valid fact) key fact
        (without_row key (Map.get key s.facts) s.current_facts_by_subject_predicate);
  version_chain_by_subject_predicate = chains';
}

upsert_result :
    (key : Text) (fact : Fact) (s : AppendLogState) (chains' : Map Chain)
    → insert_into_chain key fact
        (Map.insert key fact s.facts)
        (without_version key (Map.get key s.facts) s.version_chain_by_subject_predicate)
      ≡ some chains'
    → apply_fact_upsert key fact s ≡ some (upserted key fact s chains')
unfolding apply_fact_upsert put_row
upsert_result key fact s chains' e = ground arith

upsert_panics :
    (key : Text) (fact : Fact) (s : AppendLogState)
    → insert_into_chain key fact
        (Map.insert key fact s.facts)
        (without_version key (Map.get key s.facts) s.version_chain_by_subject_predicate)
      ≡ none
    → apply_fact_upsert key fact s ≡ none
unfolding apply_fact_upsert put_row
upsert_panics key fact s e = ground arith

-- An upsert that does not panic changes the fact table, the ids and the indexes alone.
pub upsert_frame :
    (key : Text) (fact : Fact) (s t : AppendLogState)
    → apply_fact_upsert key fact s ≡ some t
    → (chains' : Map Chain) × (t ≡ upserted key fact s chains')
upsert_frame key fact s t e =
    elim (Option-cases (
      insert_into_chain key fact (Map.insert key fact s.facts)
        (without_version key (Map.get key s.facts) s.version_chain_by_subject_predicate))) [
          | inl n ↦ absurd (cc (upsert_panics key fact s n))
          | inr (chains', p) ↦ (chains', cc (upsert_result key fact s chains' p))
        ]

-- An upsert of a row never panics in a state whose indexes are exact, and keeps them exact.
pub apply_fact_upsert-Inv :
    (key : Text) (fact : Fact) (s : AppendLogState)
    → Inv s
    → (chains' : Map Chain) × (apply_fact_upsert key fact s ≡ some (upserted key fact s chains'))
      × Inv (upserted key fact s chains')
apply_fact_upsert-Inv key fact s h =
    let (chains', e, c) =
      upsert-Chains s.facts key fact s.version_chain_by_subject_predicate h.chains in
    (
      chains',
      upsert_result key fact s chains' e,
      record {
        all = upsert-Indexes any s.facts key fact s.facts_by_subject_predicate h.all;
        active =
            upsert-Indexes unexpired s.facts key fact s.active_facts_by_subject_predicate h.active;
        current =
            upsert-Indexes is_currently_valid s.facts key fact s.current_facts_by_subject_predicate
              h.current;
        chains = c;
      },
    )

-- Applied without a panic, to a state with exact indexes.
abbrev pub Applies : AppendLogState → AppendLogRecord → Type 0
Applies s r = (t : AppendLogState) × (apply_record s r ≡ some t) × Inv t

upsert-Applies :
    (key : Text) (fact : Fact) (s : AppendLogState)
    → Inv s
    → (t : AppendLogState) × (apply_fact_upsert key fact s ≡ some t) × Inv t
upsert-Applies key fact s h =
    let (chains', e, i) = apply_fact_upsert-Inv key fact s h in (upserted key fact s chains', e, i)

embedding-Inv :
    (id : FactId) (embedding : List ℕ) (s : AppendLogState)
    → Inv s
    → Inv (apply_embedding_upsert id embedding s)
unfolding apply_embedding_upsert
embedding-Inv id embedding s h = record {
  all = h.all;
  active = h.active;
  current = h.current;
  chains = h.chains;
}

-- Every record applies without a panic and keeps the indexes exact.
pub apply_record-Inv : (s : AppendLogState) (r : AppendLogRecord) → Inv s → Applies s r
unfolding apply_record
apply_record-Inv s (header magic) h =
    (_, refl, record { all = h.all; active = h.active; current = h.current; chains = h.chains })
apply_record-Inv s (schema_version version) h =
    (_, refl, record { all = h.all; active = h.active; current = h.current; chains = h.chains })
apply_record-Inv s (upsert_predicate_registry_entry predicate encoded) h =
    (_, refl, record { all = h.all; active = h.active; current = h.current; chains = h.chains })
apply_record-Inv s (upsert_volatility_registry_entry predicate encoded) h =
    (_, refl, record { all = h.all; active = h.active; current = h.current; chains = h.chains })
apply_record-Inv s (upsert_source_weight_registry_entry source encoded) h =
    (_, refl, record { all = h.all; active = h.active; current = h.current; chains = h.chains })
apply_record-Inv s (upsert_fact key fact) h = upsert-Applies key fact s h
apply_record-Inv s (replace_fact key fact) h = upsert-Applies key fact s h
apply_record-Inv s (upsert_fact_and_idempotency key fact idempotency_key) h =
    upsert-Applies key fact
      (record s { idempotency = Map.insert idempotency_key fact.id.text s.idempotency })
      (record { all = h.all; active = h.active; current = h.current; chains = h.chains })
apply_record-Inv s (upsert_fact_with_embedding key fact embedding) h =
    upsert-Applies key fact (apply_embedding_upsert fact.id embedding s)
      (embedding-Inv fact.id embedding s h)

pub default-Inv : Inv default
unfolding Map.get Set.member count
default-Inv = record {
  all = record { exact = λ p key. refl; non_empty = λ p e. cc e };
  active = record { exact = λ p key. refl; non_empty = λ p e. cc e };
  current = record { exact = λ p key. refl; non_empty = λ p e. cc e };
  chains = record { exact = λ p key. refl; ordered = λ p. tt; non_empty = λ p e. cc e };
}

replay-Inv_from :
    (s : AppendLogState) (records : List AppendLogRecord)
    → Inv s
    → (t : AppendLogState) × (replay s records ≡ some t) × Inv t
unfolding replay
replay-Inv_from s [] h = (s, refl, h)
replay-Inv_from s (r ∷ records) h =
    let (t, e, i) = apply_record-Inv s r h in
    let (u, e', j) = replay-Inv_from t records i in (u, rw (e, replay) e', j)

-- Applying any list of records to the empty state panics nowhere and gives a state whose three
-- indexes hold exactly the keys of the rows that belong there and whose version chains hold each
-- key once in the order of valid_from.
pub replay-Inv :
    (records : List AppendLogRecord)
    → (t : AppendLogState) × (replay default records ≡ some t) × Inv t
replay-Inv records = replay-Inv_from default records default-Inv
