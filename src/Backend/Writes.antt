-- ===== src/Backend/Writes.antt =====
-- The writes of crates/core/src/storage_append_log.rs: the state after `write_fact` and after an
-- idempotent write.
use mathlib.Core.Path.{subst}
use kronroe.Common.{
  ◌≡◌, sym, ap, ◌∙◌, Option, none, some, arith, if◌then◌else◌, inl, inr, Option-cases,
}
use kronroe.Common.Text.{Text, text_eq, text_eq_iff}
use kronroe.Common.Map
use kronroe.Common.Map.{Map, get-insert}
use kronroe.Fact.{Fact, is_currently_valid, was_valid_at}
use kronroe.FactId.{FactId, parse}
use kronroe.Error.{ok, err, KronroeError}
use kronroe.Storage.{fact_row_key, subject_predicate_prefix}
use kronroe.Log.{
  AppendLogRecord, AppendLogState, upsert_fact, upsert_fact_and_idempotency, apply_record,
  apply_fact_upsert,
}
use kronroe.Log.Invariant.{Inv, apply_record-Inv, upsert_frame}
use kronroe.Backend.{
  AppendLogBackend, AppendOutcome, written, not_written, sync_failed, append_record, applied,
  commit, write_fact, write_fact_and_idempotency,
}
use kronroe.Query.Rows.{row_at, expected, current_facts_exact}
use kronroe.Query.History.{facts_at_exact}
use kronroe.Query.{get_idempotency, stored_id, current_facts, facts_at}
use kronroe.Time.{KronroeTimestamp}

-- The state after a commit that succeeds is the record applied to the state before.
pub commit_ok {ℓ} :
    {A : Type ℓ} (io : AppendOutcome) (r : AppendLogRecord) (value v : A) (b b' : AppendLogBackend)
    → commit io r value b ≡ some (b', ok v)
    → (apply_record b.state r ≡ some b'.state) × (value ≡ v)
unfolding commit append_record applied
commit_ok io r value v b b' e = elim (Option-cases (apply_record b.state r)) [
  | inl n ↦ elim io [
    | written ↦ ground arith
    | not_written ↦ ground arith
    | sync_failed ↦ ground arith
  ]
  | inr (u, p) ↦ elim io [
    | written ↦ ground arith
    | not_written ↦ ground arith
    | sync_failed ↦ ground arith
  ]
]

-- A commit that fails leaves the state as it was.
pub commit_err {ℓ} :
    {A : Type ℓ} (io : AppendOutcome) (r : AppendLogRecord) (value : A) (b b' : AppendLogBackend)
    (x : KronroeError)
    → commit io r value b ≡ some (b', err x)
    → b'.state ≡ b.state
unfolding commit append_record applied
commit_err io r value b b' x e = ground arith

pub upsert_kept :
    (key : Text) (fact : Fact) (s t : AppendLogState) (k : Text)
    → apply_fact_upsert key fact s ≡ some t
    → Map.get k t.facts ≡ (if text_eq key k then some fact else Map.get k s.facts)
upsert_kept key fact s t k e =
    let (chains', p) = upsert_frame key fact s t e in
    ap (λ (u : AppendLogState). Map.get k u.facts) p ∙ get-insert key k fact s.facts

-- The rows of a table after a fact is stored.
abbrev pub row_after : Fact → Text → Map Fact → Option Fact
row_after fact key facts =
    if text_eq (fact_row_key fact.subject fact.predicate fact.id) key
    then some fact
    else Map.get key facts

-- In a backend whose indexes are exact, after write_fact succeeds, current_facts of any subject
-- and predicate has under every key the row of the table with the written fact put in, if that
-- row is of the prefix and currently valid.
pub write_fact-current_facts :
    (io : AppendOutcome) (fact : Fact) (b b' : AppendLogBackend) (v : Unit {0})
    (subject predicate key : Text)
    → Inv b.state
    → write_fact io fact b ≡ some (b', ok v)
    → row_at key (current_facts subject predicate b'.state).0
      ≡ expected is_currently_valid
          (subject_predicate_prefix subject predicate)
          (row_after fact key b.state.facts)
unfolding write_fact apply_record
write_fact-current_facts io fact b b' v subject predicate key h e =
    let (applies, u) = commit_ok io (upsert_fact row fact) tt v b b' e in
    let (t, p, i) = apply_record-Inv b.state (upsert_fact row fact) h in
    current_facts_exact subject predicate b'.state key (subst Inv (cc (applies, p)) i)
    ∙ ap (expected is_currently_valid (subject_predicate_prefix subject predicate))
        (upsert_kept row fact b.state b'.state key applies)
  where
    row : Text
    row = fact_row_key fact.subject fact.predicate fact.id

-- In a backend whose indexes are exact, after write_fact succeeds, facts_at of any subject,
-- predicate and moment has under every key the row of the table with the written fact put in, if
-- that row is of the prefix and valid at the moment.
pub write_fact-facts_at :
    (io : AppendOutcome) (fact : Fact) (b b' : AppendLogBackend) (v : Unit {0})
    (subject predicate : Text) (at : KronroeTimestamp) (key : Text)
    → Inv b.state
    → write_fact io fact b ≡ some (b', ok v)
    → row_at key (facts_at subject predicate at b'.state).0
      ≡ expected
          (λ f. was_valid_at f at)
          (subject_predicate_prefix subject predicate)
          (row_after fact key b.state.facts)
unfolding write_fact apply_record
write_fact-facts_at io fact b b' v subject predicate at key h e =
    let (applies, u) = commit_ok io (upsert_fact row fact) tt v b b' e in
    let (t, p, i) = apply_record-Inv b.state (upsert_fact row fact) h in
    facts_at_exact subject predicate at b'.state key (subst Inv (cc (applies, p)) i)
    ∙ ap (expected (λ f. was_valid_at f at) (subject_predicate_prefix subject predicate))
        (upsert_kept row fact b.state b'.state key applies)
  where
    row : Text
    row = fact_row_key fact.subject fact.predicate fact.id

-- A fresh key's fact is stored under it.
pub fresh_key :
    (io : AppendOutcome) (idempotency_key : Text) (fact : Fact) (b b' : AppendLogBackend)
    (id : FactId)
    → Map.get idempotency_key b.state.idempotency ≡ none
    → write_fact_and_idempotency io idempotency_key fact b ≡ some (b', ok id)
    → (id ≡ fact.id) × (Map.get idempotency_key b'.state.idempotency ≡ some fact.id.text)
unfolding write_fact_and_idempotency apply_record
fresh_key io idempotency_key fact b b' id n e =
    let (applies, u) = commit_ok io r fact.id id b b' (rw (n, write_fact_and_idempotency) at e) in
    let (chains', p) = upsert_frame row fact s b'.state applies in
    (
      sym u,
      ap (λ (t : AppendLogState). Map.get idempotency_key t.idempotency) p
          ∙ ground (
            arith,
            get-insert idempotency_key idempotency_key fact.id.text b.state.idempotency,
            text_eq_iff idempotency_key idempotency_key,
          ),
    )
  where
    row : Text
    row = fact_row_key fact.subject fact.predicate fact.id

    r : AppendLogRecord
    r = upsert_fact_and_idempotency row fact idempotency_key

    s : AppendLogState
    s = record b.state { idempotency = Map.insert idempotency_key fact.id.text b.state.idempotency }

-- A key whose id parses answers every write with that id.
pub answered :
    (io : AppendOutcome) (idempotency_key : Text) (fact : Fact) (b : AppendLogBackend)
    (existing : Text) (id : FactId)
    → Map.get idempotency_key b.state.idempotency ≡ some existing
    → stored_id (parse existing) ≡ ok id
    → (write_fact_and_idempotency io idempotency_key fact b ≡ some (b, ok id))
      × (get_idempotency idempotency_key b.state ≡ ok (some id))
unfolding write_fact_and_idempotency get_idempotency
answered io idempotency_key fact b existing id p q = (ground (arith, p, q), ground (arith, p, q))
