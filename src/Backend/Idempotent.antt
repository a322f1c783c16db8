-- ===== src/Backend/Idempotent.antt =====
-- crates/core/src/storage_append_log.rs: the idempotency keys of a backend over any operations.
use mathlib.Core.Path.{subst}
use kronroe.Common.{◌≡◌, refl, sym, some, inl, inr, Option-cases, arith}
use kronroe.Common.Text.{Text}
use kronroe.Common.Map
use kronroe.Common.Map.{get-insert}
use kronroe.Fact.{Fact}
use kronroe.FactId.{FactId, parse}
use kronroe.FactId
use kronroe.Error.{Result, ok}
use kronroe.Log.{AppendLogRecord, AppendLogState}
use kronroe.Query.{get_idempotency, stored_id}
use kronroe.Backend.{
  AppendLogBackend, AppendOutcome, sync_failed, Reply, append_record, write_fact, replace_fact_row,
  write_predicate_registry_entry, write_volatility_registry_entry,
  write_source_weight_registry_entry, write_fact_and_idempotency,
}
use kronroe.Backend.Compaction.{Replacement, compact}
use kronroe.Backend.Steps.{
  Step, fact_written, row_replaced, predicate_registered, volatility_registered, source_registered,
  idempotent_written, embedding_written, checked_written, schema_initialized,
}
use kronroe.Backend.Writes.{fresh_key, answered}
use kronroe.Backend.Keys.{Has, commit-Has, idempotent-Has, embedding-Has, schema-Has, checked-Has}

-- A backend after any number of operations, of appends whose sync fails, and of compactions.
pub data Later (b : AppendLogBackend) : AppendLogBackend → Type 0 where
  now : Later b b
  step : {c d : AppendLogBackend} → Later b c → Step c d → Later b d
  unsynced :
      {c d : AppendLogBackend} (r : AppendLogRecord) (res : Result (Unit {0}))
      → Later b c
      → append_record sync_failed r c ≡ (d, res)
      → Later b d
  compacted : {c : AppendLogBackend} (io : Replacement) → Later b c → Later b (compact io c).0

-- A compaction, whatever its outcome, leaves the state in memory as it is.
compact_state : (io : Replacement) (b : AppendLogBackend) → (compact io b).0.state ≡ b.state
unfolding compact
compact_state io b = ground arith

module _ (key existing : Text) where
  Step-Has :
      {b b' : AppendLogBackend} → Step b b' → Has key existing b.state → Has key existing b'.state
  unfolding write_fact replace_fact_row write_predicate_registry_entry
      write_volatility_registry_entry write_source_weight_registry_entry
  Step-Has {b} {b'} (fact_written io fact res n e) h =
      commit-Has key existing io _ tt b b' res tt e h
  Step-Has {b} {b'} (row_replaced io row fact res n e) h =
      commit-Has key existing io _ tt b b' res tt e h
  Step-Has {b} {b'} (predicate_registered io predicate encoded res n e) h =
      commit-Has key existing io _ tt b b' res tt e h
  Step-Has {b} {b'} (volatility_registered io predicate encoded res n e) h =
      commit-Has key existing io _ tt b b' res tt e h
  Step-Has {b} {b'} (source_registered io source encoded res n e) h =
      commit-Has key existing io _ tt b b' res tt e h
  Step-Has {b} {b'} (idempotent_written io k fact res n e) h =
      idempotent-Has key existing io k fact b b' res e h
  Step-Has {b} {b'} (embedding_written io fact embedding res n e) h =
      embedding-Has key existing io fact embedding b b' res e h
  Step-Has {b} {b'} (checked_written io subject predicate fact reject check res n e) h =
      checked-Has key existing io subject predicate fact reject check b b' res h _ refl e
  Step-Has {b} {b'} (schema_initialized io io' res n n' e) h =
      schema-Has key existing io io' b b' res e h

  Later-Has :
      {b c : AppendLogBackend} → Later b c → Has key existing b.state → Has key existing c.state
  unfolding append_record
  Later-Has now h = h
  Later-Has (step l s) h = Step-Has s (Later-Has l h)
  Later-Has (unsynced {c} {d} r res l e) h =
      let same : c.state ≡ d.state = ground (arith, e) in
      subst (Has key existing) same (Later-Has l h)
  Later-Has (compacted {c} io l) h =
      subst (Has key existing) (sym (compact_state io c)) (Later-Has l h)

-- What a key answers whose entry is a text.
Answers : Text → FactId → AppendLogState → Type 0
Answers key id s = (existing : Text) × Has key existing s × (stored_id (parse existing) ≡ ok id)

-- A write that returns an id leaves the key with a text of that id.
Answers-written :
    (io : AppendOutcome) (key : Text) (fact : Fact) (b b' : AppendLogBackend) (id : FactId)
    → parse fact.id.text ≡ FactId.ok fact.id
    → write_fact_and_idempotency io key fact b ≡ some (b', ok id)
    → Answers key id b'.state
unfolding write_fact_and_idempotency stored_id Answers
Answers-written io key fact b b' id parses e =
    elim (Option-cases (Map.get key b.state.idempotency)) [
      | inl n ↦
          let (same, kept) = fresh_key io key fact b b' id n e in
          (fact.id.text, kept, rw (parses, same) refl)
      | inr (existing, p) ↦
          let (unchanged, found) = same_reply (rw (p, write_fact_and_idempotency) at e) in
          (existing, subst (λ (c : AppendLogBackend). Has key existing c.state) unchanged p, found)
    ]
  where
    same_reply :
        {r : Result FactId}
        → ◌≡◌ {A = Reply FactId} (some (b, r)) (some (b', ok id))
        → (b ≡ b') × (r ≡ ok id)
    same_reply q = (cc q, cc q)

-- Once an idempotent write has returned an id, for a fact whose id text parses back to the id,
-- every later idempotent write under that key, of any fact and with any append outcome, returns
-- the same id and leaves the backend as it is, and get_idempotency of the key returns the id.
-- Between the two may stand any number of operations of the backend, failing or not, of appends
-- whose sync fails, and of compactions.
pub write_fact_and_idempotency-Later :
    (io io' : AppendOutcome) (idempotency_key : Text) (fact later : Fact)
    (b b' c : AppendLogBackend) (id : FactId)
    → parse fact.id.text ≡ FactId.ok fact.id
    → write_fact_and_idempotency io idempotency_key fact b ≡ some (b', ok id)
    → Later b' c
    → (write_fact_and_idempotency io' idempotency_key later c ≡ some (c, ok id))
      × (get_idempotency idempotency_key c.state ≡ ok (some id))
unfolding Answers
write_fact_and_idempotency-Later io io' idempotency_key fact later b b' c id parses e l =
    let (existing, p, q) = Answers-written io idempotency_key fact b b' id parses e in
    answered io' idempotency_key later c existing id (Later-Has idempotency_key existing l p) q
