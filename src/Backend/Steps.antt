-- ===== src/Backend/Steps.antt =====
-- The operations of `AppendLogBackend` (crates/core/src/storage_append_log.rs) as a step relation on
-- the backend, and what its reachable states keep.
use kronroe.Common.{ℕ, Bool, ◌≡◌, ◌≢◌, refl, some, List, []}
use kronroe.Common.Text.{Text}
use kronroe.Fact.{Fact}
use kronroe.FactId.{FactId}
use kronroe.Contradiction.{Contradiction}
use kronroe.Error.{Result}
use kronroe.Log.{default, replay}
use kronroe.Log.Invariant.{default-Inv}
use kronroe.Backend.{
  AppendLogBackend, on_disk, AppendOutcome, sync_failed, write_fact, replace_fact_row,
  write_predicate_registry_entry, write_volatility_registry_entry,
  write_source_weight_registry_entry, write_fact_and_idempotency, write_fact_with_embedding,
  write_fact_with_contradiction_check, initialize_schema,
}
use kronroe.Backend.Durable.{
  Durable, commit-Durable, idempotent-Durable, embedding-Durable, checked_result, schema-Durable,
}

-- An operation of the backend, the outcomes of its appends other than a failed sync.
pub data Step : AppendLogBackend → AppendLogBackend → Type 0 where
  fact_written :
      (io : AppendOutcome) (fact : Fact) {b b' : AppendLogBackend} (res : Result (Unit {0}))
      → io ≢ sync_failed
      → write_fact io fact b ≡ some (b', res)
      → Step b b'
  row_replaced :
      (io : AppendOutcome) (key : Text) (fact : Fact) {b b' : AppendLogBackend}
      (res : Result (Unit {0}))
      → io ≢ sync_failed
      → replace_fact_row io key fact b ≡ some (b', res)
      → Step b b'
  predicate_registered :
      (io : AppendOutcome) (predicate encoded : Text) {b b' : AppendLogBackend}
      (res : Result (Unit {0}))
      → io ≢ sync_failed
      → write_predicate_registry_entry io predicate encoded b ≡ some (b', res)
      → Step b b'
  volatility_registered :
      (io : AppendOutcome) (predicate encoded : Text) {b b' : AppendLogBackend}
      (res : Result (Unit {0}))
      → io ≢ sync_failed
      → write_volatility_registry_entry io predicate encoded b ≡ some (b', res)
      → Step b b'
  source_registered :
      (io : AppendOutcome) (source encoded : Text) {b b' : AppendLogBackend}
      (res : Result (Unit {0}))
      → io ≢ sync_failed
      → write_source_weight_registry_entry io source encoded b ≡ some (b', res)
      → Step b b'
  idempotent_written :
      (io : AppendOutcome) (idempotency_key : Text) (fact : Fact) {b b' : AppendLogBackend}
      (res : Result FactId)
      → io ≢ sync_failed
      → write_fact_and_idempotency io idempotency_key fact b ≡ some (b', res)
      → Step b b'
  embedding_written :
      (io : AppendOutcome) (fact : Fact) (embedding : List ℕ) {b b' : AppendLogBackend}
      (res : Result (Unit {0}))
      → io ≢ sync_failed
      → write_fact_with_embedding io fact embedding b ≡ some (b', res)
      → Step b b'
  checked_written :
      (io : AppendOutcome) (subject predicate : Text) (fact : Fact) (reject_on_conflict : Bool)
      (check : List Fact → Result (List Contradiction)) {b b' : AppendLogBackend}
      (res : Result (List Contradiction × ℕ))
      → io ≢ sync_failed
      → write_fact_with_contradiction_check io subject predicate fact reject_on_conflict check b
        ≡ some (b', res)
      → Step b b'
  schema_initialized :
      (io io' : AppendOutcome) {b b' : AppendLogBackend} (res : Result ℕ)
      → io ≢ sync_failed
      → io' ≢ sync_failed
      → initialize_schema io io' b ≡ some (b', res)
      → Step b b'

pub data Reach (b : AppendLogBackend) : AppendLogBackend → Type 0 where
  here : Reach b b
  next : {c d : AppendLogBackend} → Reach b c → Step c d → Reach b d

-- Every operation of the backend, failing or not, keeps it durable.
pub Step-Durable : {b b' : AppendLogBackend} → Step b b' → Durable b → Durable b'
unfolding write_fact replace_fact_row write_predicate_registry_entry write_volatility_registry_entry
    write_source_weight_registry_entry
Step-Durable {b} {b'} (fact_written io fact res n e) d = commit-Durable io _ tt b b' res n e d
Step-Durable {b} {b'} (row_replaced io key fact res n e) d = commit-Durable io _ tt b b' res n e d
Step-Durable {b} {b'} (predicate_registered io predicate encoded res n e) d =
    commit-Durable io _ tt b b' res n e d
Step-Durable {b} {b'} (volatility_registered io predicate encoded res n e) d =
    commit-Durable io _ tt b b' res n e d
Step-Durable {b} {b'} (source_registered io source encoded res n e) d =
    commit-Durable io _ tt b b' res n e d
Step-Durable {b} {b'} (idempotent_written io key fact res n e) d =
    idempotent-Durable io key fact b b' res n e d
Step-Durable {b} {b'} (embedding_written io fact embedding res n e) d =
    embedding-Durable io fact embedding b b' res n e d
Step-Durable {b} {b'} (checked_written io subject predicate fact reject check res n e) d =
    checked_result io subject predicate fact reject check b b' res n d _ refl e
Step-Durable {b} {b'} (schema_initialized io io' res n n' e) d =
    schema-Durable io io' b b' res n n' e d

-- A backend that was opened on a new file.
abbrev pub created : AppendLogBackend
created = record { mode = on_disk; state = default; file = [] }

created-Durable : Durable created
unfolding replay
created-Durable = record { disk = refl; replayed = refl; exact = default-Inv }

-- From a backend opened on a new file, after any sequence of writes, registry entries,
-- idempotent, embedding and checked writes and schema initialisations whose appends succeed or
-- fail with nothing written, replaying the file from the empty state gives the state in memory,
-- and the indexes of that state are exact.
pub Reach-Durable : {b : AppendLogBackend} → Reach created b → Durable b
Reach-Durable here = created-Durable
Reach-Durable (next r st) = Step-Durable st (Reach-Durable r)
