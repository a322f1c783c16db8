-- ===== src/Examples/Writes.antt =====
-- Runs of the theorems on writes: a second employer is written, and a key is used twice.
use kronroe.Common.{
  if◌then◌else◌, none, true, ℕ, ◌≡◌, refl, Option, some, none, List, [], ◌∷◌, arith, true, false,
  ◌&&◌, not,
}
use kronroe.Common.Text.{Text, codes, text_eq}
use kronroe.Common.Map
use kronroe.FactId.{encode_text}
use kronroe.Error.{fail, ErrorKind, Result, ok}
use kronroe.Storage.{subject_predicate_prefix, fact_row_key}
use kronroe.Log.{
  header, schema_version, append_log_magic, replay, default, insert_into_chain, AppendLogState,
  AppendLogRecord, apply_record, upsert_fact, upsert_fact_and_idempotency, default, replay,
}
use kronroe.Log.Versions.{insertion_index}
use kronroe.Query.{get_idempotency}
use kronroe.Backend.{
  sync_failed, initialize_schema, append_record, AppendLogBackend, on_disk, written, not_written,
  write_fact, commit, write_fact_and_idempotency,
}
use kronroe.Backend.Durable.{Durable}
use kronroe.Backend.Compaction.{compact, replaced}
use kronroe.Backend.Compaction.Reads.{SameReads, compact-SameReads}
use kronroe.Backend.FailedSync.{commit-sync_failed}
use kronroe.Backend.Steps.{Reach, fact_written, here, next, created, Reach-Durable}
use kronroe.Backend.Idempotent.{now, step, compacted, write_fact_and_idempotency-Later}
use kronroe.Examples.{
  second_id, second_parses, acme, globex, acme_key, globex_key, loaded, opened, state_or_default,
}

-- The state with both employers.
unfoldable both : AppendLogState
unfolding loaded state_or_default
both = state_or_default (apply_record loaded (upsert_fact globex_key globex))

abbrev two_employers : AppendLogBackend
two_employers = record opened { state = both }

globex_written : write_fact written globex opened ≡ some (two_employers, ok tt)
unfolding write_fact both commit apply_record kronroe.Log.insert_into_chain insertion_index Map.get
    Map.insert text_eq fact_row_key subject_predicate_prefix kronroe.Log.Versions.insert_at
    kronroe.Common.Text.text_lt
globex_written = refl

-- A backend whose file has a record.
abbrev saved : AppendLogBackend
saved = record { mode = on_disk; state = loaded; file = upsert_fact acme_key acme ∷ [] }

abbrev keyed_record : AppendLogRecord
keyed_record =
    upsert_fact_and_idempotency (fact_row_key globex.subject globex.predicate globex.id) globex
      (codes "k1")

unfoldable after_keyed : AppendLogState
unfolding loaded state_or_default
after_keyed = state_or_default (apply_record loaded keyed_record)

abbrev keyed : AppendLogBackend
keyed = record saved { state = after_keyed; file = upsert_fact acme_key acme ∷ keyed_record ∷ [] }

keyed_written :
    write_fact_and_idempotency written (codes "k1") globex saved ≡ some (keyed, ok second_id)
unfolding write_fact_and_idempotency after_keyed loaded state_or_default replay Map.get apply_record
    insert_into_chain insertion_index commit append_record Map.insert text_eq fact_row_key
    encode_text subject_predicate_prefix kronroe.Log.Versions.insert_at kronroe.Common.Text.text_lt
keyed_written = refl

unfoldable after_rewritten : AppendLogState
unfolding after_keyed
after_rewritten = state_or_default (apply_record after_keyed (upsert_fact acme_key acme))

abbrev rewritten : AppendLogBackend
rewritten = record keyed {
  state = after_rewritten;
  file = upsert_fact acme_key acme ∷ keyed_record ∷ upsert_fact acme_key acme ∷ [];
}

acme-rewritten : write_fact written acme keyed ≡ some (rewritten, ok tt)
unfolding write_fact after_rewritten after_keyed loaded state_or_default replay Map.get apply_record
    insert_into_chain insertion_index commit append_record Map.insert text_eq fact_row_key
    encode_text subject_predicate_prefix kronroe.Log.Versions.insert_at kronroe.Common.Text.text_lt
    kronroe.Log.remove_from_chain kronroe.Log.Versions.remove_first
acme-rewritten = refl

write_fact_and_idempotency-Later_example :
    (write_fact_and_idempotency not_written (codes "k1") acme (compact replaced rewritten).0
      ≡ some ((compact replaced rewritten).0, ok second_id))
    × (get_idempotency (codes "k1") (compact replaced rewritten).0.state ≡ ok (some second_id))
write_fact_and_idempotency-Later_example =
    write_fact_and_idempotency-Later written not_written (codes "k1") globex acme saved keyed
      (compact replaced rewritten).0 second_id second_parses keyed_written
      (compacted replaced
        (step now (fact_written written acme (ok tt) (λ e. absurd (cc e)) acme-rewritten)))

acme_failed : (x : Result (Unit {0})) × (write_fact not_written acme created ≡ some (created, x))
unfolding write_fact commit
acme_failed = (_, refl)

first_saved : write_fact written acme created ≡ some (saved, ok tt)
unfolding write_fact loaded commit apply_record kronroe.Log.insert_into_chain insertion_index
    Map.get fact_row_key
first_saved = refl

saved_reached : Reach created saved
saved_reached =
    next
      (next here (fact_written not_written acme acme_failed.0 (λ e. absurd (cc e)) acme_failed.1))
      (fact_written written acme (ok tt) (λ e. absurd (cc e)) first_saved)

Reach-Durable_example : Durable saved
Reach-Durable_example = Reach-Durable saved_reached

compact-SameReads_example :
    ((compact replaced saved).0.state ≡ saved.state)
    × ((t : AppendLogState) × (replay default (compact replaced saved).0.file ≡ some t)
        × SameReads saved.state t)
compact-SameReads_example = compact-SameReads replaced saved (Reach-Durable saved_reached)

-- A new file after its schema is written.
abbrev headed : AppendLogBackend
headed = record {
  mode = on_disk;
  state = record default { header_present = true; schema_version = some 2 };
  file = header append_log_magic ∷ schema_version 2 ∷ [];
}

schema_written : initialize_schema written written created ≡ some (headed, ok 2)
unfolding initialize_schema commit apply_record text_eq
schema_written = refl

commit-sync_failed_example :
    (b' : AppendLogBackend) × (t : AppendLogState) × (commit {A = Unit {0}} sync_failed
        (upsert_fact globex_key globex)
        tt
        saved
      ≡ some (b', fail ErrorKind.storage))
    × (b'.state ≡ saved.state)
    × (apply_record saved.state (upsert_fact globex_key globex) ≡ some t)
    × (replay default b'.file ≡ some t)
commit-sync_failed_example =
    commit-sync_failed (upsert_fact globex_key globex) tt saved (Reach-Durable saved_reached)
