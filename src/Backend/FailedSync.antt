-- ===== src/Backend/FailedSync.antt =====
-- A sync that reports failure after the record is written (`append_record_to_path` of
-- crates/core/src/storage_append_log.rs).
use kronroe.Common.{◌≡◌, refl, some, arith, [], ◌∷◌, ◌++◌}
use kronroe.Error.{fail, ErrorKind}
use kronroe.Log.{AppendLogRecord, AppendLogState, apply_record, replay, default}
use kronroe.Log.Invariant.{apply_record-Inv}
use kronroe.Backend.{AppendLogBackend, sync_failed, commit}
use kronroe.Backend.Durable.{Durable, replay_snoc}

-- A commit of any record on a durable backend whose append is written but whose sync fails
-- returns a storage error and leaves the state in memory as it is, while the file replays to the
-- state with the record applied.
pub commit-sync_failed {ℓ} :
    {A : Type ℓ} (r : AppendLogRecord) (value : A) (b : AppendLogBackend)
    → Durable b
    → (b' : AppendLogBackend) × (t : AppendLogState) × (commit sync_failed r value b
        ≡ some (b', fail ErrorKind.storage))
      × (b'.state ≡ b.state)
      × (apply_record b.state r ≡ some t)
      × (replay default b'.file ≡ some t)
unfolding commit
commit-sync_failed r value b d =
    let (t, p, i) = apply_record-Inv b.state r d.exact in
    (
      record b { file = b.file ++ (r ∷ []) },
      t,
      ground (arith, d.disk),
      refl,
      p,
      replay_snoc default b.state t b.file r d.replayed p,
    )
