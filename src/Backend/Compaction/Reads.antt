-- ===== src/Backend/Compaction/Reads.antt =====
-- The reads of the state that a compacted log replays to
-- (crates/core/src/storage_append_log.rs, `compact`).
use mathlib.Core.Path.{subst}
use kronroe.Common.{refl, ◌≡◌, sym, ap, ◌∙◌, some, List}
use kronroe.Common.Text.{Text}
use kronroe.Common.Map
use kronroe.Common.Map.{Map}
use kronroe.Time.{KronroeTimestamp}
use kronroe.Fact.{is_currently_valid, was_valid_at}
use kronroe.Error.{Result, err, ok}
use kronroe.Storage.{subject_predicate_prefix}
use kronroe.Log.{AppendLogRecord, AppendLogState, replay, default}
use kronroe.Log.Invariant.{Inv, replay-Inv}
use kronroe.Query.{current_facts, facts_at}
use kronroe.Query.Rows.{row_at, expected, current_facts_exact}
use kronroe.Query.History.{facts_at_exact}
use kronroe.Backend.{AppendLogBackend}
use kronroe.Backend.Durable.{Durable}
use kronroe.Backend.Compaction.{
  compaction_records, compact, Replacement, replaced, not_replaced, directory_sync_failed,
}
use kronroe.Backend.Compaction.Rows.{replay-row}
use kronroe.Backend.Compaction.Records.{compaction_records-row}

-- States whose reads of facts agree, under every key of every subject, predicate and moment.
abbrev pub SameReads : AppendLogState → AppendLogState → Type 0
SameReads s t =
    (subject predicate : Text) (at : KronroeTimestamp) (key : Text)
    → (row_at key (current_facts subject predicate t).0
        ≡ row_at key (current_facts subject predicate s).0)
      × (row_at key (facts_at subject predicate at t).0
          ≡ row_at key (facts_at subject predicate at s).0)

replayed-Inv :
    (log : List AppendLogRecord) (s : AppendLogState) → replay default log ≡ some s → Inv s
replayed-Inv log s e = let (t, p, i) = replay-Inv log in subst Inv (cc (e, p)) i

same_rows-SameReads :
    (s t : AppendLogState)
    → Inv s
    → Inv t
    → ((k : Text) → Map.get k t.facts ≡ Map.get k s.facts)
    → SameReads s t
same_rows-SameReads s t hs ht rows subject predicate at key = (
  current_facts_exact subject predicate t key ht
      ∙ ap (expected is_currently_valid (subject_predicate_prefix subject predicate)) (rows key)
      ∙ sym (current_facts_exact subject predicate s key hs),
  facts_at_exact subject predicate at t key ht
      ∙ ap (expected (λ f. was_valid_at f at) (subject_predicate_prefix subject predicate))
          (rows key)
      ∙ sym (facts_at_exact subject predicate at s key hs),
)

-- The log of a compaction of a replayed state replays to a state with the same reads.
pub compaction_records-SameReads :
    (log records : List AppendLogRecord) (s : AppendLogState)
    → replay default log ≡ some s
    → compaction_records s ≡ ok records
    → (t : AppendLogState) × (replay default records ≡ some t) × SameReads s t
unfolding Map.get
compaction_records-SameReads log records s e c =
    let (t, p, i) = replay-Inv records in
    (
      t,
      p,
      same_rows-SameReads s t (replayed-Inv log s e) i (λ k.
          (replay-row default t records k p).0
          ∙ compaction_records-row s records k ((replay-row default s log k e).1 tt) c),
    )

-- A file replays to a state with the reads of the backend's.
abbrev LoadsAs : AppendLogBackend → List AppendLogRecord → Type 0
LoadsAs b file = (t : AppendLogState) × (replay default file ≡ some t) × SameReads b.state t

abbrev Reopens : AppendLogBackend → AppendLogBackend → Type 0
Reopens b b' = (b'.state ≡ b.state) × LoadsAs b b'.file

loads_unchanged : (b : AppendLogBackend) → Durable b → LoadsAs b b.file
loads_unchanged b d = (b.state, d.replayed, λ subject predicate at key. (refl, refl))

-- Compacting a durable backend, however the replacement of its file ends, leaves the state in
-- memory as it is, and a file that replays to a state in which current_facts and facts_at have
-- the same row under every key, for every subject, predicate and moment.
pub compact-SameReads :
    (io : Replacement) (b : AppendLogBackend)
    → Durable b
    → ((compact io b).0.state ≡ b.state)
      × ((t : AppendLogState) × (replay default (compact io b).0.file ≡ some t)
          × SameReads b.state t)
unfolding compact
compact-SameReads io b d = outcome (compaction_records b.state) refl io
  where
    outcome :
        (records : Result (List AppendLogRecord))
        → compaction_records b.state ≡ records
        → (how : Replacement) → Reopens b (compact how b).0
    outcome (err e) c how =
        let same : (compact how b).0.file ≡ b.file = rw (d.disk, c, compact) refl in
        (rw (d.disk, c, compact) refl, subst (LoadsAs b) (sym same) (loads_unchanged b d))
    outcome (ok l) c not_replaced =
        let same : (compact not_replaced b).0.file ≡ b.file = rw (d.disk, c, compact) refl in
        (rw (d.disk, c, compact) refl, subst (LoadsAs b) (sym same) (loads_unchanged b d))
    outcome (ok l) c replaced =
        let same : (compact replaced b).0.file ≡ l = rw (d.disk, c, compact) refl in
        (
          rw (d.disk, c, compact) refl,
          subst (LoadsAs b) (sym same) (compaction_records-SameReads b.file l b.state d.replayed c),
        )
    outcome (ok l) c directory_sync_failed =
        let same : (compact directory_sync_failed b).0.file ≡ l = rw (d.disk, c, compact) refl in
        (
          rw (d.disk, c, compact) refl,
          subst (LoadsAs b) (sym same) (compaction_records-SameReads b.file l b.state d.replayed c),
        )
