-- ===== src/Backend/Durable.antt =====
-- crates/core/src/storage_append_log.rs: the file of a backend, its state, and each operation
-- that writes.
use mathlib.Core.Path.{subst}
use kronroe.Common.{
  ℕ, Bool, true, false, ◌&&◌, not, ◌≡◌, ◌≢◌, sym, ◌∙◌, refl, none, some, List, [], ◌∷◌, ◌++◌, arith,
  is_empty, inl, inr, Option-cases, Bool-cases,
}
use kronroe.Common.Text.{Text}
use kronroe.Common.Map
use kronroe.Fact.{Fact}
use kronroe.FactId.{FactId}
use kronroe.Contradiction.{Contradiction}
use kronroe.Error.{Result, ok, err}
use kronroe.Storage.{subject_predicate_prefix}
use kronroe.Storage
use kronroe.Log.{
  header, append_log_magic, AppendLogRecord, AppendLogState, default, apply_record, replay,
}
use kronroe.Log.Invariant.{Inv, apply_record-Inv}
use kronroe.Query.{active_facts}
use kronroe.Backend.{
  AppendLogBackend, on_disk, AppendOutcome, written, not_written, sync_failed, Reply, commit,
  write_fact_and_idempotency, write_fact_with_embedding, write_fact_with_contradiction_check,
  initialize_schema, dimension_fits, version_reply,
}

-- A file whose replay is the state, and a state with exact indexes.
pub record Durable (b : AppendLogBackend) : Type 0 where
  pub disk : b.mode ≡ on_disk
  pub replayed : replay default b.file ≡ some b.state
  pub exact : Inv b.state

pub replay-append :
    (s : AppendLogState) (xs ys : List AppendLogRecord)
    → replay s (xs ++ ys) ≡ (elim (replay s xs) [ none ↦ none | some t ↦ replay t ys ])
unfolding replay
replay-append s [] ys = refl
replay-append s (x ∷ xs) ys = elim (Option-cases (apply_record s x)) [
  | inl n ↦ rw (n, replay)
  | inr (u, p) ↦ rw (p, replay) (replay-append u xs ys)
]

pub replay_snoc :
    (s t u : AppendLogState) (xs : List AppendLogRecord) (r : AppendLogRecord)
    → replay s xs ≡ some t
    → apply_record t r ≡ some u
    → replay s (xs ++ r ∷ []) ≡ some u
unfolding replay
replay_snoc s t u xs r e p = ground (arith, replay-append s xs (r ∷ []), p)

-- The backend after a commit that reaches the file.
abbrev committed : AppendLogRecord → AppendLogState → AppendLogBackend → AppendLogBackend
committed r t b = record b { state = t; file = b.file ++ (r ∷ []) }

committed-Durable :
    (r : AppendLogRecord) (t : AppendLogState) (b : AppendLogBackend)
    → apply_record b.state r ≡ some t
    → Inv t
    → Durable b
    → Durable (committed r t b)
committed-Durable r t b p i d = record {
  disk = d.disk;
  replayed = replay_snoc default b.state t b.file r d.replayed p;
  exact = i;
}

commit_written {ℓ} :
    {A : Type ℓ} (r : AppendLogRecord) (value : A) (t : AppendLogState) (b : AppendLogBackend)
    → b.mode ≡ on_disk
    → apply_record b.state r ≡ some t
    → commit written r value b ≡ some (committed r t b, ok value)
unfolding commit
commit_written r value t b m p = ground (arith, m, p)

commit_not_written {ℓ} :
    {A : Type ℓ} (r : AppendLogRecord) (value : A) (b b' : AppendLogBackend) (res : Result A)
    → b.mode ≡ on_disk
    → commit not_written r value b ≡ some (b', res)
    → b ≡ b'
unfolding commit
commit_not_written r value b b' res m e = ground (arith, m, e)

-- A commit keeps a backend durable, whether its append is written or fails with nothing written.
pub commit-Durable {ℓ} :
    {A : Type ℓ} (io : AppendOutcome) (r : AppendLogRecord) (value : A) (b b' : AppendLogBackend)
    (res : Result A)
    → io ≢ sync_failed
    → commit io r value b ≡ some (b', res)
    → Durable b
    → Durable b'
commit-Durable written r value b b' res n e d =
    let (t, p, i) = apply_record-Inv b.state r d.exact in
    subst Durable (ground (arith, commit_written r value t b d.disk p, e))
      (committed-Durable r t b p i d)
commit-Durable not_written r value b b' res n e d =
    subst Durable (commit_not_written r value b b' res d.disk e) d
commit-Durable sync_failed r value b b' res n e d = absurd (n refl)

unchanged {ℓ} :
    {A : Type ℓ} {b b' : AppendLogBackend} {r res : Result A}
    → ◌≡◌ {A = Reply A} (some (b, r)) (some (b', res))
    → b ≡ b'
unchanged e = cc e

pub idempotent-Durable :
    (io : AppendOutcome) (key : Text) (fact : Fact) (b b' : AppendLogBackend) (res : Result FactId)
    → io ≢ sync_failed
    → write_fact_and_idempotency io key fact b ≡ some (b', res)
    → Durable b
    → Durable b'
unfolding write_fact_and_idempotency
idempotent-Durable io key fact b b' res n e d =
    elim (Option-cases (Map.get key b.state.idempotency)) [
      | inl m ↦ commit-Durable io _ fact.id b b' res n (rw (m, write_fact_and_idempotency) at e) d
      | inr (existing, m) ↦ subst Durable (unchanged (rw (m, write_fact_and_idempotency) at e)) d
    ]

pub embedding-Durable :
    (io : AppendOutcome) (fact : Fact) (embedding : List ℕ) (b b' : AppendLogBackend)
    (res : Result (Unit {0}))
    → io ≢ sync_failed
    → write_fact_with_embedding io fact embedding b ≡ some (b', res)
    → Durable b
    → Durable b'
unfolding write_fact_with_embedding
embedding-Durable io fact embedding b b' res n e d = elim (Bool-cases (is_empty embedding)) [
  | inl m ↦ subst Durable (unchanged (rw m at e)) d
  | inr m ↦ elim (Bool-cases (dimension_fits b.state.embedding_dim embedding)) [
    | inl f ↦ commit-Durable io _ tt b b' res n (rw (m, f) at e) d
    | inr f ↦ subst Durable (unchanged (rw (m, f) at e)) d
  ]
]

module _ (io : AppendOutcome) (subject predicate : Text) (fact : Fact) (reject_on_conflict : Bool)
    (check : List Fact → Result (List Contradiction)) (b b' : AppendLogBackend)
    (res : Result (List Contradiction × ℕ)) (n : io ≢ sync_failed) (d : Durable b) where
  pub checked_result :
      (found : Result (List Contradiction))
      → check (active_facts (subject_predicate_prefix subject predicate) b.state) ≡ found
      → write_fact_with_contradiction_check io subject predicate fact reject_on_conflict check b
        ≡ some (b', res)
      → Durable b'
  unfolding write_fact_with_contradiction_check
  checked_result (err x) m e =
      subst Durable (unchanged (rw (m, write_fact_with_contradiction_check) at e)) d
  checked_result (ok cs) m e = elim (Bool-cases (reject_on_conflict && not (is_empty cs))) [
    | inl f ↦ subst Durable (unchanged (rw (m, f, write_fact_with_contradiction_check) at e)) d
    | inr f ↦
        commit-Durable io _ _ b b' res n (rw (m, f, write_fact_with_contradiction_check) at e) d
  ]

version-Durable :
    (io : AppendOutcome) (b b' : AppendLogBackend) (res : Result ℕ)
    → io ≢ sync_failed
    → version_reply io b ≡ some (b', res)
    → Durable b
    → Durable b'
unfolding version_reply
version-Durable io b b' res n e d = elim (Option-cases b.state.schema_version) [
  | inl m ↦ commit-Durable io _ Storage.schema_version b b' res n (rw (m, version_reply) at e) d
  | inr (version, m) ↦ subst Durable (unchanged (rw (m, version_reply) at e)) d
]

abbrev pub after_header : AppendOutcome → Reply (Unit {0}) → Reply ℕ
after_header io' none = none
after_header io' (some (c, ok _)) = version_reply io' c
after_header io' (some (c, err x)) = some (c, err x)

pub schema_present :
    (io io' : AppendOutcome) (b : AppendLogBackend)
    → b.state.header_present ≡ true
    → initialize_schema io io' b ≡ version_reply io' b
unfolding initialize_schema
schema_present io io' b m = ground (arith, m)

pub schema_absent :
    (io io' : AppendOutcome) (b : AppendLogBackend)
    → b.state.header_present ≡ false
    → initialize_schema io io' b
      ≡ after_header io' (commit {A = Unit {0}} io (header append_log_magic) tt b)
unfolding initialize_schema
schema_absent io io' b m = ground (arith, m)

pub schema-Durable :
    (io io' : AppendOutcome) (b b' : AppendLogBackend) (res : Result ℕ)
    → io ≢ sync_failed
    → io' ≢ sync_failed
    → initialize_schema io io' b ≡ some (b', res)
    → Durable b
    → Durable b'
schema-Durable io io' b b' res n n' e d = elim (Bool-cases b.state.header_present) [
  | inl m ↦ version-Durable io' b b' res n' (sym (schema_present io io' b m) ∙ e) d
  | inr m ↦
      after (commit {A = Unit {0}} io (header append_log_magic) tt b) refl
        (sym (schema_absent io io' b m) ∙ e)
]
  where
    after :
        (reply : Reply (Unit {0}))
        → commit {A = Unit {0}} io (header append_log_magic) tt b ≡ reply
        → after_header io' reply ≡ some (b', res)
        → Durable b'
    after none m f = absurd (cc f)
    after (some (c, ok u)) m f =
        version-Durable io' c b' res n' f
          (commit-Durable io (header append_log_magic) tt b c (ok u) n m d)
    after (some (c, err x)) m f =
        subst Durable (unchanged f)
          (commit-Durable io (header append_log_magic) tt b c (err x) n m d)
