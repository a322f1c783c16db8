-- ===== src/Backend/Keys.antt =====
-- crates/core/src/storage_append_log.rs: each operation keeps an idempotency key that is there.
use mathlib.Core.Path.{subst}
use kronroe.Common.{
  ℕ, Bool, false, ◌&&◌, not, ◌≡◌, refl, sym, ap, ◌∙◌, Option, none, some, List, is_empty, inl, inr,
  Option-cases, Bool-cases, arith,
}
use kronroe.Common.Text.{Text, text_eq, text_eq_iff}
use kronroe.Common.Map
use kronroe.Common.Map.{get-insert}
use kronroe.Fact.{Fact}
use kronroe.FactId.{FactId}
use kronroe.Contradiction.{Contradiction}
use kronroe.Error.{Result, ok, err}
use kronroe.Storage.{fact_row_key, subject_predicate_prefix}
use kronroe.Storage
use kronroe.Log.{
  AppendLogRecord, AppendLogState, header, schema_version, upsert_predicate_registry_entry,
  upsert_volatility_registry_entry, upsert_source_weight_registry_entry, upsert_fact,
  upsert_fact_and_idempotency, upsert_fact_with_embedding, replace_fact, apply_record,
  apply_fact_upsert, apply_embedding_upsert, append_log_magic,
}
use kronroe.Log.Invariant.{upsert_frame}
use kronroe.Query.{active_facts}
use kronroe.Backend.{
  AppendLogBackend, AppendOutcome, Reply, commit, write_fact_and_idempotency,
  write_fact_with_embedding, write_fact_with_contradiction_check, initialize_schema, dimension_fits,
  version_reply,
}
use kronroe.Backend.Durable.{after_header, schema_present, schema_absent}
use kronroe.Backend.Writes.{commit_ok, commit_err}

-- The key has the text in the table of the keys.
abbrev pub Has : Text → Text → AppendLogState → Type 0
Has key existing s = Map.get key s.idempotency ≡ some existing

upsert-Has :
    (key existing row : Text) (fact : Fact) (s t : AppendLogState)
    → apply_fact_upsert row fact s ≡ some t
    → Has key existing s
    → Has key existing t
upsert-Has key existing row fact s t e h =
    let (chains', p) = upsert_frame row fact s t e in
    ap (λ (u : AppendLogState). Map.get key u.idempotency) p ∙ h

-- A record that is not of the key.
abbrev pub IsOther : Text → AppendLogRecord → Type 0
IsOther key (upsert_fact_and_idempotency row fact idempotency_key) =
    text_eq idempotency_key key ≡ false
IsOther key _ = Unit

same_table :
    (key existing : Text) (s t u : AppendLogState)
    → ◌≡◌ {A = Option AppendLogState} (some u) (some t)
    → Has key existing u
    → Has key existing t
same_table key existing s t u e h = let same : u ≡ t = cc e in subst (Has key existing) same h

record-Has :
    (key existing : Text) (r : AppendLogRecord) (s t : AppendLogState)
    → IsOther key r
    → apply_record s r ≡ some t
    → Has key existing s
    → Has key existing t
unfolding apply_record apply_embedding_upsert
record-Has key existing (header magic) s t o e h = same_table key existing s t _ e h
record-Has key existing (schema_version version) s t o e h = same_table key existing s t _ e h
record-Has key existing (upsert_predicate_registry_entry predicate encoded) s t o e h =
    same_table key existing s t _ e h
record-Has key existing (upsert_volatility_registry_entry predicate encoded) s t o e h =
    same_table key existing s t _ e h
record-Has key existing (upsert_source_weight_registry_entry source encoded) s t o e h =
    same_table key existing s t _ e h
record-Has key existing (upsert_fact row fact) s t o e h = upsert-Has key existing row fact s t e h
record-Has key existing (replace_fact row fact) s t o e h = upsert-Has key existing row fact s t e h
record-Has key existing (upsert_fact_with_embedding row fact embedding) s t o e h =
    upsert-Has key existing row fact (apply_embedding_upsert fact.id embedding s) t e h
record-Has key existing (upsert_fact_and_idempotency row fact idempotency_key) s t o e h =
    upsert-Has key existing row fact
      (record s { idempotency = Map.insert idempotency_key fact.id.text s.idempotency }) t e
      (ground (arith, o, h, get-insert idempotency_key key fact.id.text s.idempotency))

module _ (key existing : Text) where
  pub commit-Has {ℓ} :
      {A : Type ℓ} (io : AppendOutcome) (r : AppendLogRecord) (value : A) (b b' : AppendLogBackend)
      (res : Result A)
      → IsOther key r
      → commit io r value b ≡ some (b', res)
      → Has key existing b.state
      → Has key existing b'.state
  commit-Has io r value b b' (ok v) o e h =
      record-Has key existing r b.state b'.state o (commit_ok io r value v b b' e).0 h
  commit-Has io r value b b' (err x) o e h =
      subst (Has key existing) (sym (commit_err io r value b b' x e)) h

  unchanged-Has {ℓ} :
      {A : Type ℓ} {b b' : AppendLogBackend} {r res : Result A}
      → ◌≡◌ {A = Reply A} (some (b, r)) (some (b', res))
      → Has key existing b.state
      → Has key existing b'.state
  unchanged-Has {A} {b} {b'} e h =
      let same : b ≡ b' = cc e in subst (λ (c : AppendLogBackend). Has key existing c.state) same h

  -- A key that is in the table is not that of a fresh write.
  other_key :
      (k : Text) (s : AppendLogState)
      → Map.get k s.idempotency ≡ none
      → Has key existing s
      → text_eq k key ≡ false
  other_key k s n h = elim (Bool-cases (text_eq k key)) [
    | inr f ↦ f
    | inl t ↦ absurd (cc (ap (λ x. Map.get x s.idempotency) ((text_eq_iff k key).0 t), n, h))
  ]

  pub idempotent-Has :
      (io : AppendOutcome) (k : Text) (fact : Fact) (b b' : AppendLogBackend) (res : Result FactId)
      → write_fact_and_idempotency io k fact b ≡ some (b', res)
      → Has key existing b.state
      → Has key existing b'.state
  unfolding write_fact_and_idempotency
  idempotent-Has io k fact b b' res e h = elim (Option-cases (Map.get k b.state.idempotency)) [
    | inl m ↦
        commit-Has io _ fact.id b b' res (other_key k b.state m h)
          (rw (m, write_fact_and_idempotency) at e) h
    | inr (x, m) ↦ unchanged-Has (rw (m, write_fact_and_idempotency) at e) h
  ]

  pub embedding-Has :
      (io : AppendOutcome) (fact : Fact) (embedding : List ℕ) (b b' : AppendLogBackend)
      (res : Result (Unit {0}))
      → write_fact_with_embedding io fact embedding b ≡ some (b', res)
      → Has key existing b.state
      → Has key existing b'.state
  unfolding write_fact_with_embedding
  embedding-Has io fact embedding b b' res e h = elim (Bool-cases (is_empty embedding)) [
    | inl m ↦ unchanged-Has (rw m at e) h
    | inr m ↦ elim (Bool-cases (dimension_fits b.state.embedding_dim embedding)) [
      | inl f ↦ commit-Has io _ tt b b' res tt (rw (m, f) at e) h
      | inr f ↦ unchanged-Has (rw (m, f) at e) h
    ]
  ]

  version-Has :
      (io : AppendOutcome) (b b' : AppendLogBackend) (res : Result ℕ)
      → version_reply io b ≡ some (b', res)
      → Has key existing b.state
      → Has key existing b'.state
  unfolding version_reply
  version-Has io b b' res e h = elim (Option-cases b.state.schema_version) [
    | inl m ↦ commit-Has io _ Storage.schema_version b b' res tt (rw (m, version_reply) at e) h
    | inr (version, m) ↦ unchanged-Has (rw (m, version_reply) at e) h
  ]

  pub schema-Has :
      (io io' : AppendOutcome) (b b' : AppendLogBackend) (res : Result ℕ)
      → initialize_schema io io' b ≡ some (b', res)
      → Has key existing b.state
      → Has key existing b'.state
  schema-Has io io' b b' res e h = elim (Bool-cases b.state.header_present) [
    | inl m ↦ version-Has io' b b' res (sym (schema_present io io' b m) ∙ e) h
    | inr m ↦
        after (commit {A = Unit {0}} io (header append_log_magic) tt b) refl
          (sym (schema_absent io io' b m) ∙ e)
  ]
    where
      after :
          (reply : Reply (Unit {0}))
          → commit {A = Unit {0}} io (header append_log_magic) tt b ≡ reply
          → after_header io' reply ≡ some (b', res)
          → Has key existing b'.state
      after none p q = absurd (cc q)
      after (some (c, ok u)) p q = version-Has io' c b' res q (commit-Has io _ tt b c (ok u) tt p h)
      after (some (c, err x)) p q =
          let same : c ≡ b' = cc q in
          subst (λ (d : AppendLogBackend). Has key existing d.state) same
            (commit-Has io _ tt b c (err x) tt p h)

  module _ (io : AppendOutcome) (subject predicate : Text) (fact : Fact) (reject : Bool)
      (check : List Fact → Result (List Contradiction)) (b b' : AppendLogBackend)
      (res : Result (List Contradiction × ℕ)) (h : Has key existing b.state) where
    pub checked-Has :
        (found : Result (List Contradiction))
        → check (active_facts (subject_predicate_prefix subject predicate) b.state) ≡ found
        → write_fact_with_contradiction_check io subject predicate fact reject check b
          ≡ some (b', res)
        → Has key existing b'.state
    unfolding write_fact_with_contradiction_check
    checked-Has (err x) m e = unchanged-Has (rw (m, write_fact_with_contradiction_check) at e) h
    checked-Has (ok cs) m e = elim (Bool-cases (reject && not (is_empty cs))) [
      | inl f ↦ unchanged-Has (rw (m, f, write_fact_with_contradiction_check) at e) h
      | inr f ↦
          commit-Has io _ _ b b' res tt (rw (m, f, write_fact_with_contradiction_check) at e) h
    ]
