-- ===== src/Backend/Schema.antt =====
-- `initialize_schema` of crates/core/src/storage_append_log.rs, called a second time.
use kronroe.Common.{
  ℕ, true, ◌≡◌, refl, sym, ◌∙◌, none, some, arith, inl, inr, Option-cases, Bool-cases,
}
use kronroe.Common.Text.{text_eq_refl}
use kronroe.Error.{ok, err}
use kronroe.Storage
use kronroe.Log.{apply_record, header, schema_version, append_log_magic}
use kronroe.Backend.{
  AppendLogBackend, AppendOutcome, Reply, commit, initialize_schema, version_reply,
}
use kronroe.Backend.Writes.{commit_ok}
use kronroe.Backend.Durable.{after_header, schema_present, schema_absent}

version_reply-state :
    (io : AppendOutcome) (b b' : AppendLogBackend) (v : ℕ)
    → version_reply io b ≡ some (b', ok v)
    → (b'.state.schema_version ≡ some v) × (b'.state.header_present ≡ b.state.header_present)
unfolding version_reply apply_record
version_reply-state io b b' v e = elim (Option-cases b.state.schema_version) [
  | inl n ↦
      let (applied, same) =
        commit_ok io (schema_version Storage.schema_version) Storage.schema_version v b b'
          (rw (n, version_reply) at e) in
      (ground (arith, applied, same), ground (arith, applied))
  | inr (version, p) ↦
      let kept : some (b, ok version) ≡ some (b', ok v) = rw (p, version_reply) at e in
      (ground (arith, p, kept), ground (arith, kept))
]

header_written :
    (io : AppendOutcome) (b b' : AppendLogBackend) (u : Unit {0})
    → commit {A = Unit {0}} io (header append_log_magic) tt b ≡ some (b', ok u)
    → b'.state.header_present ≡ true
unfolding apply_record
header_written io b b' u e =
    let (applied, same) = commit_ok io (header append_log_magic) tt u b b' e in
    ground (arith, applied, text_eq_refl append_log_magic)

settled :
    (io io' : AppendOutcome) (b : AppendLogBackend) (v : ℕ)
    → b.state.header_present ≡ true
    → b.state.schema_version ≡ some v
    → initialize_schema io io' b ≡ some (b, ok v)
unfolding version_reply
settled io io' b v h s = schema_present io io' b h ∙ ground (arith, s)

-- After initialize_schema returns a version, the header is present, and a second call, however
-- its appends would end, returns the same version and leaves the backend as it is.
pub initialize_schema_again :
    (io io' jo jo' : AppendOutcome) (b b' : AppendLogBackend) (v : ℕ)
    → initialize_schema io io' b ≡ some (b', ok v)
    → (b'.state.header_present ≡ true) × (initialize_schema jo jo' b' ≡ some (b', ok v))
initialize_schema_again io io' jo jo' b b' v e = elim (Bool-cases b.state.header_present) [
  | inl h ↦
      let (version, kept) = version_reply-state io' b b' v (sym (schema_present io io' b h) ∙ e) in
      (kept ∙ h, settled jo jo' b' v (kept ∙ h) version)
  | inr h ↦
      after (commit {A = Unit {0}} io (header append_log_magic) tt b) refl
        (sym (schema_absent io io' b h) ∙ e)
]
  where
    after :
        (reply : Reply (Unit {0}))
        → commit {A = Unit {0}} io (header append_log_magic) tt b ≡ reply
        → after_header io' reply ≡ some (b', ok v)
        → (b'.state.header_present ≡ true) × (initialize_schema jo jo' b' ≡ some (b', ok v))
    after none m f = absurd (cc f)
    after (some (c, err x)) m f = absurd (cc f)
    after (some (c, ok u)) m f =
        let (version, kept) = version_reply-state io' c b' v f in
        let present : b'.state.header_present ≡ true = kept ∙ header_written io b c u m in
        (present, settled jo jo' b' v present version)
