-- ===== src/Backend/Recovery.antt =====
-- crates/core/src/storage_append_log.rs: what a backend wrote, opened again after a crash.
use kronroe.Common.{◌≡◌, ◌∙◌, ap, sym, some, List, ◌∷◌, ◌++◌, All}
use kronroe.Common.Text.{Text}
use kronroe.Log.{AppendLogRecord, default, header, append_log_magic, replay}
use kronroe.Log.Load.{loaded, load_state}
use kronroe.Log.Load.Torn.{IsTorn}
use kronroe.Log.Load.Whole.{IsWritten, file_text, load_state-file_text}
use kronroe.Backend.{AppendLogBackend}
use kronroe.Backend.Steps.{Reach, created, Reach-Durable}

-- If a backend is reached from a new file by any sequence of operations whose appends succeed or
-- fail with nothing written, its file begins with the header, and the records behind the header
-- are of a known schema version with texts and numbers that are read back, then opening the
-- bytes of that file, with nothing or one torn line of bytes behind them, gives the state in
-- memory.
pub load_state-Reach :
    {b : AppendLogBackend} (rs : List AppendLogRecord) (torn : Text)
    → Reach created b
    → b.file ≡ header append_log_magic ∷ rs
    → All IsWritten rs
    → IsTorn torn
    → load_state (file_text b.file ++ torn) ≡ loaded b.state
load_state-Reach {b} rs torn r e h u =
    let (t, replayed, opened) = load_state-file_text rs torn h u in
    let same : some t ≡ some b.state =
      sym replayed ∙ ap (λ file. replay default file) (sym e) ∙ (Reach-Durable r).replayed in
    ap (λ file. load_state (file_text file ++ torn)) e ∙ opened ∙ ap (λ s. loaded s) (cc same)
