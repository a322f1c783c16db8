-- ===== src/Examples.antt =====
-- Test data: facts of two employers, a log, and the state that it replays to. The modules below it
-- run the theorems of the development on it.
mod FactIds
mod Facts
mod Reads
mod Writes
mod Texts
mod Files
mod Vectors
mod Registries
mod Pairs
mod Graphs
mod Corrections
mod Terms
use mathlib.Core.Path.{subst}
use kronroe.Common.{ℕ, ◌*◌, Option, none, some, List, [], ◌∷◌, ◌≡◌, refl, arith}
use kronroe.Common.Int.{pos}
use kronroe.Common.Text.{Text, codes}
use kronroe.Time.{KronroeTimestamp}
use kronroe.FactId
use kronroe.FactId.{parse, FactId, from_parts}
use kronroe.Fact.{Fact, text}
use kronroe.Fact
use kronroe.Storage.{fact_row_key}
use kronroe.Log.{AppendLogState, AppendLogRecord, upsert_fact, default, apply_record, replay}
use kronroe.Log.Invariant.{Inv, replay-Inv}
use kronroe.Backend.{AppendLogBackend, in_memory}
use kronroe.Contradiction
use kronroe.Contradiction.{ContradictionDetector, singleton, reject, register}
use kronroe.Graph.{TemporalGraph}

abbrev pub at_second : ℕ → KronroeTimestamp
at_second n = record { unix_micros = pos (n * 1000000) }

abbrev pub alice : Text
alice = codes "alice"

abbrev pub works_at : Text
works_at = codes "works_at"

abbrev pub first_id : FactId
first_id = record {
  bytes = 0 ∷ 0 ∷ 0 ∷ 0 ∷ 0 ∷ 0 ∷ 0 ∷ 0 ∷ 0 ∷ 0 ∷ 0 ∷ 0 ∷ 0 ∷ 0 ∷ 0 ∷ 0 ∷ [];
  text = codes "kf_00000000000000000000000000";
}

abbrev pub second_id : FactId
second_id = record {
  bytes = 0 ∷ 0 ∷ 0 ∷ 0 ∷ 0 ∷ 0 ∷ 0 ∷ 0 ∷ 0 ∷ 0 ∷ 0 ∷ 0 ∷ 0 ∷ 0 ∷ 0 ∷ 1 ∷ [];
  text = codes "kf_00000000000000000000000001";
}

pub first_parses : parse first_id.text ≡ FactId.ok first_id
unfolding parse
first_parses = refl

pub second_parses : parse second_id.text ≡ FactId.ok second_id
unfolding parse
second_parses = refl

-- `alice works_at Acme`, from second 10 on
abbrev pub acme : Fact
acme = record {
  id = first_id;
  subject = alice;
  predicate = works_at;
  object = text (codes "Acme");
  valid_from = at_second 10;
  valid_to = none;
  recorded_at = at_second 10;
  expired_at = none;
  confidence = Fact.one_f32;
  source = none;
}

-- `alice works_at Globex`, from second 20 on
abbrev pub globex : Fact
globex = record acme {
  id = second_id;
  object = text (codes "Globex");
  valid_from = at_second 20;
  recorded_at = at_second 20;
}

abbrev pub acme_key : Text
acme_key = codes "alice:works_at:kf_00000000000000000000000000"

abbrev pub globex_key : Text
globex_key = codes "alice:works_at:kf_00000000000000000000000001"

abbrev pub log : List AppendLogRecord
log = upsert_fact acme_key acme ∷ []

unfoldable pub state_or_default : Option AppendLogState → AppendLogState
state_or_default none = default
state_or_default (some s) = s

-- The state that the log replays to.
unfoldable pub loaded : AppendLogState
unfolding state_or_default replay
loaded = state_or_default (replay default log)

-- The state that is there.
pub state_or_default_lem :
    (o : Option AppendLogState) (t : AppendLogState) → o ≡ some t → t ≡ state_or_default o
unfolding state_or_default
state_or_default_lem none t e = absurd (cc e)
state_or_default_lem (some s) t e = cc e

pub loaded-Inv : Inv loaded
unfolding loaded
loaded-Inv =
    let (t, e, i) = replay-Inv log in subst Inv (state_or_default_lem (replay default log) t e) i

abbrev pub opened : AppendLogBackend
opened = record { mode = in_memory; state = loaded; file = [] }

abbrev pub one_employer : ContradictionDetector
one_employer = register Contradiction.new works_at singleton reject

abbrev pub graph : TemporalGraph
graph = record { storage = opened; contradiction_detector = one_employer }
