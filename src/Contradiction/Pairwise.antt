-- ===== src/Contradiction/Pairwise.antt =====
-- crates/core/src/contradiction.rs: what `detect_pairwise` reports, and the severity.
use kronroe.Common.{true, not, ◌≡◌, refl, ap, Option, none, some, arith, is_some}
use kronroe.Common.Int.{◌≤ℤ◌}
use kronroe.Common.Text.{Text, text_eq, text_eq_iff}
use kronroe.Float.{f64, lt}
use kronroe.Float.Difference.{abs-sub_comm, f64-IsFormat}
use kronroe.Time.{KronroeTimestamp, max_timestamp, before, i64_max}
use kronroe.Fact.{Value, text, number, boolean, entity, Fact}
use kronroe.Contradiction.{
  Window, Contradiction, end_of, valid_time_overlap, values_conflict, compute_severity, high,
  detect_pairwise, contradiction_of, epsilon,
}
use kronroe.Contradiction.Overlap.{covers, valid_time_overlap_moments}

text_eq_comm : (a b : Text) → text_eq a b ≡ text_eq b a
text_eq_comm a b = ground (arith, text_eq_iff a b, text_eq_iff b a)

-- Whether two values conflict does not depend on their order, NaN and infinities included.
pub values_conflict_comm : (a b : Value) → values_conflict a b ≡ values_conflict b a
unfolding values_conflict
values_conflict_comm (text x) (text y) = ap not (text_eq_comm x y)
values_conflict_comm (number x) (number y) = ap (lt f64 epsilon) (abs-sub_comm f64 f64-IsFormat x y)
values_conflict_comm (boolean x) (boolean y) = ground arith
values_conflict_comm (entity x) (entity y) = ap not (text_eq_comm x y)
values_conflict_comm (text x) (number y) = refl
values_conflict_comm (text x) _ = refl
values_conflict_comm (number x) (text y) = refl
values_conflict_comm (number x) _ = refl
values_conflict_comm (boolean x) (text y) = refl
values_conflict_comm (boolean x) _ = refl
values_conflict_comm (entity x) (text y) = refl
values_conflict_comm (entity x) _ = refl

overlaps_comm : (a b : Fact) → is_some (valid_time_overlap a b) ≡ is_some (valid_time_overlap b a)
unfolding valid_time_overlap
overlaps_comm a b = ground arith

-- A pair of facts is reported as a contradiction in one order exactly if it is in the other.
pub detect_pairwise_comm :
    (a b : Fact) → is_some (detect_pairwise a b) ≡ is_some (detect_pairwise b a)
unfolding detect_pairwise
detect_pairwise_comm a b = ground (
  arith,
  text_eq_comm a.subject b.subject,
  text_eq_comm a.predicate b.predicate,
  values_conflict_comm a.object b.object,
  overlaps_comm a b,
)

-- The start of an overlap lies in both windows, if they are not empty.
overlap_start :
    (a b : Fact) (start : KronroeTimestamp) (end : Option KronroeTimestamp)
    → before a.valid_from (end_of a) ≡ true
    → before b.valid_from (end_of b) ≡ true
    → valid_time_overlap a b ≡ some (start, end)
    → (covers a start ≡ true) × (covers b start ≡ true)
unfolding valid_time_overlap
overlap_start a b start end ha hb e = (ground arith, ground arith)

contradiction_parts :
    (a b : Fact) (o : Option Window) (c : Contradiction)
    → contradiction_of a b o ≡ some c
    → (end : Option KronroeTimestamp) × (o ≡ some (c.overlap_start, end))
unfolding contradiction_of
contradiction_parts a b none c e = absurd (cc e)
contradiction_parts a b (some (start, end)) c e = (end, ground arith)

detect_parts :
    (a b : Fact) (c : Contradiction)
    → detect_pairwise a b ≡ some c
    → (a.subject ≡ b.subject)
      × (a.predicate ≡ b.predicate)
      × (values_conflict a.object b.object ≡ true)
      × (contradiction_of a b (valid_time_overlap a b) ≡ some c)
unfolding detect_pairwise
detect_parts a b c e =
    ground (arith, text_eq_iff a.subject b.subject, text_eq_iff a.predicate b.predicate)

-- If two facts with non-empty windows are reported as a contradiction, they have one subject and
-- predicate and conflicting values, and the start of the reported overlap lies in both windows.
pub detect_pairwise_sound :
    (a b : Fact) (c : Contradiction)
    → before a.valid_from (end_of a) ≡ true
    → before b.valid_from (end_of b) ≡ true
    → detect_pairwise a b ≡ some c
    → (a.subject ≡ b.subject)
      × (a.predicate ≡ b.predicate)
      × (values_conflict a.object b.object ≡ true)
      × (covers a c.overlap_start ≡ true)
      × (covers b c.overlap_start ≡ true)
detect_pairwise_sound a b c ha hb e =
    let (es, ep, ev, eo) = detect_parts a b c e in
    let (end, w) = contradiction_parts a b (valid_time_overlap a b) c eo in
    let (ca, cb) = overlap_start a b c.overlap_start end ha hb w in (es, ep, ev, ca, cb)

-- Two unexpired facts of one subject and predicate with conflicting values, whose windows share
-- a moment before the last timestamp, are reported as a contradiction.
pub detect_pairwise_complete :
    (a b : Fact) (t : KronroeTimestamp)
    → a.expired_at ≡ none
    → b.expired_at ≡ none
    → a.subject ≡ b.subject
    → a.predicate ≡ b.predicate
    → values_conflict a.object b.object ≡ true
    → before t max_timestamp ≡ true
    → covers a t ≡ true
    → covers b t ≡ true
    → is_some (detect_pairwise a b) ≡ true
unfolding detect_pairwise
detect_pairwise_complete a b t ea eb es ep ev h ca cb = ground (
  arith,
  text_eq_iff a.subject b.subject,
  text_eq_iff a.predicate b.predicate,
  valid_time_overlap_moments a b t ea eb h,
)

-- The severity of an overlap with no end, between facts whose ends are within range, is High.
pub compute_severity_open :
    (a b : Fact) (start : KronroeTimestamp)
    → (end_of a).unix_micros ≤ℤ i64_max
    → (end_of b).unix_micros ≤ℤ i64_max
    → valid_time_overlap a b ≡ some (start, none)
    → compute_severity a b (start, none) ≡ high
unfolding valid_time_overlap compute_severity
compute_severity_open a b start ha hb e = ground arith
