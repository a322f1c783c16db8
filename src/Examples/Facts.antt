-- ===== src/Examples/Facts.antt =====
-- Runs of the theorems on times, facts, contradictions and errors.
use kronroe.Common.{◌≡◌, refl, some, none, true, ◌&&◌, not, ◌==◌, ◌/◌, is_some}
use kronroe.Common.Int.{◌-ℤ◌}
use kronroe.Common.Text.{text_eq}
use kronroe.Float.{is_nan, lt, is_negative, abs}
use kronroe.Time.{add_span, since, num_days, days, before, not_after}
use kronroe.Fact.{number, is_currently_valid, was_valid_at}
use kronroe.Fact.Validity.{is_currently_valid-was_valid_at, IsConfidence}
use kronroe.Contradiction.{
  manual_review, Contradiction, valid_time_overlap, detect_pairwise, values_conflict,
  compute_severity, high,
}
use kronroe.Contradiction.Overlap.{covers, in_window, valid_time_overlap_moments}
use kronroe.Contradiction.Pairwise.{
  detect_pairwise_sound, detect_pairwise_complete, values_conflict_comm,
}
use kronroe.Error.{plain, ErrorKind, code, context, as_u16}
use kronroe.Error.Codes.{context_category}
use kronroe.Examples.{alice, works_at, acme, globex, at_second}

is_currently_valid-was_valid_at_example :
    was_valid_at acme (at_second 12) ≡ not_after acme.valid_from (at_second 12)
is_currently_valid-was_valid_at_example =
    is_currently_valid-was_valid_at acme (at_second 12) (unfold is_currently_valid in refl)

acme-IsConfidence : IsConfidence acme.confidence
unfolding is_nan lt abs is_negative
acme-IsConfidence = (refl, refl, refl)

valid_time_overlap_moments_example :
    in_window (valid_time_overlap acme globex) (at_second 20)
    ≡ (covers acme (at_second 20) && covers globex (at_second 20))
valid_time_overlap_moments_example =
    valid_time_overlap_moments acme globex (at_second 20) refl refl refl

values_conflict_comm_example :
    values_conflict (number 0x3ff0000000000000) (number 0x4000000000000000)
    ≡ values_conflict (number 0x4000000000000000) (number 0x3ff0000000000000)
values_conflict_comm_example =
    values_conflict_comm (number 0x3ff0000000000000) (number 0x4000000000000000)

detect_pairwise_complete_example : is_some (detect_pairwise acme globex) ≡ true
detect_pairwise_complete_example =
    detect_pairwise_complete acme globex (at_second 20) refl refl refl refl
      (unfold values_conflict text_eq in refl) refl refl refl

context_category_example :
    ((as_u16 (code (context (plain ErrorKind.not_found))) / 1000)
      == (as_u16 (code (plain ErrorKind.not_found)) / 1000))
    ≡ not (as_u16 (code (plain ErrorKind.not_found)) == 4001)
context_category_example = context_category (plain ErrorKind.not_found)

abbrev employers : Contradiction
employers = record {
  existing_fact_id = acme.id.text;
  conflicting_fact_id = globex.id.text;
  subject = alice;
  predicate = works_at;
  overlap_start = at_second 20;
  overlap_end = none;
  severity = high;
  confidence_delta = 0;
  suggested_resolution = manual_review;
}

employers_detected : detect_pairwise acme globex ≡ some employers
unfolding detect_pairwise text_eq values_conflict valid_time_overlap compute_severity abs
    kronroe.Contradiction.suggest_resolution kronroe.Float.sub kronroe.Float.ge
    kronroe.Float.is_finite kronroe.Float.signed_difference kronroe.Float.units
    kronroe.Time.num_seconds since ◌-ℤ◌
employers_detected = refl

detect_pairwise_sound_example :
    (acme.subject ≡ globex.subject)
    × (acme.predicate ≡ globex.predicate)
    × (values_conflict acme.object globex.object ≡ true)
    × (covers acme (at_second 20) ≡ true)
    × (covers globex (at_second 20) ≡ true)
detect_pairwise_sound_example =
    detect_pairwise_sound acme globex employers refl refl employers_detected
