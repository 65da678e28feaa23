-- ===== src/Observability/Tests.antt =====
-- A write that fits, with a warning (observability/resource_guardrails.py), and news that grow old
-- (observability/freshness.py).
use marketforge.Prelude.{ℕ, ◌<◌, ◌≤◌, ◌≢◌, some, none, ◌≡◌, refl, ◌↔◌, true, false, ok, arith}
use marketforge.Prelude.Int.{pos, ◌+ℤ◌, ◌-ℤ◌, ◌≤ℤ◌, ltb_ℤ}
use marketforge.Ingestion.Values.{aware}
use marketforge.Observability.Freshness.{
  Calendar, FreshnessPolicy, event_age, expected_market_event, unknown, assess, observed_of,
  weekday, previous_weekday, previous_weekday_lem,
}
use marketforge.Observability.Freshness.Aging.{severity, assess_mono}
use marketforge.Observability.ResourceGuardrails.{
  Limits, Usage, StorageAssessment, warning, are_invalid, enforce_storage, enforce_storage_iff,
}

abbrev limits : Limits
limits = record { warning = pos 80; hard = pos 100; minimum_free = pos 10; raw = pos 60 }

abbrev usage : Usage
usage = record { project = pos 70; raw = pos 30; free = pos 40 }

limits-valid : are_invalid limits ≡ false
unfolding are_invalid
limits-valid = refl

enforce_storage_iff_example :
    (((a : StorageAssessment) × (enforce_storage limits usage (pos 20) ≡ ok a)) ↔ (
      (usage.project +ℤ pos 20 ≤ℤ limits.hard)
      × (usage.raw +ℤ pos 20 ≤ℤ limits.raw)
      × (limits.minimum_free ≤ℤ usage.free -ℤ pos 20)))
    × ((a : StorageAssessment)
        → enforce_storage limits usage (pos 20) ≡ ok a
        → (a.status ≡ warning) ↔ (ltb_ℤ limits.warning (usage.project +ℤ pos 20) ≡ true))
enforce_storage_iff_example = enforce_storage_iff limits usage (pos 20) (omega arith) limits-valid

abbrev calendar : Calendar
calendar = record {
  parse_date = λ s. ok 739617;
  parse_time = λ s. ok (aware (pos 0) (pos 0));
  chicago_date = λ t. 739617;
  chicago_minute = λ t. 600;
  chicago_close = λ d. pos 0;
}

abbrev news : FreshnessPolicy
news = record { basis = event_age; degraded_after = 24; failed_after = 48 }

event_age-differs : event_age ≢ expected_market_event
event_age-differs h = cc h

assess_mono_example :
    (severity (assess calendar "news" news (pos 30) (some (pos 2)) none).status
      ≤ severity (assess calendar "news" news (pos 60) (some (pos 2)) none).status)
    × (((assess calendar "news" news (pos 30) (some (pos 2)) none).status ≡ unknown)
        ↔ (observed_of news.basis (some (pos 2)) none ≡ none))
assess_mono_example =
    assess_mono calendar "news" news (pos 30) (pos 60) (some (pos 2)) none event_age-differs
      (omega arith)

previous_weekday_lem_example :
    (weekday (previous_weekday 739619) < 5)
    × (previous_weekday 739619 ≤ 739619)
    × ((x : ℕ) → previous_weekday 739619 < x → x ≤ 739619 → 5 ≤ weekday x)
previous_weekday_lem_example = previous_weekday_lem 739619 (omega arith)
