-- ===== src/Observability/Freshness.antt =====
-- observability/freshness.py: how old the evidence of a dataset is, and what that makes of it.
-- Instants and durations are in microseconds. Time zones and the parsing of texts are a parameter; the
-- texts of a result, and its age in rounded hours, are left out.
pub mod Aging
use marketforge.Prelude.{
  ℕ, zero, suc, ◌+◌, ◌-◌, ◌*◌, ◌/◌, ◌%◌, ◌≤◌, ◌<◌, arith, ◌≡◌, ◌||◌, Bool, true, false, String,
  String_discrete, Option, none, some, List, [], ◌∷◌, Result, ok, err, ◌>>=◌, ◌>>◌, raise_if, ltb,
  leb, ◌==◌, ite, if◌then◌else◌,
}
use marketforge.Prelude.Dict.{lookup}
use marketforge.Prelude.Int.{ℤ, pos, pos_part, ◌-ℤ◌}
use marketforge.Ingestion.Values.{
  Datetime, naive, aware, in_range, Exception, value_error, overflow_error, Raises,
}

pub data Basis : Type 0 where
  expected_market_event source_check event_age : Basis

pub record FreshnessPolicy : Type 0 where
  pub basis : Basis
  pub degraded_after : ℕ
  pub failed_after : ℕ

pub data Status : Type 0 where
  unknown healthy degraded failed : Status

pub record FreshnessResult : Type 0 where
  pub dataset : String
  pub status : Status
  pub basis : Basis
  pub age : Option ℕ
  pub evaluated_at : ℤ
  pub latest_event_time : Option ℤ
  pub last_source_check_at : Option ℤ
  pub expected_event_time : Option ℤ

abbrev hours : ℕ → ℕ
hours n = n * 3_600_000_000

abbrev days : ℕ → ℕ
days n = n * 86_400_000_000

pub policies : List (String × FreshnessPolicy)
policies =
    (
      "prices",
      record { basis = expected_market_event; degraded_after = hours 24; failed_after = hours 48 },
    )
    ∷ (
      "fundamentals",
      record { basis = source_check; degraded_after = days 7; failed_after = days 14 },
    )
    ∷ ("earnings", record { basis = source_check; degraded_after = days 1; failed_after = days 2 })
    ∷ ("macro", record { basis = source_check; degraded_after = days 2; failed_after = days 7 })
    ∷ ("news", record { basis = event_age; degraded_after = hours 24; failed_after = hours 48 })
    ∷ []

-- A `datetime` or a text; a text of ten characters is a date.
pub data Stamp : Type 0 where
  at : Datetime → Stamp
  date_text time_text : String → Stamp

-- `fromisoformat`, and Chicago's clock: the date and the minute of the day that it shows at an
-- instant, and the instant of four in the afternoon of a date.
pub record Calendar : Type 0 where
  pub parse_date : String → Raises ℕ
  pub parse_time : String → Raises Datetime
  pub chicago_date : ℤ → ℕ
  pub chicago_minute : ℤ → ℕ
  pub chicago_close : ℕ → ℤ

-- The instant of midnight UTC of a date
midnight : ℕ → ℤ
midnight d = pos ((d - 1) * 86_400_000_000)

-- `value.astimezone(timezone.utc)`, after the test of its offset
instant_of : Datetime → Raises ℤ
instant_of (naive t) = err (value_error "freshness timestamps must be timezone-aware")
instant_of (aware t o) = if in_range t then ok t else err (overflow_error "date value out of range")

-- `_aware`
pub to_instant : Calendar → Option Stamp → Raises (Option ℤ)
unfolding instant_of midnight
to_instant c none = ok none
to_instant c (some (at t)) = do i ← instant_of t; ok (some i)
to_instant c (some (date_text s)) = do d ← c.parse_date s; ok (some (midnight d))
to_instant c (some (time_text s)) = do t ← c.parse_time s; i ← instant_of t; ok (some i)

-- `value.weekday()`: ordinal 1 is a Monday.
unfoldable pub weekday : ℕ → ℕ
weekday d = (d + 6) % 7

-- The loop of `_previous_weekday`, in so many rounds at most
pub back : ℕ → ℕ → ℕ
back zero d = d
back (suc rounds) d = let rest = back rounds (d - 1) in if leb 5 (weekday d) then rest else d

pub previous_weekday : ℕ → ℕ
previous_weekday d = back 2 d

pub expected_price_event_time : Calendar → ℤ → ℤ
expected_price_event_time c evaluated_at =
    let today = c.chicago_date evaluated_at in
    let early = leb 5 (weekday today) || ltb (c.chicago_minute evaluated_at) 975 in
    c.chicago_close (previous_weekday (if early then today - 1 else today))

-- `max(reference - observed, timedelta())`
age_of : ℤ → ℤ → ℕ
age_of reference observed = pos_part (reference -ℤ observed)

pub status_at : FreshnessPolicy → ℕ → Status
status_at p age =
    if leb p.failed_after age
    then failed
    else if leb p.degraded_after age
    then degraded
    else healthy

status_of : FreshnessPolicy → ℤ → Option ℤ → Status
unfolding age_of
status_of p reference none = unknown
status_of p reference (some observed) = status_at p (age_of reference observed)

age_if : ℤ → Option ℤ → Option ℕ
unfolding age_of
age_if reference none = none
age_if reference (some observed) = some (age_of reference observed)

-- The evidence that counts, and what it is compared with.
pub observed_of : Basis → Option ℤ → Option ℤ → Option ℤ
observed_of source_check latest checked = checked
observed_of _ latest checked = latest

reference_of : Calendar → Basis → ℤ → ℤ
reference_of c expected_market_event evaluated_at = expected_price_event_time c evaluated_at
reference_of c _ evaluated_at = evaluated_at

-- `latest`: the date of a price stands for the close of its day.
pub latest_of : Calendar → String → Option Stamp → Raises (Option ℤ)
latest_of c dataset (some (date_text s)) =
    ite (String_discrete dataset "prices") (do d ← c.parse_date s; ok (some (c.chicago_close d)))
      (to_instant c (some (date_text s)))
latest_of c dataset stamp = to_instant c stamp

policy_of : String → Raises FreshnessPolicy
policy_of dataset = elim (lookup String_discrete dataset policies) [
  | none ↦ err (value_error "unknown dataset")
  | some p ↦ ok p
]

-- The result once its instants are known; only "prices" has an expected event.
pub assess : Calendar → String → FreshnessPolicy → ℤ → Option ℤ → Option ℤ → FreshnessResult
unfolding status_of age_if observed_of reference_of
assess c dataset p evaluated_at latest checked = record {
  dataset = dataset;
  status = status_of p (reference_of c p.basis evaluated_at) (observed_of p.basis latest checked);
  basis = p.basis;
  age = age_if (reference_of c p.basis evaluated_at) (observed_of p.basis latest checked);
  evaluated_at = evaluated_at;
  latest_event_time = latest;
  last_source_check_at = checked;
  expected_event_time =
      ite (String_discrete dataset "prices") (some (expected_price_event_time c evaluated_at)) none;
}

pub evaluate_freshness :
    Calendar → String → Option Stamp → Option Stamp → Datetime → Raises FreshnessResult
unfolding policy_of instant_of
evaluate_freshness c dataset latest_event_time last_source_check_at evaluated_at = do
  p ← policy_of dataset
  now ← instant_of evaluated_at
  latest ← latest_of c dataset latest_event_time
  checked ← to_instant c last_source_check_at
  ok (assess c dataset p now latest checked)

-- From three days on, `_previous_weekday` returns a weekday, and every date after it up to the one
-- given is on a weekend.
pub previous_weekday_lem :
    (d : ℕ)
    → 3 ≤ d
    → (weekday (previous_weekday d) < 5)
      × (previous_weekday d ≤ d)
      × ((x : ℕ) → previous_weekday d < x → x ≤ d → 5 ≤ weekday x)
unfolding previous_weekday back weekday
previous_weekday_lem d h = (ground arith, ground arith, λ x l u. ground arith)
