-- ===== src/Observability/Freshness/Aging.antt =====
-- How a freshness status changes with time (observability/freshness.py).
use marketforge.Prelude.{ℕ, ◌≡◌, ◌≢◌, ◌≤◌, ◌↔◌, String, Option, none, some, arith, refl}
use marketforge.Prelude.Int.{ℤ, ◌-ℤ◌, ◌≤ℤ◌}
use marketforge.Observability.Freshness.{
  Basis, expected_market_event, source_check, event_age, FreshnessPolicy, Status, unknown, healthy,
  degraded, failed, Calendar, age_of, status_at, status_of, observed_of, reference_of, assess,
}

-- The rank of a status, from the best; no evidence is no age.
abbrev pub severity : Status → ℕ
severity unknown = 0
severity healthy = 0
severity degraded = 1
severity failed = 2

status_at_mono :
    (p : FreshnessPolicy) (a b : ℕ) → a ≤ b → severity (status_at p a) ≤ severity (status_at p b)
unfolding status_at
status_at_mono p a b h = ground arith

age_of_mono : (t u observed : ℤ) → t ≤ℤ u → age_of t observed ≤ age_of u observed
unfolding age_of ◌-ℤ◌
age_of_mono t u observed h = ground arith

status_of_mono :
    (p : FreshnessPolicy) (t u : ℤ) (observed : Option ℤ)
    → t ≤ℤ u
    → severity (status_of p t observed) ≤ severity (status_of p u observed)
unfolding status_of
status_of_mono p t u none h = omega arith
status_of_mono p t u (some o) h = status_at_mono p _ _ (age_of_mono t u o h)

status_at_known : (p : FreshnessPolicy) (a : ℕ) → status_at p a ≢ unknown
unfolding status_at
status_at_known p a h = ground arith

status_of-unknown :
    (p : FreshnessPolicy) (reference : ℤ) (observed : Option ℤ)
    → (status_of p reference observed ≡ unknown) ↔ (observed ≡ none)
unfolding status_of
status_of-unknown p reference none = (λ h. refl, λ h. refl)
status_of-unknown p reference (some o) =
    (λ h. absurd (status_at_known p (age_of reference o) h), λ h. cc)

reference_of_aging :
    (c : Calendar) (b : Basis) (t : ℤ) → b ≢ expected_market_event → reference_of c b t ≡ t
unfolding reference_of
reference_of_aging c expected_market_event t h = absurd (h refl)
reference_of_aging c source_check t h = refl
reference_of_aging c event_age t h = refl

-- For a dataset whose evidence ages with the clock, the same evidence is given, at a later time, a
-- status that is no better; and at any time the status is unknown exactly where the evidence that
-- counts is missing.
pub assess_mono :
    (c : Calendar) (dataset : String) (p : FreshnessPolicy) (t u : ℤ) (latest checked : Option ℤ)
    → p.basis ≢ expected_market_event
    → t ≤ℤ u
    → (severity (assess c dataset p t latest checked).status
        ≤ severity (assess c dataset p u latest checked).status)
      × (((assess c dataset p t latest checked).status ≡ unknown)
          ↔ (observed_of p.basis latest checked ≡ none))
unfolding assess
assess_mono c dataset p t u latest checked ages h = (
  rw (reference_of_aging c p.basis t ages, reference_of_aging c p.basis u ages)
      (status_of_mono p t u (observed_of p.basis latest checked) h),
  status_of-unknown p (reference_of c p.basis t) (observed_of p.basis latest checked),
)
