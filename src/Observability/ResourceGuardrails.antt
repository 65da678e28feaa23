-- ===== src/Observability/ResourceGuardrails.antt =====
-- observability/resource_guardrails.py: whether a projected write keeps the configured limits. The
-- measured sizes and the limits of the budget, in bytes, are arguments.
use marketforge.Prelude.{
  ℕ, ◌+◌, ◌*◌, ◌/◌, ◌≡◌, ◌↔◌, Bool, true, false, not, ◌&&◌, ◌||◌, List, [], ◌∷◌, ◌++◌, Result, ok,
  err, ◌>>=◌, arith, if◌then◌else◌,
}
use marketforge.Prelude.Int.{ℤ, pos, ◌+ℤ◌, ◌-ℤ◌, ◌≤ℤ◌, ltb_ℤ, leb_ℤ}

pub data Status : Type 0 where
  safe warning blocked : Status

pub data Reason : Type 0 where
  project_limit raw_limit free_reserve project_warning : Reason

-- The thresholds of the budget.
pub record Limits : Type 0 where
  pub warning : ℤ
  pub hard : ℤ
  pub minimum_free : ℤ
  pub raw : ℤ

-- What `tree_size` and `disk_usage` measure.
pub record Usage : Type 0 where
  pub project : ℤ
  pub raw : ℤ
  pub free : ℤ

pub record StorageAssessment : Type 0 where
  pub status : Status
  pub usage : Usage
  pub projected_write : ℤ
  pub projected_project : ℤ
  pub projected_raw : ℤ
  pub limits : Limits
  pub reasons : List Reason

-- The lengths of the rows' JSON, summed
sum_of : {A : Type 0} → (A → ℕ) → List A → ℕ
sum_of size [] = 0
sum_of size (row ∷ rows) = size row + sum_of size rows

-- `int(sum(…) * 1.25)`, where no float of the product is rounded
pub estimate_records : {A : Type 0} → (A → ℕ) → List A → ℕ
unfolding sum_of
estimate_records json_bytes records = sum_of json_bytes records * 5 / 4

pub data GuardrailError : Type 0 where
  negative_write invalid_limits : GuardrailError
  resource_limit_exceeded : List Reason → GuardrailError

-- `not 0 < warning <= hard or minimum_free < 0 or raw_limit <= 0`
unfoldable pub are_invalid : Limits → Bool
are_invalid l =
    not (ltb_ℤ (pos 0) l.warning && leb_ℤ l.warning l.hard)
    || ltb_ℤ l.minimum_free (pos 0)
    || leb_ℤ l.raw (pos 0)

reason_if : Bool → Reason → List Reason
reason_if test r = if test then r ∷ [] else []

hard_reasons : Limits → Usage → ℤ → List Reason
unfolding reason_if
hard_reasons l u write =
    reason_if (ltb_ℤ l.hard (u.project +ℤ write)) project_limit
    ++ (reason_if (ltb_ℤ l.raw (u.raw +ℤ write)) raw_limit
        ++ reason_if (ltb_ℤ (u.free -ℤ write) l.minimum_free) free_reserve)

warning_reasons : Limits → Usage → ℤ → List Reason
unfolding reason_if
warning_reasons l u write = reason_if (ltb_ℤ l.warning (u.project +ℤ write)) project_warning

status_of : List Reason → List Reason → Status
status_of (r ∷ hard) warned = blocked
status_of [] (r ∷ warned) = warning
status_of [] [] = safe

-- `tuple(hard_reasons or warning_reasons)`
or_else : List Reason → List Reason → List Reason
or_else [] warned = warned
or_else (r ∷ hard) warned = r ∷ hard

-- The `StorageAssessment` that `assess_storage` returns.
assessment : Limits → Usage → ℤ → StorageAssessment
unfolding hard_reasons warning_reasons status_of or_else
assessment l u write = record {
  status = status_of (hard_reasons l u write) (warning_reasons l u write);
  usage = u;
  projected_write = write;
  projected_project = u.project +ℤ write;
  projected_raw = u.raw +ℤ write;
  limits = l;
  reasons = or_else (hard_reasons l u write) (warning_reasons l u write);
}

pub assess_storage : Limits → Usage → ℤ → Result GuardrailError StorageAssessment
unfolding assessment are_invalid
assess_storage l u write =
    if ltb_ℤ write (pos 0)
    then err negative_write
    else if are_invalid l
    then err invalid_limits
    else ok (assessment l u write)

-- The assessment, unless it is blocked.
unless_blocked : StorageAssessment → Status → Result GuardrailError StorageAssessment
unless_blocked a blocked = err (resource_limit_exceeded a.reasons)
unless_blocked a _ = ok a

pub enforce_storage : Limits → Usage → ℤ → Result GuardrailError StorageAssessment
unfolding unless_blocked
enforce_storage l u write = do a ← assess_storage l u write; unless_blocked a a.status

-- A write of no negative size under limits in order is let through exactly when the project and the
-- raw data stay within their limits and the reserve of free disk is kept; and then its status is a
-- warning exactly when the project would pass the warning threshold.
pub enforce_storage_iff :
    (l : Limits) (u : Usage) (write : ℤ)
    → pos 0 ≤ℤ write
    → are_invalid l ≡ false
    → (((a : StorageAssessment) × (enforce_storage l u write ≡ ok a)) ↔ (
        (u.project +ℤ write ≤ℤ l.hard)
        × (u.raw +ℤ write ≤ℤ l.raw)
        × (l.minimum_free ≤ℤ u.free -ℤ write)))
      × ((a : StorageAssessment)
          → enforce_storage l u write ≡ ok a
          → (a.status ≡ warning) ↔ (ltb_ℤ l.warning (u.project +ℤ write) ≡ true))
unfolding enforce_storage assess_storage hard_reasons warning_reasons status_of or_else
    unless_blocked reason_if
enforce_storage_iff l u write size valid = (
  (
    λ (a, e). (ground arith, ground arith, ground arith),
    λ (h, r, f). (assessment l u write, ground arith),
  ),
  λ a e. (λ w. ground arith, λ w. ground arith),
)

pub enforce_storage-valid :
    (l : Limits) (u : Usage) (write : ℤ) (a : StorageAssessment)
    → enforce_storage l u write ≡ ok a
    → are_invalid l ≡ false
unfolding enforce_storage assess_storage
enforce_storage-valid l u write a h = ground arith
