-- ===== src/Ingestion/Values.antt =====
-- The Python values that a provider's record holds, and the exceptions of the ingestion code.
-- A finite float is the integer multiple of 2^-1074 that it stands for, so comparisons are exact.
-- A date is its ordinal; an instant is in microseconds of UTC from the start of year 1.
use marketforge.Prelude.{
  ℕ, ◌+◌, ◌/◌, ℕ_discrete, String, String_discrete, Bool, true, false, List, Result, ok, err, ltb,
  if◌then◌else◌,
}
use marketforge.Prelude.Int.{ℤ, pos, negsuc, pos_part, ◌+ℤ◌, ℤ_discrete}

pub data Float : Type 0 where
  finite : ℤ → Float
  pos_inf neg_inf nan : Float

pub data Datetime : Type 0 where
  naive : ℤ → Datetime
  aware : (instant offset : ℤ) → Datetime

-- `tzinfo is None`
abbrev pub is_naive : Datetime → Bool
is_naive (naive t) = true
is_naive (aware t o) = false

-- The instants of the years 1 to 9999
unfoldable pub in_range : ℤ → Bool
in_range (pos t) = ltb t 315_537_897_600_000_000
in_range (negsuc n) = false

-- What `astimezone(timezone.utc)` gives for an instant in range; a naive value, which it reads as local
-- time, is not passed to it.
abbrev pub to_utc : Datetime → Datetime
to_utc (naive t) = naive t
to_utc (aware t o) = aware t (pos 0)

-- `value.date()` as an ordinal: the day of the clock that the value shows.
unfoldable pub day_of : Datetime → ℕ
unfolding ◌+ℤ◌
day_of (naive t) = pos_part t / 86_400_000_000 + 1
day_of (aware t o) = pos_part (t +ℤ o) / 86_400_000_000 + 1

-- An object of another type, by its identity; lists and dicts are not hashable.
pub data Object : Type 0 where
  hashable unhashable : ℕ → Object

pub data Value : Type 0 where
  null : Value
  bool : Bool → Value
  int : ℤ → Value
  float : Float → Value
  str : String → Value
  date : ℕ → Value
  datetime : Datetime → Value
  other : Object → Value

unfoldable Object_discrete : Discrete Object
Object_discrete = hlevel ℕ_discrete

unfoldable pub Value_discrete : Discrete Value
unfolding ℤ_discrete Object_discrete
Value_discrete = hlevel (ℕ_discrete, String_discrete, ℤ_discrete, Object_discrete)

abbrev pub is_hashable : Value → Bool
is_hashable (other (unhashable n)) = false
is_hashable v = true

pub data Exception : Type 0 where
  type_error value_error overflow_error : String → Exception
  key_error attribute_error runtime_error file_not_found : String → Exception
  missing_required_field : List String → Exception
  idempotency_conflict : List Value → Exception
  file_exists partition_locked reconciliation_failed : Exception

-- `except (TypeError, ValueError, OverflowError)`; MissingRequiredFieldError is a ValueError.
abbrev pub is_value_problem : Exception → Bool
is_value_problem (type_error m) = true
is_value_problem (value_error m) = true
is_value_problem (overflow_error m) = true
is_value_problem (missing_required_field fs) = true
is_value_problem _ = false

-- A row, and a record as a provider sends it: a dict from column names.
abbrev pub Row : Type 0
Row = List (String × Value)

abbrev pub Raises : Type 0 → Type 0
Raises A = Result Exception A

-- `astimezone(timezone.utc)` of an instant
unfoldable pub astimezone : Datetime → Raises Datetime
unfolding in_range
astimezone (naive t) = ok (naive t)
astimezone (aware t o) =
    if in_range t then ok (to_utc (aware t o)) else err (overflow_error "date value out of range")
