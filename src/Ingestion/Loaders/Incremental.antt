-- ===== src/Ingestion/Loaders/Incremental.antt =====
-- ingestion/loaders/incremental.py: the fetch window, the selection of the records in it, and a run
-- of the backfill engine that moves the checkpoint. A date is its ordinal; `date.min` is 1 and
-- `date.max` is 3652059.
pub mod Window
use marketforge.Prelude.{
  ℕ, zero, suc, ◌+◌, ◌-◌, ◌≤◌, String, String_discrete, Bool, true, false, ◌&&◌, Option, none, some,
  List, [], ◌∷◌, ◌++◌, map, ok, err, ◌>>=◌, length, filter, ite, ltb, leb, if◌then◌else◌,
}
use marketforge.Prelude.Dict.{lookup}
use marketforge.Prelude.Int.{ℤ, pos, negsuc}
use marketforge.Ingestion.Values.{
  Value, null, Datetime, day_of, Exception, value_error, overflow_error, is_value_problem, Row,
  Raises,
}
use marketforge.Ingestion.Contracts.{Contract}

abbrev pub date_max : ℕ
date_max = 3652059

-- `checkpoint_date + timedelta(days=1)`
next_day : ℕ → Raises ℕ
next_day d = if ltb d date_max then ok (d + 1) else err (overflow_error "date value out of range")

-- `checkpoint_date - timedelta(days=n)`
days_before : ℕ → ℕ → Raises ℕ
days_before d n = if ltb n d then ok (d - n) else err (overflow_error "date value out of range")

-- The start of the window; `overlap_days` is not negative.
window_start : Option ℕ → Option ℕ → ℕ → Raises ℕ
unfolding next_day days_before
window_start (some checkpoint) initial zero = next_day checkpoint
window_start (some checkpoint) initial (suc n) = days_before checkpoint n
window_start none (some initial) n = ok initial
window_start none none n = err (value_error "initial_start is required when no checkpoint exists")

-- `through < fetch_from and checkpoint_date is None`
is_reversed : Option ℕ → ℕ → ℕ → Bool
is_reversed none through from = ltb through from
is_reversed (some c) through from = false

check_order : Option ℕ → ℕ → ℕ → Raises (ℕ × ℕ)
unfolding is_reversed
check_order checkpoint through from =
    if is_reversed checkpoint through from
    then err (value_error "through date must not precede fetch start")
    else ok (from, through)

pub calculate_fetch_window : Option ℕ → Option ℕ → ℕ → ℤ → Raises (ℕ × ℕ)
unfolding window_start check_order
calculate_fetch_window checkpoint initial through (negsuc n) =
    err (value_error "overlap_days must be non-negative")
calculate_fetch_window checkpoint initial through (pos n) =
    window_start checkpoint initial n >>= check_order checkpoint through

-- `(field, *(alias for alias, target in contract.aliases.items() if target == field))`
aliases_of : String → List (String × String) → List String
aliases_of field [] = []
aliases_of field ((alias, target) ∷ rest) =
    let more = aliases_of field rest in ite (String_discrete target field) (alias ∷ more) more

pub candidates : Contract → String → List String
unfolding aliases_of
candidates c field = field ∷ aliases_of field c.aliases

-- `next((row[name] for name in candidates if name in row), None)`
pub first_present : List String → Row → Option Value
first_present [] row = none
first_present (name ∷ names) row = elim (lookup String_discrete name row) [
  | none ↦ first_present names row
  | some v ↦ some v
]

-- The normalisers `utc_datetime(value).date()` and `iso_date`, which parse texts.
pub record DateParsers : Type 0 where
  pub utc_day : Value → Raises ℕ
  pub iso_day : Value → Raises ℕ

parse_event : DateParsers → String → Option Value → Raises ℕ
parse_event parsers field none = err (value_error "record has no event field")
parse_event parsers field (some null) = err (value_error "record has no event field")
parse_event parsers field (some v) =
    ite (String_discrete field "event_timestamp") (parsers.utc_day v) (parsers.iso_day v)

pub event_date : DateParsers → Contract → String → Row → Raises ℕ
unfolding parse_event
event_date parsers c field row = parse_event parsers field (first_present (candidates c field) row)

-- A record that has no readable event date is kept, for the contract to quarantine.
pub within : ℕ → ℕ → Raises ℕ → Raises Bool
within from through (ok d) = ok (leb from d && leb d through)
within from through (err e) = if is_value_problem e then ok true else err e

pub in_window : DateParsers → Contract → String → ℕ → ℕ → Row → Raises Bool
unfolding within
in_window parsers c field from through row = within from through (event_date parsers c field row)

pub select : DateParsers → Contract → String → ℕ → ℕ → List Row → Raises (List Row)
select parsers c field from through [] = ok []
select parsers c field from through (row ∷ rows) = do
  inside ← in_window parsers c field from through row
  rest ← select parsers c field from through rows
  ok (if inside then row ∷ rest else rest)
