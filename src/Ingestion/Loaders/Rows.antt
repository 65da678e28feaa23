-- ===== src/Ingestion/Loaders/Rows.antt =====
-- The computations of ingestion/loaders/backfill.py on rows: the run identifier, the defaults of a
-- record, event dates and the monthly groups.
use Prim.Native.Char.{code}
use marketforge.Prelude.{
  ℕ, zero, suc, String, String_discrete, Bool, true, false, ◌&&◌, ◌||◌, none, some, List, [], ◌∷◌,
  ◌++◌, ok, err, ◌>>=◌, leb, ltb, ◌==◌, if◌then◌else◌,
}
use marketforge.Prelude.Dict.{lookup, insert}
use marketforge.Ingestion.Values.{
  Value, str, date, datetime, Datetime, day_of, attribute_error, Row, Raises,
}
use marketforge.Ingestion.Contracts.{get_item}
use marketforge.Ingestion.Loaders.Types.{Outside}

-- RUN_ID_PATTERN: ^[A-Za-z0-9][A-Za-z0-9._-]{0,127}$
pub is_id_start : ℕ → Bool
is_id_start c =
    (leb b'A' c && leb c b'Z') || (leb b'a' c && leb c b'z') || (leb b'0' c && leb c b'9')

is_id_char : ℕ → Bool
unfolding is_id_start
is_id_char c = is_id_start c || (c == b'.') || (c == b'_') || (c == b'-')

is_id_rest : ℕ → String → Bool
unfolding is_id_char
is_id_rest room String.[] = true
is_id_rest zero (String.◌∷◌ c s) = false
is_id_rest (suc room) (String.◌∷◌ c s) = is_id_char (code c) && is_id_rest room s

pub is_run_id : String → Bool
unfolding is_id_rest
is_run_id String.[] = false
is_run_id (String.◌∷◌ c s) = is_id_start (code c) && is_id_rest 127 s

-- EVENT_FIELDS
abbrev pub event_fields : List (String × String)
event_fields =
    ("prices", "date")
    ∷ ("fundamentals", "period_end")
    ∷ ("earnings", "event_timestamp")
    ∷ ("macro", "observation_date")
    ∷ ("news", "event_timestamp")
    ∷ []

-- `row.setdefault(key, value)`
pub set_default : String → Value → Row → Row
set_default key v row = elim (lookup String_discrete key row) [
  | none ↦ insert String_discrete key v row
  | some old ↦ row
]

pub enrich : Outside → String → Datetime → Row → Row
unfolding set_default
enrich o source started_at row =
    let sourced = set_default "source" (str source) row in
    let identified = set_default "source_record_id" (str (o.stable_record_id sourced)) sourced in
    set_default "ingested_at" (str (o.isoformat started_at)) identified

-- `value.date() if isinstance(value, datetime) else value`, where the year is asked of it next
pub event_date : Value → Raises ℕ
event_date (datetime t) = ok (day_of t)
event_date (date d) = ok d
event_date _ = err (attribute_error "year")

-- The event dates of the rows, in their order.
pub event_dates : String → List Row → Raises (List ℕ)
event_dates field [] = ok []
event_dates field (row ∷ rows) = do
  v ← get_item field row
  d ← event_date v
  ds ← event_dates field rows
  ok (d ∷ ds)

-- `[row[column] for column in columns]`, kept under the names of the table's columns
pub project : List String → Row → Raises Row
project [] row = ok []
project (column ∷ columns) row = do
  v ← get_item column row
  rest ← project columns row
  ok ((column, v) ∷ rest)

pub project_all : List String → List Row → Raises (List Row)
project_all columns [] = ok []
project_all columns (row ∷ rows) = do
  r ← project columns row
  rs ← project_all columns rows
  ok (r ∷ rs)

-- A (year, month) and its rows.
abbrev pub Group : Type 0
Group = ℕ × ℕ × List Row

-- `groups[(year, month)].append(row)`
pub add_to_group : ℕ × ℕ → Row → List Group → List Group
add_to_group (y, m) row [] = (y, m, row ∷ []) ∷ []
add_to_group (y, m) row ((y', m', rows) ∷ groups) =
    if (y == y') && (m == m')
    then (y', m', rows ++ row ∷ []) ∷ groups
    else (y', m', rows) ∷ add_to_group (y, m) row groups

pub group_rows : Outside → String → List Row → List Group → Raises (List Group)
group_rows o field [] groups = ok groups
group_rows o field (row ∷ rows) groups = do
  v ← get_item field row
  d ← event_date v
  group_rows o field rows (add_to_group (o.month_of d) row groups)

month_before : Group → Group → Bool
month_before (y, m, rows) (y', m', rows') = ltb y y' || ((y == y') && leb m m')

insert_group : Group → List Group → List Group
insert_group g [] = g ∷ []
insert_group g (h ∷ groups) = if month_before g h then g ∷ h ∷ groups else h ∷ insert_group g groups

-- `sorted(groups.items())`; no two groups have the same month.
pub sort_groups : List Group → List Group
unfolding insert_group month_before
sort_groups [] = []
sort_groups (g ∷ groups) = insert_group g (sort_groups groups)
