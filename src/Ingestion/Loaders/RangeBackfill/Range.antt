-- ===== src/Ingestion/Loaders/RangeBackfill/Range.antt =====
-- `select_range` of scripts/backfill.py.
use marketforge.Prelude.{
  ℕ, String, String_discrete, none, some, List, [], ◌∷◌, ok, err, ◌>>=◌, ltb, if◌then◌else◌,
}
use marketforge.Prelude.Dict.{lookup}
use marketforge.Ingestion.Values.{value_error, key_error, Row, Raises}
use marketforge.Ingestion.Contracts.{Contract}
use marketforge.Ingestion.Loaders.Rows.{event_fields}
use marketforge.Ingestion.Loaders.Incremental.{DateParsers, event_date, within}

-- `event_date(dataset, row)` of ingestion/loaders/incremental.py, its two look-ups in front
pub dated : DateParsers → List (String × Contract) → String → Row → Raises ℕ
dated parsers contracts dataset row = elim (lookup String_discrete dataset contracts) [
  | none ↦ err (key_error dataset)
  | some c ↦ elim (lookup String_discrete dataset event_fields) [
    | none ↦ err (key_error dataset)
    | some field ↦ event_date parsers c field row
  ]
]

pub select_rows :
    DateParsers → List (String × Contract) → String → ℕ → ℕ → List Row → Raises (List Row)
select_rows parsers contracts dataset start end [] = ok []
select_rows parsers contracts dataset start end (row ∷ rows) = do
  include ← within start end (dated parsers contracts dataset row)
  rest ← select_rows parsers contracts dataset start end rows
  ok (if include then row ∷ rest else rest)

pub select_range :
    DateParsers → List (String × Contract) → String → List Row → ℕ → ℕ → Raises (List Row)
select_range parsers contracts dataset records start end =
    if ltb end start
    then err (value_error "end must not precede start")
    else select_rows parsers contracts dataset start end records
