-- ===== src/Ingestion/Loaders/Tests.antt =====
-- Runs of the loaders (ingestion/loaders/) over a lake that holds one January artifact.
use marketforge.Prelude.{
  ℕ, ◌≡◌, ◌⊎◌, refl, ◌↔◌, ◌+◌, ◌≤◌, String, String_discrete, true, none, some, List, [], ◌∷◌, ok,
  err, length, arith, ℕ_discrete,
}
use marketforge.Prelude.Dict.{lookup}
use marketforge.Prelude.Int.{pos}
use marketforge.Ingestion.Values.{
  Value, date, str, null, Datetime, aware, Exception, runtime_error, value_error, Row, Raises,
}
use marketforge.Ingestion.Contracts.{Contract, Field}
use marketforge.Ingestion.Checkpoints.{key, get}
use marketforge.Ingestion.Checkpoints.Monotone.{date_in}
use marketforge.Ingestion.Lake.{
  Parquet, part, Partition, partition, Artifact_discrete, Partition_discrete,
}
use marketforge.Ingestion.Loaders.Types.{Hook, after_final_promotion, Lake, Request, Outside}
use marketforge.Ingestion.Loaders.Backfill.{run_backfill}
use marketforge.Ingestion.Loaders.Backfill.Immutable.{run_backfill-immutable}
use marketforge.Ingestion.Loaders.Incremental.{DateParsers, calculate_fetch_window, date_max}
use marketforge.Ingestion.Loaders.Incremental.Window.{calculate_fetch_window_from_checkpoint}
use marketforge.Ingestion.Loaders.RangeBackfill.{Budget, RangeRequest, Session, execute_backfill}
use marketforge.Ingestion.Loaders.RangeBackfill.Guarded.{Admitted, execute_backfill_guarded}
use marketforge.Ingestion.Loaders.IncrementalRun.{IncrementalRequest, Store, run_incremental}
use marketforge.Ingestion.Loaders.IncrementalRun.Checkpointed.{run_incremental_checkpoints}

abbrev tables : Parquet
tables = record {
  File = List String × List Row;
  write = λ columns rows. (columns, rows);
  columns = λ f. f.0;
  rows = λ f. f.1;
  size = λ f. length f.1;
}

abbrev outside : Outside
outside = record {
  stable_record_id = λ row. "id";
  isoformat = λ t. "2026-01-02T00:00:00+00:00";
  is_alnum = λ c. true;
  month_of = λ day. (2026, 1);
}

abbrev any_value : Field
any_value = record { normalizer = λ v. ok v; nullable = true }

abbrev prices : Contract
prices = record {
  name = "prices";
  fields =
      ("symbol", any_value)
      ∷ ("date", any_value)
      ∷ ("source", any_value)
      ∷ ("source_record_id", any_value)
      ∷ ("ingested_at", any_value)
      ∷ [];
  unique_by = "symbol" ∷ "date" ∷ [];
  idempotency_by = "symbol" ∷ "date" ∷ [];
  version = 1;
  rules = [];
  aliases = [];
}

abbrev registry : List (String × Contract)
registry = ("prices", prices) ∷ []

abbrev january : Partition
january = partition "prices" 2026 1

abbrev stored_rows : List Row
stored_rows =
    (("symbol", str "ABC")
      ∷ ("date", date 739617)
      ∷ ("source", str "tiingo")
      ∷ ("source_record_id", str "id")
      ∷ ("ingested_at", null)
      ∷ [])
    ∷ []

abbrev columns : List String
columns = "symbol" ∷ "date" ∷ "source" ∷ "source_record_id" ∷ "ingested_at" ∷ []

abbrev lake : Lake tables.File
lake = record {
  artifacts = (part january "run-0", (columns, stored_rows)) ∷ [];
  staged = [];
  writing = [];
  locks = [];
  quarantine = [];
  audits = [];
  manifests = [];
}

abbrev midnight : Datetime
midnight = aware (pos 63902217600000000) (pos 0)

abbrev request : Request
request = record {
  dataset = "prices";
  source = "tiingo";
  run_id = "run-1";
  now = midnight;
  input_bytes = 64;
  run_type = "backfill";
  requested_start = none;
  requested_end = none;
  late_event_cutoff = none;
}

-- The process dies after a promotion.
abbrev dies : Hook
dies (after_final_promotion a) = some (runtime_error "crash")
dies stage = none

abbrev arriving : List Row
arriving = (("symbol", str "ABC") ∷ ("date", date 739618) ∷ []) ∷ []

run_backfill-immutable_example :
    lookup Artifact_discrete
      (part january "run-0")
      (run_backfill tables outside registry request dies arriving lake).1.artifacts
    ≡ some (columns, stored_rows)
unfolding lookup Artifact_discrete Partition_discrete String_discrete ℕ_discrete
run_backfill-immutable_example =
    run_backfill-immutable tables outside registry request dies arriving lake (part january "run-0")
      (columns, stored_rows) refl

abbrev today : ℕ
today = 739620

calculate_fetch_window_from_checkpoint_example :
    (calculate_fetch_window (some 739617) none today (pos 3) ≡ ok (739615, today))
    ↔ ((739615 + 3 ≡ 739617 + 1) × (1 ≤ 739615) × (739615 ≤ date_max) × (today ≡ today))
calculate_fetch_window_from_checkpoint_example =
    calculate_fetch_window_from_checkpoint 739617 none today 3 739615 today (omega arith)

abbrev parsers : DateParsers
parsers = record { utc_day = day; iso_day = day }
  where
    day : Value → Raises ℕ
    day (date d) = ok d
    day v = err (value_error "no date")

abbrev store : Store tables.File
store = record {
  lake = lake;
  checkpoints =
      (
        key "prices" "tiingo",
        record {
          dataset = "prices";
          source = "tiingo";
          last_successful_event_date = 739617;
          last_successful_run_id = "run-0";
          updated_at = midnight;
        },
      )
      ∷ [];
}

abbrev incremental_request : IncrementalRequest
incremental_request = record {
  dataset = "prices";
  source = "tiingo";
  initial_start = none;
  through = some today;
  overlap_days = pos 3;
  run_id = "run-1";
  now = midnight;
  checkpointed_at = midnight;
}

run_incremental_checkpoints_example :
    ((e : Exception)
      → (run_incremental tables outside parsers registry incremental_request dies arriving store).0
        ≡ err e
      → (run_incremental tables outside parsers registry incremental_request dies arriving
          store).1.checkpoints
        ≡ store.checkpoints)
    × ((dataset source : String)
        → date_in (get store.checkpoints dataset source)
          ≤ date_in (
              get
                (run_incremental tables outside parsers registry incremental_request dies arriving
                  store).1.checkpoints
                dataset
                source))
run_incremental_checkpoints_example =
    run_incremental_checkpoints tables outside parsers registry incremental_request dies arriving
      store

abbrev budget : Budget
budget = record {
  limits = record { warning = pos 800; hard = pos 1000; minimum_free = pos 100; raw = pos 500 };
  usage = record { project = pos 300; raw = pos 200; free = pos 5000 };
}

abbrev range_request : RangeRequest
range_request = record {
  dataset = "prices";
  source = "tiingo";
  start = 739610;
  end = 739620;
  run_id = "run-1";
  now = midnight;
  budget = some budget;
}

abbrev session : Session tables.File
session = record { lake = lake; warnings = [] }

abbrev bytes_of : Row → ℕ
bytes_of row = 120

execute_backfill_guarded_example :
    (((execute_backfill tables outside parsers bytes_of registry range_request arriving
          session).1.lake
        ≡ session.lake)
      ⊎ Admitted tables outside parsers bytes_of registry range_request budget arriving session (
          execute_backfill tables outside parsers bytes_of registry range_request arriving session))
    × (lookup Artifact_discrete
          (part january "run-0")
          (execute_backfill tables outside parsers bytes_of registry range_request arriving
            session).1.lake.artifacts
        ≡ some (columns, stored_rows))
unfolding lookup Artifact_discrete Partition_discrete String_discrete ℕ_discrete
execute_backfill_guarded_example =
    execute_backfill_guarded tables outside parsers bytes_of registry range_request budget arriving
      session (part january "run-0") (columns, stored_rows) refl refl
