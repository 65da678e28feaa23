-- ===== src/Lib.antt =====
-- MarketForge: ingestion of market data into an immutable raw lake, and the cache of the query API.
--
-- The program. Provider records and files (ingestion/sources) go through a data contract
-- (ingestion/contracts/base.py), which normalises them and quarantines what it refuses; the backfill
-- loader (ingestion/loaders/backfill.py) drops the rows that the lake already holds, writes the others
-- to monthly Parquet artifacts that are staged, checked and promoted, reconciles the counts
-- (quality/reconciliation.py) and writes a manifest. The incremental loader
-- (ingestion/loaders/incremental.py) selects the records of a window that starts at a checkpoint
-- (ingestion/checkpoints/sqlite.py), runs the backfill loader on them and moves the checkpoint. Kafka
-- events are stored in micro-batches (ingestion/streaming/kafka.py). The API reads the results through
-- a cache (backend/services/cache.py).
--
-- The files, by what they model.
--   Prelude: the library's names; lists with native lengths (Lists), membership tests (Keys), results
--     (Results), Python's dict as the list of its insertions (Dict), integers (Int), and actions that
--     change a state and may raise, where the state at the exception is kept (Exec).
--   Ingestion/Values: the values of a record and the exceptions. Two values of one column are compared
--     by identity of their representation: after its normaliser a column has one type, and its times
--     are in UTC, so that this is Python's `==`.
--   Ingestion/Contracts: `Contract.validate`, one function for each part of the loop over the records.
--     The keys of a record are texts, as `Mapping[str, Any]` has them.
--   Ingestion/Normalizers, Ordering, Datasets: the normalisers of ingestion/contracts/base.py, Python's
--     `<` on the values of a row, and the five contracts with their rules (ingestion/contracts/prices.py,
--     fundamentals.py, earnings.py, macro.py, news.py). Descriptions and `source_metadata` are left out.
--   Ingestion/Checkpoints: `CheckpointStore.get` and `advance` on the table of checkpoints, for calls
--     that run one after another.
--   Ingestion/Lake: artifacts and partitions, and the Parquet library as a parameter.
--   Ingestion/Loaders/Dedup: `deduplicate_rows` and the reading loop of `_existing_rows`.
--   Ingestion/Loaders/Types, Rows, Partitions, Backfill: `run_backfill` with `_stage_partition`,
--     `_validate_parquet`, `_promote_partition` and `write_quarantine`. The state is the lake (final,
--     staged and half-written files, locks, quarantine, audits, manifests). A failure hook may raise at
--     any of its points, and the state that a run leaves then is what stands on disk after a crash.
--   Ingestion/Loaders/Incremental, IncrementalRun: `calculate_fetch_window`, `event_date`, the selection
--     and `run_incremental`, on the lake and the checkpoints.
--   Ingestion/Loaders/RangeBackfill: `select_range` and `execute_backfill` (scripts/backfill.py) under a
--     storage budget.
--   Ingestion/Sources: the loop of attempts over a network that is a function of the requests sent so
--     far (Retries), `get_json` (ingestion/sources/http_json.py) and `fetch_prices`
--     (ingestion/sources/tiingo.py). A delay is the exact multiple of 2^-1074 of a second that the code
--     computes, without a float's overflow. The number of `retries` of `get_json` is not negative.
--   Ingestion/Compaction: `compact_partition` (ingestion/compaction.py) on the lake and the archive. The
--     SQL of its queries is written out over lists of rows, with DuckDB's `hash` and its order of the
--     values of a column as parameters (Rows). The hook and the file system may raise at the points that
--     State names, from the listing of the partition to the removal of the lock; the moves of
--     directories are atomic.
--   Ingestion/Streaming: `_event`, the selection of new events, and `consume_microbatch`.
--   Quality/Reconciliation: `reconcile_run`.
--   Observability/ResourceGuardrails: `assess_storage` and `enforce_storage`
--     (observability/resource_guardrails.py), from the measured sizes and the limits of the budget.
--   Observability/Builds: `create_build_manifest` and `verify_build_manifest` (observability/builds.py)
--     on the lake, the archives of its compactions and the manifests; the outputs of Git and SHA-256 are
--     parameters.
--   Observability/Freshness: `evaluate_freshness` and `expected_price_event_time`
--     (observability/freshness.py), with time zones and the parsing of times as a parameter.
--   Warehouse/Lineage: `ancestors` and `descendants` (warehouse/lineage.py).
--   Warehouse/TimeTravel: `load_build`, `reproduction_plan` and `create_catalog`
--     (warehouse/time_travel.py); a catalog is the build in its metadata and the files of its views.
--   Backend/Cache: `QueryCache`. Each region under its lock is one step, and a history of several
--     threads is a list of steps.
--
-- Parameters. Parquet files through DuckDB, SHA-256 over JSON, `isoformat`, `str.isalnum`, the months
-- of dates, date and number parsing, JSON, the Kafka broker with the clock, the registry of contracts,
-- Python's parsers, the network of the HTTP clients and what fails in a file system are arguments of
-- the definitions that use them. A run identifier and the times that the code draws itself are
-- arguments too. One process writes the lake at a time.
--
-- Bounds. Numbers are unbounded, as in Python, and a finite float is an exact multiple of 2^-1074. The
-- day of an event is an ordinal up to `date.max`, where `calculate_fetch_window` overflows. Loops are
-- structural recursion on their lists; polling has the room that `max_records` leaves as its measure.
-- The `while` loop of the lineage graph has a bound on its rounds, one more than there are edges: each
-- round but the last selects the start of an edge that was not selected. The loop that steps back to a
-- weekday has two rounds, as a weekend has two days.
--
-- Not modelled: the text of messages and files, wall-clock durations, the rates of `CacheStats`, the
-- sources other than Tiingo, the command lines, orchestration, dbt models, benchmarks and the
-- frontend; the building of the lineage graph, recovery and anomaly detection.
pub mod Prelude
pub mod Quality
pub mod Ingestion
pub mod Backend
pub mod Observability
pub mod Warehouse
