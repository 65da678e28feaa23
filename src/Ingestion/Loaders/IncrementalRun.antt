-- ===== src/Ingestion/Loaders/IncrementalRun.antt =====
-- `run_incremental` of ingestion/loaders/incremental.py, over the lake and the checkpoint table.
pub mod Checkpointed
use marketforge.Prelude.{
  ℕ, String, String_discrete, Option, none, some, List, [], ◌∷◌, Result, ok, err, length, raise_if,
  not, contains, ite,
}
use marketforge.Prelude.Dict.{lookup, keys}
use marketforge.Prelude.Int.{ℤ}
use marketforge.Prelude.Exec.{Exec, pure, lift, gets, modify, ◌>>=◌, ◌>>◌}
use marketforge.Ingestion.Values.{Datetime, day_of, Exception, value_error, key_error, Row}
use marketforge.Ingestion.Contracts.{Contract}
use marketforge.Ingestion.Checkpoints.{Checkpoint, CheckpointTable, get, advance}
use marketforge.Ingestion.Lake.{Parquet}
use marketforge.Ingestion.Loaders.Types.{Hook, BackfillResult, Lake, Request, Outside}
use marketforge.Ingestion.Loaders.Rows.{event_fields}
use marketforge.Ingestion.Loaders.Backfill.{run_backfill}
use marketforge.Ingestion.Loaders.Incremental.{DateParsers, calculate_fetch_window, select}

pub record IncrementalResult : Type 0 where
  pub fetch_from : ℕ
  pub fetch_through : ℕ
  pub fetched_rows : ℕ
  pub backfill : BackfillResult
  pub checkpoint_event_date : Option ℕ

-- The arguments of `run_incremental`, the run identifier and the time filled in.
pub record IncrementalRequest : Type 0 where
  pub dataset : String
  pub source : String
  pub initial_start : Option ℕ
  pub through : Option ℕ
  pub overlap_days : ℤ
  pub run_id : String
  pub now : Datetime
  pub checkpointed_at : Datetime

pub record Store (File : Type 0) : Type 0 where
  pub lake : Lake File
  pub checkpoints : CheckpointTable

-- `checkpoint.last_successful_event_date if checkpoint else None`
pub date_of : Option Checkpoint → Option ℕ
date_of none = none
date_of (some c) = some c.last_successful_event_date

-- `through or now.date()`
end_of : IncrementalRequest → Option ℕ → ℕ
end_of r none = day_of r.now
end_of r (some through) = through

or_raise : {A : Type 0} → Option A → Exception → Result Exception A
or_raise none e = err e
or_raise (some a) e = ok a

module _ (p : Parquet) (o : Outside) (parsers : DateParsers)
    (contracts : List (String × Contract)) where
  abbrev pub Incremental : Type 0 → Type 0
  Incremental A = Exec Exception (Store p.File) A

  -- A run of the backfill engine on the lake of the store.
  pub backfill : Request → Hook → List Row → Incremental BackfillResult
  backfill r hook rows s =
      let (result, lake) = run_backfill p o contracts r hook rows s.lake in
      (result, record s { lake = lake })

  -- `if result.max_event_date is not None: checkpoint_store.advance(…)`; the checkpoint's date then.
  pub move_checkpoint :
      IncrementalRequest → BackfillResult → Option ℕ → Option ℕ → Incremental (Option ℕ)
  move_checkpoint r result before none s = (ok before, s)
  move_checkpoint r result before (some latest) s =
      let (table, c) =
        advance s.checkpoints r.dataset r.source latest result.run_id r.checkpointed_at in
      (ok (some c.last_successful_event_date), record s { checkpoints = table })

  pub run_incremental : IncrementalRequest → Hook → List Row → Incremental IncrementalResult
  unfolding date_of end_of or_raise
  run_incremental r hook records = do
    c ← lift (or_raise (lookup String_discrete r.dataset contracts) (value_error "unknown dataset"))
    checkpoint ← gets (λ (s : Store p.File). get s.checkpoints r.dataset r.source)
    let before = date_of checkpoint
    window ←
        lift (calculate_fetch_window before r.initial_start (end_of r r.through) r.overlap_days)
    field ← lift (or_raise (lookup String_discrete r.dataset event_fields) (key_error r.dataset))
    selected ← lift (select parsers c field window.0 window.1 records)
    result ←
        backfill
          (record {
            dataset = r.dataset;
            source = r.source;
            run_id = r.run_id;
            now = r.now;
            input_bytes = 0;
            run_type = "incremental";
            requested_start = some window.0;
            requested_end = some window.1;
            late_event_cutoff = before;
          })
          hook selected
    after ← move_checkpoint r result before result.max_event_date
    pure (record {
      fetch_from = window.0;
      fetch_through = window.1;
      fetched_rows = length selected;
      backfill = result;
      checkpoint_event_date = after;
    })
