-- ===== src/Ingestion/Loaders/RangeBackfill.antt =====
-- scripts/backfill.py: a backfill of the records in a range of dates, under a storage budget. The
-- size of a record's JSON, the measured disk and the budget are arguments.
pub mod Range
pub mod Guarded
use marketforge.Prelude.{
  ℕ, ◌+◌, ◌*◌, ◌/◌, String, String_discrete, Bool, true, false, Option, none, some, List, [], ◌∷◌,
  Result, ok, err, ltb, ite, if◌then◌else◌, ◌<>◌,
}
use marketforge.Prelude.Dict.{lookup}
use marketforge.Prelude.Int.{pos}
use marketforge.Prelude.Exec.{Exec, pure, lift, modify, ◌>>=◌, ◌>>◌}
use marketforge.Ingestion.Values.{
  Datetime, Exception, value_error, key_error, runtime_error, Row, Raises,
}
use marketforge.Ingestion.Contracts.{Contract}
use marketforge.Ingestion.Lake.{Parquet}
use marketforge.Ingestion.Loaders.Types.{Hook, BackfillResult, Lake, Request, Outside}
use marketforge.Ingestion.Loaders.Rows.{event_fields}
use marketforge.Ingestion.Loaders.Backfill.{run_backfill}
use marketforge.Ingestion.Loaders.Incremental.{DateParsers}
use marketforge.Ingestion.Loaders.RangeBackfill.Range.{select_range}
use marketforge.Observability.ResourceGuardrails.{
  Limits, Usage, StorageAssessment, Status, warning, Reason, project_limit, raw_limit, free_reserve,
  project_warning, GuardrailError, negative_write, invalid_limits, resource_limit_exceeded,
  enforce_storage, estimate_records,
}

-- The texts of the reasons, and "; ".join of them
reason_text : Reason → String
reason_text project_limit = "project hard limit exceeded"
reason_text raw_limit = "raw-data limit exceeded"
reason_text free_reserve = "minimum free-disk reserve would be breached"
reason_text project_warning = "project warning threshold exceeded"

pub joined : List Reason → String
unfolding reason_text
joined [] = ""
joined (r ∷ []) = reason_text r
joined (r ∷ q ∷ rs) = reason_text r <> "; " <> joined (q ∷ rs)

-- ResourceLimitExceeded is a RuntimeError.
pub as_exception : GuardrailError → Exception
as_exception negative_write = value_error "projected write size cannot be negative"
as_exception invalid_limits = value_error "invalid storage resource limits"
as_exception (resource_limit_exceeded reasons) = runtime_error (joined reasons)

pub as_raises : {A : Type 0} → Result GuardrailError A → Raises A
as_raises (ok a) = ok a
as_raises (err e) = err (as_exception e)

-- The budget and what is measured of the disk.
pub record Budget : Type 0 where
  pub limits : Limits
  pub usage : Usage

-- The arguments of `execute_backfill`, the run identifier and the time filled in.
pub record RangeRequest : Type 0 where
  pub dataset : String
  pub source : String
  pub start : ℕ
  pub end : ℕ
  pub run_id : String
  pub now : Datetime
  pub budget : Option Budget

-- The lake, and the warnings that were issued.
pub record Session (File : Type 0) : Type 0 where
  pub lake : Lake File
  pub warnings : List String

abbrev no_hook : Hook
no_hook stage = none

pub request_of : RangeRequest → Request
request_of r = record {
  dataset = r.dataset;
  source = r.source;
  run_id = r.run_id;
  now = r.now;
  input_bytes = 0;
  run_type = "range_backfill";
  requested_start = some r.start;
  requested_end = some r.end;
  late_event_cutoff = none;
}

module _ (p : Parquet) (o : Outside) (parsers : DateParsers) (json_bytes : Row → ℕ)
    (contracts : List (String × Contract)) where
  abbrev pub Ranged : Type 0 → Type 0
  Ranged A = Exec Exception (Session p.File) A

  -- `if assessment.status == "warning": warnings.warn(…)`
  pub warn : StorageAssessment → Status → Ranged (Unit {0})
  warn a warning = modify (λ s. record s {
    warnings = ("resource guardrail warning: " <> joined a.reasons) ∷ s.warnings;
  })
  warn a status = pure tt

  -- `if budget_path is not None: …`
  pub check_budget : Option Budget → List Row → Ranged (Unit {0})
  check_budget none selected = pure tt
  check_budget (some b) selected = do
    a ←
        lift (
          as_raises (enforce_storage b.limits b.usage (pos (estimate_records json_bytes selected))))
    warn a a.status

  -- A run of the backfill engine on the lake of the session.
  pub run_on_lake : Request → List Row → Ranged BackfillResult
  run_on_lake r rows s =
      let (result, lake) = run_backfill p o contracts r no_hook rows s.lake in
      (result, record s { lake = lake })

  pub execute_backfill : RangeRequest → List Row → Ranged BackfillResult
  execute_backfill r records = do
    selected ← lift (select_range parsers contracts r.dataset records r.start r.end)
    check_budget r.budget selected
    run_on_lake (request_of r) selected
