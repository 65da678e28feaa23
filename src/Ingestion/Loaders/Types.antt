-- ===== src/Ingestion/Loaders/Types.antt =====
-- The state and the values of a backfill run (ingestion/loaders/backfill.py).
use marketforge.Prelude.{ℕ, String, Bool, Option, List}
use marketforge.Prelude.Int.{ℤ}
use marketforge.Quality.Reconciliation.{ReconciliationResult, Status}
use marketforge.Ingestion.Values.{Datetime, Exception, Row}
use marketforge.Ingestion.Contracts.{QuarantineRecord}
use marketforge.Ingestion.Lake.{Partition, Artifact}

-- The points where the run calls `failure_hook`, each with what it is about to do or has done.
pub data Stage : Type 0 where
  before_temp_write after_temp_write after_temp_validation after_final_promotion : Artifact → Stage
  before_manifest : String → Stage

-- A hook returns or raises.
abbrev pub Hook : Type 0
Hook = Stage → Option Exception

pub record BackfillResult : Type 0 where
  pub run_id : String
  pub dataset : String
  pub degraded : Bool
  pub input_rows : ℕ
  pub accepted_rows : ℕ
  pub quarantined_rows : ℕ
  pub duplicate_rows : ℕ
  pub files_written : ℕ
  pub input_bytes : ℕ
  pub output_bytes : ℕ
  pub started_at : Datetime
  pub max_event_date : Option ℕ
  pub run_type : String
  pub requested_start : Option ℕ
  pub requested_end : Option ℕ
  pub late_arriving_rows : ℕ
  pub earliest_late_event_date : Option ℕ
  pub prior_event_watermark : Option ℕ
  pub contract_version : ℕ
  pub records_written : ℕ
  pub pre_write_row_count : ℕ
  pub post_write_row_count : ℕ
  pub expected_row_delta : ℤ
  pub actual_row_delta : ℤ
  pub reconciliation_status : Status

pub record Lake (File : Type 0) : Type 0 where
  pub artifacts : List (Artifact × File)
  pub staged : List (Artifact × File)
  pub writing : List (Artifact × File)
  pub locks : List Partition
  pub quarantine : List (List String × List QuarantineRecord)
  pub audits : List (String × ReconciliationResult)
  pub manifests : List (String × BackfillResult)

-- The arguments of `run_backfill`, the defaults filled in.
pub record Request : Type 0 where
  pub dataset : String
  pub source : String
  pub run_id : String
  pub now : Datetime
  pub input_bytes : ℕ
  pub run_type : String
  pub requested_start : Option ℕ
  pub requested_end : Option ℕ
  pub late_event_cutoff : Option ℕ

-- Code that the run uses and the repository does not hold: SHA-256 over JSON, `isoformat`,
-- `str.isalnum` and the calendar.
pub record Outside : Type 0 where
  pub stable_record_id : Row → String
  pub isoformat : Datetime → String
  pub is_alnum : ℕ → Bool
  pub month_of : ℕ → ℕ × ℕ
