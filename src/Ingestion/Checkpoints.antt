-- ===== src/Ingestion/Checkpoints.antt =====
-- ingestion/checkpoints/sqlite.py: the checkpoint table, one row for each dataset and source.
-- Calls run one after another: `advance` reads outside the transaction that its INSERT begins, so two
-- calls that overlap may each read the table before the other writes. Dates stand for their ISO text,
-- which orders and reads back alike.
pub mod Monotone
mod Tests
use marketforge.Prelude.{
  ℕ, String, String_discrete, Option, none, some, List, [], ◌∷◌, ltb, if◌then◌else◌,
}
use marketforge.Prelude.Dict.{lookup, insert}
use marketforge.Ingestion.Values.{Datetime}

-- The primary key of the table.
pub data CheckpointKey : Type 0 where
  key : (dataset source : String) → CheckpointKey

unfoldable pub CheckpointKey_discrete : Discrete CheckpointKey
CheckpointKey_discrete = hlevel String_discrete

pub record Checkpoint : Type 0 where
  pub dataset : String
  pub source : String
  pub last_successful_event_date : ℕ
  pub last_successful_run_id : String
  pub updated_at : Datetime

abbrev pub CheckpointTable : Type 0
CheckpointTable = List (CheckpointKey × Checkpoint)

-- `CheckpointStore.get`
pub get : CheckpointTable → String → String → Option Checkpoint
get t dataset source = lookup CheckpointKey_discrete (key dataset source) t

-- The date to store: `current` if it is later than the run's.
not_before : Option Checkpoint → ℕ → ℕ
not_before none event_date = event_date
not_before (some c) event_date =
    if ltb event_date c.last_successful_event_date then c.last_successful_event_date else event_date

-- `CheckpointStore.advance`, with the time of the call
pub advance :
    CheckpointTable → String → String → ℕ → String → Datetime → CheckpointTable × Checkpoint
unfolding not_before
advance t dataset source event_date run_id updated_at =
    let c : Checkpoint = record {
      dataset = dataset;
      source = source;
      last_successful_event_date = not_before (get t dataset source) event_date;
      last_successful_run_id = run_id;
      updated_at = updated_at;
    } in
    (insert CheckpointKey_discrete (key dataset source) c t, c)

-- One call of `advance`.
pub record Advance : Type 0 where
  pub dataset : String
  pub source : String
  pub event_date : ℕ
  pub run_id : String
  pub updated_at : Datetime

pub advance_all : CheckpointTable → List Advance → CheckpointTable
advance_all t [] = t
advance_all t (a ∷ calls) =
    advance_all (advance t a.dataset a.source a.event_date a.run_id a.updated_at).0 calls
