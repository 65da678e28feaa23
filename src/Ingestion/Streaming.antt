-- ===== src/Ingestion/Streaming.antt =====
-- ingestion/streaming/kafka.py: one bounded micro-batch. JSON, number and timestamp parsing are a
-- parameter; a Parquet file is the list of events that it holds. The broker and the clock are a
-- stream of poll results, each with the time at which `poll` is called.
pub mod Events
pub mod Batch
use marketforge.Prelude.{
  ℕ, zero, suc, ◌+◌, ◌/◌, ◌%◌, ◌≡◌, ℕ_discrete, String, String_discrete, List_discrete, Bool, true,
  false, not, ◌&&◌, ◌||◌, Option, none, some, List, [], ◌∷◌, ◌++◌, map, ite, Result, ok, err,
  raise_if, length, contains, leb, ltb, ◌==◌, if◌then◌else◌,
}
use marketforge.Prelude.Dict.{lookup, insert, keys}
use marketforge.Prelude.Int.{ℤ, pos_part}
use marketforge.Prelude.Exec.{Exec, pure, lift, gets, modify, ◌>>=◌, ◌>>◌}
use marketforge.Ingestion.Values.{
  Datetime, naive, aware, to_utc, is_naive, day_of, Float, Exception, value_error, file_exists,
  is_value_problem, Raises,
}

-- `value` stands for the bytes.
pub record KafkaMessage : Type 0 where
  pub topic : String
  pub partition : ℕ
  pub offset : ℕ
  pub value : List ℕ

pub data Coordinate : Type 0 where
  at : (topic : String) (partition offset : ℕ) → Coordinate

unfoldable pub Coordinate_discrete : Discrete Coordinate
Coordinate_discrete = hlevel (ℕ_discrete, String_discrete)

-- The object that the bytes decode to, each value as its text: `none` where the object has no such
-- key, where `price` or `anomaly_score` is null, and where `detected_at` is false.
pub record Payload : Type 0 where
  pub event_id : Option String
  pub symbol : Option String
  pub event_timestamp : Option String
  pub event_type : Option String
  pub price : Option String
  pub anomaly_score : Option String
  pub details : String
  pub detected_at : Option String

pub record Event : Type 0 where
  pub event_id : String
  pub symbol : String
  pub event_timestamp : Datetime
  pub event_type : String
  pub price : Option Float
  pub anomaly_score : Option Float
  pub details_json : String
  pub detected_at : Option Datetime
  pub coordinate : Coordinate
  pub ingested_at : Datetime

-- Python's decoding, `json.loads`, `float`, `datetime.fromisoformat`, also followed by `astimezone`
-- (which reads a time without an offset as local), and `strip().upper()`.
pub record Parsers : Type 0 where
  pub loads : List ℕ → Raises (Option Payload)
  pub to_float : String → Raises Float
  pub from_iso : String → Raises Datetime
  pub from_iso_utc : String → Raises Datetime
  pub clean : String → String

-- A path `date=…/hour=…/part-<run id>.parquet`
pub data StreamPath : Type 0 where
  path : (day hour : ℕ) (run_id : String) → StreamPath

unfoldable pub StreamPath_discrete : Discrete StreamPath
StreamPath_discrete = hlevel (ℕ_discrete, String_discrete)

pub record Rejection : Type 0 where
  pub message : KafkaMessage
  pub error : Exception
  pub received_at : Datetime

pub record MicroBatchResult : Type 0 where
  pub run_id : String
  pub degraded : Bool
  pub polled_messages : ℕ
  pub accepted_events : ℕ
  pub duplicate_events : ℕ
  pub quarantined_events : ℕ
  pub files_written : ℕ
  pub committed_messages : ℕ
  pub started_at : Datetime

-- The event files, the quarantine files, what the consumer has acknowledged, and the manifests.
pub record StreamStore : Type 0 where
  pub files : List (StreamPath × List Event)
  pub quarantine : List (String × List Rejection)
  pub committed : List KafkaMessage
  pub manifests : List (String × MicroBatchResult)

abbrev pub coordinate_of : KafkaMessage → Coordinate
coordinate_of m = at m.topic m.partition m.offset
