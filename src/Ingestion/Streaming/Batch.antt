-- ===== src/Ingestion/Streaming/Batch.antt =====
-- `consume_microbatch` of ingestion/streaming/kafka.py.
pub mod Groups
pub mod Writes
pub mod Durable
mod Tests
use marketforge.Prelude.{
  ℕ, zero, suc, ◌+◌, ◌/◌, ◌%◌, String, String_discrete, Bool, true, false, not, ◌&&◌, Option, none,
  some, List, [], ◌∷◌, ◌++◌, map, ok, err, raise_if, length, contains, leb, ltb, if◌then◌else◌,
}
use marketforge.Prelude.Dict.{insert, keys}
use marketforge.Prelude.Int.{ℤ, pos, negsuc, pos_part}
use marketforge.Prelude.Exec.{Exec, pure, lift, gets, modify, ◌>>=◌, ◌>>◌}
use marketforge.Ingestion.Values.{
  Datetime, naive, aware, astimezone, Raises, is_naive, day_of, Exception, value_error, file_exists,
}
use marketforge.Ingestion.Contracts.{is_empty}
use marketforge.Ingestion.Streaming.{
  KafkaMessage, Coordinate, Event, Parsers, Rejection, StreamPath, path, StreamPath_discrete,
  StreamStore, MicroBatchResult,
}
use marketforge.Ingestion.Streaming.Events.{ids_of, coordinates_of, parse_all, select_new}

-- `poll` number `i` is called at a time and answers with a message or None.
abbrev pub Broker : Type 0
Broker = ℕ → ℕ × Option KafkaMessage

-- The polling loop with room for so many messages; after the deadline it stops once it has one.
pub poll_from : ℕ → ℕ → ℕ → Bool → Broker → List KafkaMessage
poll_from zero i deadline some_polled broker = []
poll_from (suc room) i deadline some_polled broker =
    if leb deadline (broker i).0 && some_polled
    then []
    else elim (broker i).1 [ none ↦ [] | some m ↦ m ∷ poll_from room (i + 1) deadline true broker ]

-- The points where the batch calls `failure_hook`.
pub data StreamStage : Type 0 where
  before_write : StreamPath → StreamStage
  after_write_before_commit : StreamStage

abbrev pub StreamHook : Type 0
StreamHook = StreamStage → Option Exception

abbrev pub Consume : Type 0 → Type 0
Consume A = Exec Exception StreamStore A

abbrev outcome : Option Exception → Consume (Unit {0})
outcome none s = (ok tt, s)
outcome (some e) s = (err e, s)

pub call_hook : StreamHook → StreamStage → Consume (Unit {0})
call_hook hook stage = outcome (hook stage)

-- The event files' rows, for `_existing`.
pub stored : List (StreamPath × List Event) → List Event
stored [] = []
stored ((p, events) ∷ files) = events ++ stored files

-- The hour of the clock of a UTC time
hour_of : Datetime → ℕ
hour_of (naive t) = pos_part t / 3_600_000_000 % 24
hour_of (aware t o) = pos_part t / 3_600_000_000 % 24

pub path_of : String → Event → StreamPath
unfolding hour_of
path_of run_id e = path (day_of e.event_timestamp) (hour_of e.event_timestamp) run_id

-- `groups.setdefault(key, []).append(event)`, under the path that the group is written to
add_event : StreamPath → Event → List (StreamPath × List Event) → List (StreamPath × List Event)
add_event p e [] = (p, e ∷ []) ∷ []
add_event p e ((q, events) ∷ groups) = elim (StreamPath_discrete q p) [
  | yes same ↦ (q, events ++ e ∷ []) ∷ groups
  | no differs ↦ (q, events) ∷ add_event p e groups
]

pub group_events :
    String → List Event → List (StreamPath × List Event) → List (StreamPath × List Event)
unfolding add_event
group_events run_id [] groups = groups
group_events run_id (e ∷ events) groups =
    group_events run_id events (add_event (path_of run_id e) e groups)

-- `if rejected:` the quarantine file is created; it must not exist.
pub write_rejections : String → List Rejection → Consume (Unit {0})
write_rejections run_id [] = pure tt
write_rejections run_id (r ∷ rejected) = do
  taken ← gets (λ (s : StreamStore). contains String_discrete run_id (keys s.quarantine))
  lift (raise_if taken file_exists)
  modify (λ (s : StreamStore). record s {
    quarantine = insert String_discrete run_id (r ∷ rejected) s.quarantine;
  })

-- Each group is written to a temporary file that then replaces the final one.
pub write_groups : StreamHook → List (StreamPath × List Event) → Consume (Unit {0})
write_groups hook [] = pure tt
write_groups hook ((p, events) ∷ groups) = do
  call_hook hook (before_write p)
  modify (λ (s : StreamStore). record s { files = insert StreamPath_discrete p events s.files })
  write_groups hook groups

-- `consumer.commit(messages)`
pub commit : List KafkaMessage → Consume (Unit {0})
commit messages = modify (λ (s : StreamStore). record s { committed = s.committed ++ messages })

-- From the polled messages to the manifest.
pub ingest : Parsers → StreamHook → String → Datetime → List KafkaMessage → Consume MicroBatchResult
ingest parsers hook run_id started messages = do
  parsed ← lift (parse_all parsers started messages)
  write_rejections run_id parsed.rejected
  known ← gets (λ (s : StreamStore). stored s.files)
  let selected = select_new parsed.accepted (ids_of known) (coordinates_of known)
  let groups = group_events run_id selected.new_events []
  write_groups hook groups
  call_hook hook after_write_before_commit
  commit messages
  let result : MicroBatchResult = record {
    run_id = run_id;
    degraded = not (is_empty parsed.rejected);
    polled_messages = length messages;
    accepted_events = length selected.new_events;
    duplicate_events = selected.duplicates;
    quarantined_events = length parsed.rejected;
    files_written = length groups;
    committed_messages = length messages;
    started_at = started;
  }
  modify (λ (s : StreamStore). record s {
    manifests = insert String_discrete run_id result s.manifests;
  })
  pure result

-- `max_records < 1 or max_wait_seconds < 0`, and the two where they are in bounds
check_bounds : ℤ → ℤ → Raises (ℕ × ℕ)
check_bounds (pos (suc room)) (pos wait) = ok (suc room, wait)
check_bounds max_records max_wait = err (value_error "micro-batch bounds must be positive")

-- `monotonic()` gives `opened` when the deadline is set, and the broker's clocks after that.
pub consume_microbatch :
    Parsers
    → StreamHook
    → Broker
    → (max_records max_wait : ℤ) → (opened start : ℕ) → String
    → Datetime
    → Consume MicroBatchResult
unfolding check_bounds
consume_microbatch parsers hook broker max_records max_wait opened start run_id now = do
  (room, wait) ← lift (check_bounds max_records max_wait)
  lift (raise_if (is_naive now) (value_error "now must be timezone-aware"))
  started ← lift (astimezone now)
  ingest parsers hook run_id started (poll_from room start (opened + wait) false broker)
