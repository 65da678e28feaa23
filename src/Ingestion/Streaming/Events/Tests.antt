-- ===== src/Ingestion/Streaming/Events/Tests.antt =====
-- Four messages, of which one is no event and one repeats an identifier
-- (ingestion/streaming/kafka.py).
use marketforge.Prelude.{
  ◌≡◌, refl, ℕ, zero, suc, String, List, [], ◌∷◌, Option, none, some, ok, err,
}
use marketforge.Prelude.Int.{pos}
use marketforge.Ingestion.Values.{Datetime, aware, astimezone, in_range, value_error, nan, Raises}
use marketforge.Ingestion.Streaming.{KafkaMessage, at, Payload, Event, Parsers}
use marketforge.Ingestion.Streaming.Events.{
  parse_event, required, an_object, optional, Parsed, parse_all, file_message, select_new,
}
use marketforge.Ingestion.Streaming.Events.Fresh.{Selection, select_new-Selection}
use marketforge.Ingestion.Streaming.Events.Sorted.{Sorting, parse_all-Sorting}

abbrev pub noon : Datetime
noon = aware (pos 43200000000) (pos 0)

abbrev payload : String → Payload
payload id = record {
  event_id = some id;
  symbol = some "abc";
  event_timestamp = some "noon";
  event_type = some "anomaly";
  price = none;
  anomaly_score = none;
  details = "{}";
  detected_at = none;
}

abbrev decode : List ℕ → Raises (Option Payload)
decode [] = err (value_error "empty")
decode (zero ∷ bytes) = ok (some (payload "zero"))
decode (suc b ∷ bytes) = ok (some (payload "one"))

abbrev pub parsers : Parsers
parsers = record {
  loads = decode;
  to_float = λ text. ok nan;
  from_iso = λ text. ok noon;
  from_iso_utc = λ text. ok noon;
  clean = λ text. text;
}

abbrev pub message : ℕ → List ℕ → KafkaMessage
message offset value = record { topic = "events"; partition = 0; offset = offset; value = value }

abbrev pub messages : List KafkaMessage
messages = message 0 (0 ∷ []) ∷ message 1 [] ∷ message 2 (1 ∷ []) ∷ message 3 (0 ∷ []) ∷ []

abbrev event : ℕ → String → Event
event offset id = record {
  event_id = id;
  symbol = "abc";
  event_timestamp = noon;
  event_type = "anomaly";
  price = none;
  anomaly_score = none;
  details_json = "{}";
  detected_at = none;
  coordinate = at "events" 0 offset;
  ingested_at = noon;
}

abbrev accepted : List (KafkaMessage × Event)
accepted =
    (message 0 (0 ∷ []), event 0 "zero")
    ∷ (message 2 (1 ∷ []), event 2 "one")
    ∷ (message 3 (0 ∷ []), event 3 "zero")
    ∷ []

abbrev parsed : Parsed
parsed = record {
  accepted = accepted;
  rejected =
      record { message = message 1 []; error = value_error "empty"; received_at = noon } ∷ [];
}

messages-parse_all : parse_all parsers noon messages ≡ ok parsed
unfolding parse_all parse_event file_message required an_object optional astimezone in_range
messages-parse_all = refl

parse_all-Sorting_example : Sorting parsers noon messages parsed
parse_all-Sorting_example = parse_all-Sorting parsers noon messages parsed messages-parse_all

select_new-Selection_example :
    Selection accepted ("one" ∷ []) [] (select_new accepted ("one" ∷ []) [])
select_new-Selection_example =
    select_new-Selection accepted ("one" ∷ []) [] (refl, (refl, (refl, tt)))
