-- ===== src/Ingestion/Streaming/Events.antt =====
-- `_event` and the selection of new events of ingestion/streaming/kafka.py.
pub mod Fresh
pub mod Sorted
pub mod Tests
use marketforge.Prelude.{
  ℕ, suc, String, String_discrete, ◌||◌, Option, none, some, List, [], ◌∷◌, ok, err, ◌>>=◌, ◌>>◌,
  raise_if, contains, map, if◌then◌else◌,
}
use marketforge.Ingestion.Values.{
  Datetime, astimezone, is_naive, value_error, is_value_problem, Raises,
}
use marketforge.Ingestion.Streaming.{
  KafkaMessage, Coordinate, Coordinate_discrete, Payload, Event, Parsers, Rejection, coordinate_of,
}

-- `payload[name]`, after the test that no required field is missing
required : Option String → Raises String
required none = err (value_error "missing event fields")
required (some s) = ok s

an_object : Option Payload → Raises Payload
an_object none = err (value_error "event must be a JSON object")
an_object (some payload) = ok payload

-- `f(x) if x is not None else None`
optional : {A : Type 0} → (String → Raises A) → Option String → Raises (Option A)
optional f none = ok none
optional f (some s) = do a ← f s; ok (some a)

-- `_event`
pub parse_event : Parsers → KafkaMessage → Datetime → Raises Event
unfolding required an_object optional
parse_event parsers m ingested_at = do
  found ← parsers.loads m.value
  payload ← an_object found
  event_id ← required payload.event_id
  symbol ← required payload.symbol
  stamp ← required payload.event_timestamp
  event_type ← required payload.event_type
  timestamp ← parsers.from_iso stamp
  raise_if (is_naive timestamp) (value_error "event_timestamp must include a UTC offset")
  in_utc ← astimezone timestamp
  price ← optional parsers.to_float payload.price
  anomaly ← optional parsers.to_float payload.anomaly_score
  detected ← optional parsers.from_iso_utc payload.detected_at
  ok (record {
    event_id = event_id;
    symbol = parsers.clean symbol;
    event_timestamp = in_utc;
    event_type = event_type;
    price = price;
    anomaly_score = anomaly;
    details_json = payload.details;
    detected_at = detected;
    coordinate = coordinate_of m;
    ingested_at = ingested_at;
  })

-- The messages with their events, and those that are rejected.
pub record Parsed : Type 0 where
  pub accepted : List (KafkaMessage × Event)
  pub rejected : List Rejection

-- One turn of the loop with its `except` clause.
file_message : KafkaMessage → Datetime → Raises Event → Parsed → Raises Parsed
file_message m started (ok e) rest = ok (record rest { accepted = (m, e) ∷ rest.accepted })
file_message m started (err x) rest =
    if is_value_problem x
    then ok (record rest {
      rejected = record { message = m; error = x; received_at = started } ∷ rest.rejected;
    })
    else err x

pub parse_all : Parsers → Datetime → List KafkaMessage → Raises Parsed
unfolding file_message
parse_all parsers started [] = ok (record { accepted = []; rejected = [] })
parse_all parsers started (m ∷ messages) = do
  rest ← parse_all parsers started messages
  file_message m started (parse_event parsers m started) rest

-- What the loop over the accepted events leaves: the new ones and the count of duplicates.
pub record Selected : Type 0 where
  pub new_events : List Event
  pub duplicates : ℕ

-- An event is a duplicate if its identifier or its coordinate is known.
pub select_new : List (KafkaMessage × Event) → List String → List Coordinate → Selected
select_new [] ids coordinates = record { new_events = []; duplicates = 0 }
select_new ((m, e) ∷ accepted) ids coordinates =
    let skipped = select_new accepted ids coordinates in
    let taken = select_new accepted (e.event_id ∷ ids) (coordinate_of m ∷ coordinates) in
    if contains String_discrete e.event_id ids
      || contains Coordinate_discrete (coordinate_of m) coordinates
    then record skipped { duplicates = suc skipped.duplicates }
    else record taken { new_events = e ∷ taken.new_events }

abbrev pub ids_of : List Event → List String
ids_of = map (λ (e : Event). e.event_id)

abbrev pub coordinates_of : List Event → List Coordinate
coordinates_of = map (λ (e : Event). e.coordinate)
