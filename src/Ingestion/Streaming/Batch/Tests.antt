-- ===== src/Ingestion/Streaming/Batch/Tests.antt =====
-- A batch that dies after one file is written (ingestion/streaming/kafka.py).
use mathlib.Core.Bool.{false≢true}
use marketforge.Prelude.{
  ◌≡◌, sym, ap, ◌+◌, String_discrete, [], ◌∷◌, ◌++◌, none, some, ok, length, contains,
}
use marketforge.Ingestion.Values.{runtime_error}
use marketforge.Ingestion.Streaming.{path, StreamStore, MicroBatchResult}
use marketforge.Ingestion.Streaming.Events.Tests.{noon, parsers, messages}
use marketforge.Ingestion.Streaming.Batch.{
  StreamHook, before_write, after_write_before_commit, ingest,
}
use marketforge.Ingestion.Streaming.Batch.Writes.{IsFreshRun}
use marketforge.Ingestion.Streaming.Batch.Durable.{Acknowledged, ingest-Acknowledged}

abbrev dies : StreamHook
dies (before_write p) = none
dies after_write_before_commit = some (runtime_error "crash")

abbrev before : StreamStore
before = record {
  files = (path 1 12 "run-0", []) ∷ [];
  quarantine = [];
  committed = [];
  manifests = [];
}

before-IsFreshRun : IsFreshRun "run-1" before.files
unfolding contains String_discrete
before-IsFreshRun =
    (λ e. false≢true (sym (ap (λ k. contains String_discrete k ("run-0" ∷ [])) e)), tt)

ingest-Acknowledged_example :
    Acknowledged parsers noon "run-1" messages before
      (ingest parsers dies "run-1" noon messages before).1
    × ((result : MicroBatchResult)
        → (ingest parsers dies "run-1" noon messages before).0 ≡ ok result
        → ((ingest parsers dies "run-1" noon messages before).1.committed
            ≡ before.committed ++ messages)
          × (result.accepted_events + result.duplicate_events + result.quarantined_events
              ≡ length messages))
ingest-Acknowledged_example =
    ingest-Acknowledged parsers dies "run-1" noon messages before before-IsFreshRun
