-- ===== src/Ingestion/Compaction/Tests.antt =====
-- Runs of the compaction (ingestion/compaction.py) of a partition of two files.
use marketforge.Prelude.{
  ℕ, ◌≡◌, refl, false, none, some, String, String_discrete, List_discrete, List, [], ◌∷◌, ok,
  length, ltb, ite, arith,
}
use marketforge.Prelude.Dict.{lookup, insert}
use marketforge.Prelude.Int.{pos, ℤ_discrete}
use marketforge.Ingestion.Values.{Value, str, datetime, aware, Value_discrete, runtime_error, Row}
use marketforge.Ingestion.Contracts.{Contract, pick, get_item, Value_list_discrete}
use marketforge.Ingestion.Lake.{Parquet, Partition, partition, part}
use marketforge.Ingestion.Compaction.Rows.{Sql, cell, precedes, note_first, first_ranked}
use marketforge.Ingestion.Compaction.Rows.Orders.{IsOrdered}
use marketforge.Ingestion.Compaction.Rows.Winners.{Ranked, first_ranked-Ranked}
use marketforge.Ingestion.Compaction.{
  Faults, promoting, moving_back, unlocking, CompactionRequest, Site, compact_partition,
}
use marketforge.Ingestion.Compaction.Safe.{Outcome, compact_partition-Outcome}

abbrev tables : Parquet
tables = record {
  File = List String × List Row;
  write = λ columns rows. (columns, rows);
  columns = λ f. f.0;
  rows = λ f. f.1;
  size = λ f. length f.1;
}

abbrev rank : Value → ℕ
rank (datetime (aware (pos n) o)) = n
rank (str s) = ite (String_discrete s "r-2") 2 1
rank v = 0

abbrev sql : Sql
sql = record { hash = λ values. length values; less = λ u v. ltb (rank u) (rank v) }

sql-IsOrdered : IsOrdered sql
sql-IsOrdered = record {
  irreflexive = λ v. ground arith;
  transitive = λ u v w g h. ground arith;
  level = λ u v w g h. ground arith;
}

abbrev quote : ℕ → String → Row
quote n id =
    ("symbol", str "ABC")
    ∷ ("source_record_id", str id)
    ∷ ("ingested_at", datetime (aware (pos n) (pos 0)))
    ∷ []

-- Two of the rows are equally new.
abbrev rows : List Row
rows = quote 5 "r-1" ∷ quote 5 "r-2" ∷ quote 3 "r-3" ∷ []

abbrev quotes : Contract
quotes = record {
  name = "quotes";
  fields =
      ("symbol", record { normalizer = λ v. ok v; nullable = false })
      ∷ ("source_record_id", record { normalizer = λ v. ok v; nullable = false })
      ∷ ("ingested_at", record { normalizer = λ v. ok v; nullable = false })
      ∷ [];
  unique_by = "symbol" ∷ [];
  idempotency_by = "symbol" ∷ [];
  version = 1;
  rules = [];
  aliases = [];
}

rows-first_ranked : first_ranked sql quotes rows [] ≡ ok ((str "ABC" ∷ [], quote 5 "r-2") ∷ [])
unfolding first_ranked note_first precedes cell pick get_item lookup insert String_discrete
    Value_list_discrete List_discrete Value_discrete ℤ_discrete
rows-first_ranked = refl

first_ranked-Ranked_example : Ranked sql quotes rows ((str "ABC" ∷ [], quote 5 "r-2") ∷ [])
first_ranked-Ranked_example =
    first_ranked-Ranked sql quotes rows ((str "ABC" ∷ [], quote 5 "r-2") ∷ []) sql-IsOrdered
      rows-first_ranked

abbrev january : Partition
january = partition "quotes" 2026 1

abbrev site : Site tables.File
site = record {
  lake = record {
    artifacts =
        (
          part january "run-0",
          ("symbol" ∷ "source_record_id" ∷ "ingested_at" ∷ [], quote 5 "r-1" ∷ []),
        )
        ∷ (
          part january "run-1",
          ("symbol" ∷ "source_record_id" ∷ "ingested_at" ∷ [], quote 5 "r-1" ∷ []),
        )
        ∷ [];
    staged = [];
    writing = [];
    locks = [];
    quarantine = [];
    audits = [];
    manifests = [];
  };
  archives = [];
  staging = [];
  metadata = [];
  moved_to_archive = false;
}

abbrev request : CompactionRequest
request = record {
  dataset = "quotes";
  year = 2026;
  month = 1;
  min_files = 2;
  max_file_bytes = 100;
  compaction_id = "c-1";
}

-- The promotion fails, so does the first move back, and the lock cannot be removed.
abbrev broken : Faults
broken promoting = some (runtime_error "rename")
broken moving_back = some (runtime_error "rename")
broken unlocking = some (runtime_error "unlink")
broken at = none

compact_partition-Outcome_example :
    Outcome tables sql broken
      (("quotes", quotes) ∷ [])
      request
      site
      (compact_partition tables sql broken (("quotes", quotes) ∷ []) request site)
compact_partition-Outcome_example =
    compact_partition-Outcome tables sql broken (("quotes", quotes) ∷ []) request site
