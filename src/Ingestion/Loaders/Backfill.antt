-- ===== src/Ingestion/Loaders/Backfill.antt =====
-- `run_backfill` of ingestion/loaders/backfill.py: one immutable run over the raw lake. The state
-- beside an exception is what the run has left on disk. Parquet, hashing, the calendar and the
-- registry of contracts are parameters; no other process writes meanwhile.
pub mod Immutable
use Prim.Native.Char.{code}
use marketforge.Prelude.{
  ℕ, ◌+◌, String, String_discrete, List_discrete, Bool, true, false, not, ◌&&◌, ◌||◌, Option, none,
  some, List, [], ◌∷◌, ◌++◌, map, ite, Result, ok, err, raise_if, length, filter, contains, leb,
  ltb, ◌==◌, if◌then◌else◌,
}
use marketforge.Prelude.Dict.{lookup, insert, keys}
use marketforge.Prelude.Int.{pos}
use marketforge.Prelude.Exec.{pure, raise, lift, gets, modify, ◌>>=◌, ◌>>◌}
use marketforge.Quality.Reconciliation.{Counts, reconcile_run, Status, passed, failed}
use marketforge.Ingestion.Values.{
  Datetime, is_naive, to_utc, astimezone, Exception, value_error, key_error, file_exists,
  reconciliation_failed, Row,
}
use marketforge.Ingestion.Contracts.{
  Contract, QuarantineRecord, ValidationResult, validate, is_empty,
}
use marketforge.Ingestion.Lake.{Artifact, partition, part, Artifact_discrete, dataset_of, Parquet}
use marketforge.Ingestion.Loaders.Dedup.{Existing, Deduplicated, deduplicate_rows, read_rows}
use marketforge.Ingestion.Loaders.Partitions.{Run, call_hook, stage_partition, promote_partition}
use marketforge.Ingestion.Loaders.Rows.{
  is_run_id, event_fields, enrich, event_dates, Group, group_rows, sort_groups,
}
use marketforge.Ingestion.Loaders.Types.{
  Stage, Hook, before_manifest, BackfillResult, Lake, Request, Outside,
}

-- `safe` of `write_quarantine` (ingestion/contracts/base.py)
pub safe : Outside → String → String
safe o String.[] = String.[]
safe o (String.◌∷◌ c s) =
    String.◌∷◌ (if o.is_alnum (code c) || (code c == b'-') || (code c == b'_') then c else "_")
      (safe o s)

max_date : List ℕ → Option ℕ
max_date [] = none
max_date (d ∷ ds) = elim (max_date ds) [ none ↦ some d | some m ↦ some (if ltb d m then m else d) ]

min_date : List ℕ → Option ℕ
min_date [] = none
min_date (d ∷ ds) = elim (min_date ds) [ none ↦ some d | some m ↦ some (if ltb m d then m else d) ]

late_dates : Option ℕ → List ℕ → List ℕ
late_dates none ds = []
late_dates (some cutoff) ds = filter (λ d. leb d cutoff) ds

ends_early : Option ℕ → Option ℕ → Bool
ends_early (some start) (some end) = ltb end start
ends_early _ _ = false

or_raise : {A : Type 0} → Option A → Exception → Result Exception A
or_raise none e = err e
or_raise (some a) e = ok a

has_failed : Status → Bool
has_failed passed = false
has_failed failed = true

module _ (p : Parquet) where
  -- The rows that the dataset's final files hold, file after file.
  pub dataset_rows : String → List (Artifact × p.File) → List Row
  dataset_rows dataset [] = []
  dataset_rows dataset ((a, f) ∷ files) =
      let rest = dataset_rows dataset files in
      ite (String_discrete (dataset_of a) dataset) (p.rows f ++ rest) rest

  -- `_existing_rows`
  pub existing_rows : Contract → String → Run p Existing
  existing_rows c dataset = do
    files ← gets (λ (s : Lake p.File). s.artifacts)
    lift (read_rows c (dataset_rows dataset files) [])

  -- `write_quarantine` of ingestion/contracts/base.py, for the records of one run
  pub write_quarantine : Outside → Request → List QuarantineRecord → Run p (Unit {0})
  write_quarantine o r [] = pure tt
  write_quarantine o r (q ∷ qs) = do
    let target = safe o r.source ∷ safe o r.run_id ∷ []
    taken ←
        gets
          (λ (s : Lake p.File). contains (List_discrete String_discrete) target (keys s.quarantine))
    lift (raise_if taken file_exists)
    modify (λ s. record s {
      quarantine = insert (List_discrete String_discrete) target (q ∷ qs) s.quarantine;
    })

  pub artifact_of : Request → Group → Artifact
  artifact_of r (y, m, rows) = part (partition r.dataset y m) r.run_id

  -- The loop that stages each group; it returns the targets in the order of the months.
  pub stage_all : Contract → Request → Hook → List Group → Run p (List Artifact)
  stage_all c r hook [] = pure []
  stage_all c r hook ((y, m, rows) ∷ groups) = do
    stage_partition p c rows (artifact_of r (y, m, rows)) hook
    rest ← stage_all c r hook groups
    pure (artifact_of r (y, m, rows) ∷ rest)

  pub promote_all : Hook → List Artifact → Run p (Unit {0})
  promote_all hook [] = pure tt
  promote_all hook (a ∷ staged) = do promote_partition p a hook; promote_all hook staged

  -- `_size(written)`
  size_of : List Artifact → List (Artifact × p.File) → ℕ
  size_of [] files = 0
  size_of (a ∷ written) files = elim (lookup Artifact_discrete a files) [
    | none ↦ size_of written files
    | some f ↦ p.size f + size_of written files
  ]

  module _ (o : Outside) (contracts : List (String × Contract)) where
    -- The checks on the arguments; they return the contract.
    pub check_request : Request → Result Exception Contract
    unfolding ends_early
    check_request r = elim (lookup String_discrete r.dataset contracts) [
      | none ↦ err (value_error "unknown dataset")
      | some c ↦
          if not (is_run_id r.run_id)
          then err (value_error "run_id")
          else if ends_early r.requested_start r.requested_end
              && not (contains String_discrete r.run_type ("incremental" ∷ []))
          then err (value_error "requested_end must not precede requested_start")
          else if is_naive r.now
          then err (value_error "now must be timezone-aware")
          else elim (astimezone r.now) [ err e ↦ err e | ok started_at ↦ ok c ]
    ]

    -- From the accepted rows to the promoted artifacts.
    pub write_groups : Contract → Request → Hook → List Row → Run p (List Artifact)
    write_groups c r hook new_rows = do
      field ← lift (or_raise (lookup String_discrete r.dataset event_fields) (key_error r.dataset))
      groups ← lift (group_rows o field new_rows [])
      staged ← stage_all c r hook (sort_groups groups)
      promote_all hook staged
      pure staged

    pub counts : List Row → ValidationResult → Deduplicated → ℕ → ℕ → Counts
    counts records v d pre post = record {
      fetched = pos (length records);
      accepted = pos (length d.new_rows);
      rejected = pos (length v.rejected);
      deduplicated = pos d.duplicate_rows;
      written = pos (length d.new_rows);
      pre_write_rows = pos pre;
      post_write_rows = pos post;
    }

    -- The accounting: the audit is written, then a failed one raises.
    pub reconcile : Request → Counts → Run p (Unit {0})
    unfolding has_failed
    reconcile r n = do
      modify (λ s. record s { audits = insert String_discrete r.run_id (reconcile_run n) s.audits })
      lift (raise_if (has_failed (reconcile_run n).status) reconciliation_failed)

    -- The result and its manifest.
    pub finish :
        Contract
        → Request
        → Hook
        → List Row
        → ValidationResult
        → Deduplicated
        → List Artifact
        → ℕ
        → ℕ
        → Run p BackfillResult
    unfolding late_dates max_date min_date size_of or_raise
    finish c r hook records v d written pre post = do
      call_hook p hook (before_manifest r.run_id)
      field ← lift (or_raise (lookup String_discrete r.dataset event_fields) (key_error r.dataset))
      accepted_dates ← lift (event_dates field v.accepted)
      new_dates ← lift (event_dates field d.new_rows)
      files ← gets (λ (s : Lake p.File). s.artifacts)
      let late = late_dates r.late_event_cutoff new_dates
      let n = reconcile_run (counts records v d pre post)
      let result : BackfillResult = record {
        run_id = r.run_id;
        dataset = r.dataset;
        degraded = not (is_empty v.rejected);
        input_rows = length records;
        accepted_rows = length d.new_rows;
        quarantined_rows = length v.rejected;
        duplicate_rows = d.duplicate_rows;
        files_written = length written;
        input_bytes = r.input_bytes;
        output_bytes = size_of written files;
        started_at = to_utc r.now;
        max_event_date = max_date accepted_dates;
        run_type = r.run_type;
        requested_start = r.requested_start;
        requested_end = r.requested_end;
        late_arriving_rows = length late;
        earliest_late_event_date = min_date late;
        prior_event_watermark = r.late_event_cutoff;
        contract_version = c.version;
        records_written = length d.new_rows;
        pre_write_row_count = pre;
        post_write_row_count = post;
        expected_row_delta = n.expected_row_delta;
        actual_row_delta = n.actual_row_delta;
        reconciliation_status = n.status;
      }
      modify (λ s. record s { manifests = insert String_discrete r.run_id result s.manifests })
      pure result

    pub run_backfill : Request → Hook → List Row → Run p BackfillResult
    run_backfill r hook records = do
      c ← lift (check_request r)
      let started_at = to_utc r.now
      let enriched = map (enrich o r.source started_at) records
      v ← lift (
          validate c
            (record { source = r.source; ingestion_run_id = r.run_id; received_at = started_at })
            enriched)
      write_quarantine o r v.rejected
      existing ← existing_rows c r.dataset
      d ← lift (deduplicate_rows c v.accepted existing)
      written ← write_groups c r hook d.new_rows
      after ← existing_rows c r.dataset
      reconcile r (counts records v d (length existing) (length after))
      finish c r hook records v d written (length existing) (length after)
