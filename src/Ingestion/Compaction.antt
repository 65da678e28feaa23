-- ===== src/Ingestion/Compaction.antt =====
-- ingestion/compaction.py: `compact_partition`, the rewrite of a partition's files as one. The lake
-- and the archive are the state. What the failure hook and the file system raise at the points of
-- the run is a parameter; latencies and the time of completion are not kept.
mod State
pub mod Rows
pub mod Phases
pub mod Listing
pub mod Swap
pub mod Ended
pub mod Safe
pub mod Tests
unfoldable pub use State.*
use marketforge.Prelude.{
  ℕ, ◌+◌, ◌-◌, ◌≡◌, String, String_discrete, List_discrete, ℕ_discrete, Bool, true, false, not,
  ◌&&◌, ◌||◌, Option, none, some, List, [], ◌∷◌, ◌++◌, map, ite, Result, ok, err, raise_if, length,
  filter, contains, ltb, leb, ◌==◌, if◌then◌else◌,
}
use marketforge.Prelude.Dict.{lookup, insert, remove, keys}
use marketforge.Prelude.Exec.{Exec, pure, lift, gets, modify, ◌>>=◌, ◌>>◌}
use marketforge.Ingestion.Values.{Exception, value_error, runtime_error, file_exists, Row}
use marketforge.Ingestion.Contracts.{Contract, is_empty}
use marketforge.Ingestion.Lake.{
  Artifact, compact, Partition, partition, partition_of, Partition_discrete, Parquet,
}
use marketforge.Ingestion.Loaders.Types.{Lake}
use marketforge.Ingestion.Loaders.Rows.{project_all}
use marketforge.Ingestion.Compaction.Rows.{
  Sql, value_columns, union_columns, distinct_keys, hashes_of, count_conflicts, first_ranked,
}

module _ (p : Parquet) where
  abbrev pub Compacting : Type 0 → Type 0
  Compacting A = Exec Exception (Site p.File) A

  -- The handler of `except BaseException: …; raise`
  handled :
      {A : Type 0}
      → Exception
      → Result Exception (Unit {0}) × Site p.File
      → Result Exception A × Site p.File
  handled e (ok u, s) = (err e, s)
  handled e (err f, s) = (err f, s)

  caught :
      {A : Type 0}
      → Compacting (Unit {0})
      → Result Exception A × Site p.File
      → Result Exception A × Site p.File
  unfolding handled
  caught handler (ok a, s) = (ok a, s)
  caught handler (err e, s) = handled e (handler s)

  pub try_except : {A : Type 0} → Compacting A → Compacting (Unit {0}) → Compacting A
  unfolding caught
  try_except m handler s = caught handler (m s)

  -- `lock.unlink(missing_ok=True)`: what it raises replaces the end of the run.
  pub release :
      {A : Type 0}
      → Option Exception
      → Partition
      → Result Exception A × Site p.File
      → Result Exception A × Site p.File
  unfolding unlock
  release none q (m, t) = (m, record t { lake = record t.lake { locks = unlock q t.lake.locks } })
  release (some e) q (m, t) = (err e, t)

  outcome : Option Exception → Compacting (Unit {0})
  outcome none s = (ok tt, s)
  outcome (some e) s = (err e, s)

  pub fault : Faults → Point → Compacting (Unit {0})
  unfolding outcome
  fault faults at = outcome (faults at)

  module _ (q : Sql) (faults : Faults) where
    pub finally_unlock : {A : Type 0} → Partition → Compacting A → Compacting A
    finally_unlock q m s = release (faults unlocking) q (m s)

    -- `staged_partition.mkdir(parents=True, exist_ok=False)` and `COPY … TO`, which may fail with the
    -- directory made; a part of a file in it is not kept.
    pub copy : CompactionRequest → List String → List Row → Compacting p.File
    copy r columns rows = do
      fault faults staging_directory
      staging ← gets (λ (s : Site p.File). s.staging)
      let place = place_of r
      lift (raise_if (contains Place_discrete place (keys staging)) file_exists)
      modify (λ s. record s { staging = insert Place_discrete place [] s.staging })
      fault faults copying
      cells ← lift (project_all columns rows)
      let f = p.write columns cells
      modify (λ s. record s {
        staging =
            insert Place_discrete place ((compact (partition_at r) r.compaction_id, f) ∷ [])
              s.staging;
      })
      pure f

    -- From the first query to the checks of the copy: the rows before, and those of the copy.
    pub prepare : Contract → CompactionRequest → List (Artifact × p.File) → Compacting (ℕ × ℕ)
    unfolding all_rows
    prepare c r files = do
      fault faults querying
      let columns = keys c.fields
      lift (
          raise_if
            (not (
              contains (List_discrete String_discrete)
                (union_columns [] (map (λ f. p.columns f.1) files)) (columns ∷ [])))
            (runtime_error "source partition does not match the canonical contract schema"))
      let rows = all_rows (λ (f : Artifact × p.File). p.rows f.1) files
      unique ← lift (distinct_keys c.idempotency_by rows [])
      hashes ← lift (hashes_of q c.idempotency_by (value_columns columns) rows [])
      lift (
          raise_if (not (count_conflicts hashes == 0))
            (runtime_error "idempotency keys contain conflicting canonical values"))
      ranked ← lift (first_ranked q c rows [])
      f ← copy r columns (map (λ e. e.1) ranked)
      fault faults checking
      lift (
          raise_if (not (contains (List_discrete String_discrete) (p.columns f) (columns ∷ [])))
            (runtime_error "compacted schema differs from the canonical contract"))
      lift (
          raise_if (not (length (p.rows f) == length unique))
            (runtime_error "compacted row-count equivalence failed"))
      pure (length rows, length (p.rows f))

    -- `os.replace(partition, archive)`, which no other archive may stand in the way of
    pub move_to_archive : CompactionRequest → Compacting (Unit {0})
    move_to_archive r = do
      fault faults archiving
      archives ← gets (λ (s : Site p.File). s.archives)
      lift (
          raise_if (contains Place_discrete (place_of r) (keys archives))
            (runtime_error "Directory not empty"))
      modify (λ s. record s {
        lake = record s.lake { artifacts = outside (partition_at r) s.lake.artifacts };
        archives =
            insert Place_discrete (place_of r) (inside (partition_at r) s.lake.artifacts)
              s.archives;
        moved_to_archive = true;
      })

    -- `os.replace(staged_partition, partition)`
    pub move_staged : CompactionRequest → Compacting (Unit {0})
    unfolding or_nothing
    move_staged r = do
      fault faults promoting
      let place = place_of r
      modify (λ s. record s {
        lake = record s.lake {
          artifacts = s.lake.artifacts ++ or_nothing (lookup Place_discrete place s.staging);
        };
        staging = remove Place_discrete place s.staging;
      })

    -- `os.replace(archive, partition)`
    pub move_back : Point → CompactionRequest → Compacting (Unit {0})
    unfolding or_nothing
    move_back at r = do
      fault faults at
      let place = place_of r
      modify (λ s. record s {
        lake = record s.lake {
          artifacts = s.lake.artifacts ++ or_nothing (lookup Place_discrete place s.archives);
        };
        archives = remove Place_discrete place s.archives;
      })

    -- From the first call of the hook to the promotion, and the inner handler.
    pub swap : CompactionRequest → Compacting (Unit {0})
    swap r = do
      fault faults after_validation_before_swap
      move_to_archive r
      fault faults after_archive_before_promotion
      try_except (move_staged r)
          (do move_back moving_back r; modify (λ s. record s { moved_to_archive = false }))

    -- The result and its metadata file.
    pub finish : CompactionRequest → List (Artifact × p.File) → ℕ × ℕ → Compacting CompactionResult
    unfolding sum_of first_size
    finish r files (before, after) = do
      fault faults measuring
      final ← gets (λ (s : Site p.File). inside (partition_at r) s.lake.artifacts)
      let result : CompactionResult = record {
        compaction_id = r.compaction_id;
        dataset = r.dataset;
        year = r.year;
        month = r.month;
        files_before = length files;
        files_after = 1;
        rows_before = before;
        rows_after = after;
        duplicate_rows_removed = before - after;
        bytes_before = sum_of (λ (f : Artifact × p.File). p.size f.1) files;
        bytes_after = first_size (λ (f : Artifact × p.File). p.size f.1) final;
      }
      fault faults recording
      modify (λ s. record s { metadata = insert String_discrete r.compaction_id result s.metadata })
      pure result

    -- The outer handler: the archive goes back where the partition is gone.
    pub recover : CompactionRequest → Compacting (Unit {0})
    recover r s =
        if s.moved_to_archive
          && is_empty (inside (partition_at r) s.lake.artifacts)
          && contains Place_discrete (place_of r) (keys s.archives)
        then move_back recovering r s
        else (ok tt, s)

    -- Under the lock.
    pub rewrite :
        Contract → CompactionRequest → List (Artifact × p.File) → Compacting CompactionResult
    rewrite c r files = do counted ← prepare c r files; swap r; finish r files counted

    are_small : CompactionRequest → List (Artifact × p.File) → List (Artifact × p.File)
    are_small r files = filter (λ f. leb (p.size f.1) r.max_file_bytes) files

    -- The checks before the lock; they return the contract.
    pub check_request : List (String × Contract) → CompactionRequest → Result Exception Contract
    check_request contracts r = elim (lookup String_discrete r.dataset contracts) [
      | none ↦ err (value_error "unknown dataset")
      | some c ↦
          if ltb r.year 1900
            || not (leb 1 r.month && leb r.month 12)
            || ltb r.min_files 2
            || ltb r.max_file_bytes 1
          then err (value_error "invalid compaction bounds")
          else ok c
    ]

    pub compact_partition :
        List (String × Contract) → CompactionRequest → Compacting CompactionResult
    unfolding are_small
    compact_partition contracts r = do
      c ← lift (check_request contracts r)
      fault faults listing
      files ← gets (λ (s : Site p.File). inside (partition_at r) s.lake.artifacts)
      lift (
          raise_if (ltb (length files) r.min_files || ltb (length (are_small r files)) r.min_files)
            (runtime_error "partition does not meet the configured small-file threshold"))
      fault faults opening
      locked ← gets (λ (s : Site p.File). contains Partition_discrete (partition_at r) s.lake.locks)
      lift (raise_if locked (runtime_error "partition is already locked"))
      modify (λ s. record s {
        lake = record s.lake { locks = partition_at r ∷ s.lake.locks };
        moved_to_archive = false;
      })
      fault faults writing_lock
      finally_unlock (partition_at r) (try_except (rewrite c r files) (recover r))
