-- ===== src/Ingestion/Loaders/Partitions.antt =====
-- Staging and promotion of one monthly artifact (`_stage_partition` and `_promote_partition` of
-- ingestion/loaders/backfill.py).
pub mod Kept
use marketforge.Prelude.{
  ℕ, String, List_discrete, String_discrete, Bool, not, Option, none, some, List, [], ◌∷◌, ite, ok,
  err, raise_if, length, contains, ◌==◌,
}
use marketforge.Prelude.Dict.{lookup, insert, remove, keys}
use marketforge.Prelude.Exec.{Exec, pure, raise, lift, gets, modify, ◌>>=◌, ◌>>◌}
use marketforge.Ingestion.Values.{
  Exception, value_error, file_exists, file_not_found, partition_locked, Row,
}
use marketforge.Ingestion.Contracts.{Contract}
use marketforge.Ingestion.Lake.{
  Artifact, Artifact_discrete, Partition_discrete, partition_of, Parquet,
}
use marketforge.Ingestion.Loaders.Rows.{project_all}
use marketforge.Ingestion.Loaders.Types.{
  Stage, Hook, Lake, before_temp_write, after_temp_write, after_temp_validation,
  after_final_promotion,
}

-- `path.exists()` for a path of one kind
abbrev pub exists : {F : Type 0} → Artifact → List (Artifact × F) → Bool
exists a files = contains Artifact_discrete a (keys files)

module _ (p : Parquet) where
  abbrev pub Run : Type 0 → Type 0
  Run A = Exec Exception (Lake p.File) A

  abbrev outcome : Option Exception → Run (Unit {0})
  outcome none s = (ok tt, s)
  outcome (some e) s = (err e, s)

  -- `if failure_hook: failure_hook(stage, path)`
  pub call_hook : Hook → Stage → Run (Unit {0})
  call_hook hook stage = outcome (hook stage)

  abbrev present : Option p.File → Run p.File
  present none s = (err (file_not_found "rename"), s)
  present (some f) s = (ok f, s)

  -- `_validate_parquet`
  pub validate_parquet : Contract → List Row → p.File → Run (Unit {0})
  validate_parquet c rows f = do
    lift (
        raise_if (not (contains (List_discrete String_discrete) (p.columns f) (keys c.fields ∷ [])))
          (value_error "staged Parquet schema mismatch"))
    lift
        (raise_if (not (length (p.rows f) == length rows)) (value_error "staged Parquet row count"))

  -- `os.replace(writing_target, staging_target)`
  finish_writing : Artifact → Run (Unit {0})
  finish_writing a = do
    found ← gets (λ (s : Lake p.File). lookup Artifact_discrete a s.writing)
    f ← present found
    modify (λ s. record s {
      staged = insert Artifact_discrete a f s.staged;
      writing = remove Artifact_discrete a s.writing;
    })

  pub stage_partition : Contract → List Row → Artifact → Hook → Run (Unit {0})
  unfolding finish_writing
  stage_partition c rows a hook = do
    taken ← gets (λ (s : Lake p.File). exists a s.artifacts)
    lift (raise_if taken file_exists)
    modify (λ s. record s {
      staged = remove Artifact_discrete a s.staged;
      writing = remove Artifact_discrete a s.writing;
    })
    call_hook hook (before_temp_write a)
    cells ← lift (project_all (keys c.fields) rows)
    let f = p.write (keys c.fields) cells
    modify (λ s. record s { writing = insert Artifact_discrete a f s.writing })
    call_hook hook (after_temp_write a)
    validate_parquet c rows f
    finish_writing a
    call_hook hook (after_temp_validation a)

  pub promote_partition : Artifact → Hook → Run (Unit {0})
  promote_partition a hook = do
    locked ← gets (λ (s : Lake p.File). contains Partition_discrete (partition_of a) s.locks)
    lift (raise_if locked partition_locked)
    taken ← gets (λ (s : Lake p.File). exists a s.artifacts)
    lift (raise_if taken file_exists)
    found ← gets (λ (s : Lake p.File). lookup Artifact_discrete a s.staged)
    f ← present found
    modify (λ s. record s {
      artifacts = insert Artifact_discrete a f s.artifacts;
      staged = remove Artifact_discrete a s.staged;
    })
    call_hook hook (after_final_promotion a)
