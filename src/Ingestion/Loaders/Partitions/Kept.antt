-- ===== src/Ingestion/Loaders/Partitions/Kept.antt =====
-- The final artifacts across staging and promotion (ingestion/loaders/backfill.py).
use marketforge.Prelude.{
  ◌≡◌, refl, Option-cases, inl, inr, false, none, some, List, Result, arith, contains-false,
}
use marketforge.Prelude.Dict.{lookup, keys, lookup-insert, not-In→lookup}
use marketforge.Prelude.Exec.{Keeps, Keeps-bind, lift, gets, modify, ◌>>=◌}
use marketforge.Ingestion.Values.{Exception, Row}
use marketforge.Ingestion.Contracts.{Contract}
use marketforge.Ingestion.Lake.{Artifact, Artifact_discrete, Parquet}
use marketforge.Ingestion.Loaders.Partitions.{
  Run, exists, call_hook, validate_parquet, finish_writing, stage_partition, promote_partition,
}
use marketforge.Ingestion.Loaders.Types.{
  Stage, Hook, Lake, before_temp_write, after_temp_write, after_temp_validation,
}

module _ (p : Parquet) where
  -- Every final artifact is still there, with the same content.
  abbrev pub Kept : Lake p.File → Lake p.File → Type 0
  Kept s t =
      (a : Artifact) (f : p.File)
      → lookup Artifact_discrete a s.artifacts ≡ some f
      → lookup Artifact_discrete a t.artifacts ≡ some f

  abbrev pub Keeping : {A : Type 0} → Run p A → Type 0
  Keeping m = Keeps Kept m

  pub Keeping-bind :
      {A B : Type 0} (m : Run p A) (f : A → Run p B)
      → Keeping m
      → ((a : A) → Keeping (f a))
      → Keeping (m >>= f)
  Keeping-bind m f h k =
      Keeps-bind Kept (λ s a f e. e) (λ s t u st tu a f e. tu a f (st a f e)) m f h k

  -- A step that writes no final artifact.
  pub Keeping-of_eq :
      {A : Type 0} (m : Run p A) → ((s : Lake p.File) → (m s).1.artifacts ≡ s.artifacts) → Keeping m
  Keeping-of_eq m h = record { at = λ s a f e. rw (h s) e }

  pub Keeping-lift : {A : Type 0} (r : Result Exception A) → Keeping (lift r)
  unfolding lift
  Keeping-lift r = record { at = λ s a f e. e }

  pub Keeping-gets : {A : Type 0} (f : Lake p.File → A) → Keeping (gets f)
  unfolding gets
  Keeping-gets f = record { at = λ s a f e. e }

  pub Keeping-modify :
      (f : Lake p.File → Lake p.File)
      → ((s : Lake p.File) → (f s).artifacts ≡ s.artifacts)
      → Keeping (modify f)
  unfolding modify
  Keeping-modify f h = Keeping-of_eq _ h

  pub call_hook-Keeping : (hook : Hook) (stage : Stage) → Keeping (call_hook p hook stage)
  unfolding call_hook
  call_hook-Keeping hook stage = Keeping-of_eq _ (λ s. ground arith)

  call_hook_still :
      (hook : Hook) (stage : Stage) (s : Lake p.File) → (call_hook p hook stage s).1 ≡ s
  unfolding call_hook
  call_hook_still hook stage s = ground arith

  validate_parquet-Keeping :
      (c : Contract) (rows : List Row) (f : p.File) → Keeping (validate_parquet p c rows f)
  unfolding validate_parquet ◌>>=◌
  validate_parquet-Keeping c rows f = Keeping-of_eq _ (λ s. ground arith)

  finish_writing-Keeping : (a : Artifact) → Keeping (finish_writing p a)
  unfolding finish_writing ◌>>=◌
  finish_writing-Keeping a = Keeping-of_eq _ (λ s. ground arith)

  pub stage_partition-Keeping :
      (c : Contract) (rows : List Row) (a : Artifact) (hook : Hook)
      → Keeping (stage_partition p c rows a hook)
  unfolding stage_partition
  stage_partition-Keeping c rows a hook = Keeping-bind _ _ (Keeping-gets _) λ taken.
      Keeping-bind _ _ (Keeping-lift _) λ _. Keeping-bind _ _ (Keeping-modify _ (λ s. refl)) λ _.
        Keeping-bind _ _ (call_hook-Keeping hook (before_temp_write a)) λ _.
          Keeping-bind _ _ (Keeping-lift _) λ cells.
            Keeping-bind _ _ (Keeping-modify _ (λ s. refl)) λ _.
              Keeping-bind _ _ (call_hook-Keeping hook (after_temp_write a)) λ _.
                Keeping-bind _ _ (validate_parquet-Keeping c rows _) λ _.
                  Keeping-bind _ _ (finish_writing-Keeping a)
                    λ _. call_hook-Keeping hook (after_temp_validation a)

  exists-false :
      (a : Artifact) (files : List (Artifact × p.File))
      → exists a files ≡ false
      → lookup Artifact_discrete a files ≡ none
  exists-false a files h =
      not-In→lookup Artifact_discrete a files (contains-false Artifact_discrete a (keys files) h)

  pub promote_partition-Keeping :
      (a : Artifact) (hook : Hook) → Keeping (promote_partition p a hook)
  unfolding promote_partition call_hook ◌>>=◌
  promote_partition-Keeping a hook = record {
    at = λ s b f e. elim (Option-cases (lookup Artifact_discrete a s.staged)) [
      | inl missing ↦ ground arith
      | inr (x, found) ↦
          ground
            (arith, lookup-insert Artifact_discrete a b x s.artifacts, exists-false a s.artifacts)
    ];
  }
