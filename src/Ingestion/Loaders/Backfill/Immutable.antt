-- ===== src/Ingestion/Loaders/Backfill/Immutable.antt =====
-- The final artifacts across a run (`run_backfill` of ingestion/loaders/backfill.py).
use marketforge.Prelude.{◌≡◌, refl, List, [], ◌∷◌, String, ℕ}
use marketforge.Prelude.Exec.{pure}
use marketforge.Prelude.Dict.{lookup}
use marketforge.Prelude.{some}
use marketforge.Quality.Reconciliation.{Counts}
use marketforge.Ingestion.Values.{Row}
use marketforge.Ingestion.Contracts.{Contract, QuarantineRecord, ValidationResult}
use marketforge.Ingestion.Lake.{Artifact, Artifact_discrete, Parquet}
use marketforge.Ingestion.Loaders.Dedup.{Deduplicated}
use marketforge.Ingestion.Loaders.Partitions.Kept.{
  Keeping, Keeping-bind, Keeping-lift, Keeping-gets, Keeping-modify, call_hook-Keeping,
  stage_partition-Keeping, promote_partition-Keeping, Keeping-of_eq,
}
use marketforge.Ingestion.Loaders.Rows.{Group}
use marketforge.Ingestion.Loaders.Types.{Hook, Lake, Request, Outside, before_manifest}
use marketforge.Ingestion.Loaders.Backfill.{
  existing_rows, write_quarantine, stage_all, promote_all, write_groups, reconcile, finish,
  run_backfill, artifact_of,
}

module _ (p : Parquet) where
  existing_rows-Keeping : (c : Contract) (dataset : String) → Keeping p (existing_rows p c dataset)
  unfolding existing_rows
  existing_rows-Keeping c dataset =
      Keeping-bind p _ _ (Keeping-gets p _) (λ files. Keeping-lift p _)

  write_quarantine-Keeping :
      (o : Outside) (r : Request) (qs : List QuarantineRecord)
      → Keeping p (write_quarantine p o r qs)
  unfolding write_quarantine pure
  write_quarantine-Keeping o r [] = Keeping-of_eq p _ (λ s. refl)
  write_quarantine-Keeping o r (q ∷ qs) =
      Keeping-bind p _ _ (Keeping-gets p _)
        λ taken. Keeping-bind p _ _ (Keeping-lift p _) λ _. Keeping-modify p _ (λ s. refl)

  stage_all-Keeping :
      (c : Contract) (r : Request) (hook : Hook) (groups : List Group)
      → Keeping p (stage_all p c r hook groups)
  unfolding stage_all pure
  stage_all-Keeping c r hook [] = Keeping-of_eq p _ (λ s. refl)
  stage_all-Keeping c r hook ((y, m, rows) ∷ groups) =
      Keeping-bind p _ _ (stage_partition-Keeping p c rows (artifact_of p r (y, m, rows)) hook) λ _.
        Keeping-bind p _ _ (stage_all-Keeping c r hook groups) λ rest. Keeping-of_eq p _ (λ s. refl)

  promote_all-Keeping :
      (hook : Hook) (staged : List Artifact) → Keeping p (promote_all p hook staged)
  unfolding promote_all pure
  promote_all-Keeping hook [] = Keeping-of_eq p _ (λ s. refl)
  promote_all-Keeping hook (a ∷ staged) =
      Keeping-bind p _ _ (promote_partition-Keeping p a hook) λ _. promote_all-Keeping hook staged

  module _ (o : Outside) (contracts : List (String × Contract)) where
    write_groups-Keeping :
        (c : Contract) (r : Request) (hook : Hook) (rows : List Row)
        → Keeping p (write_groups p o contracts c r hook rows)
    unfolding write_groups pure
    write_groups-Keeping c r hook rows = Keeping-bind p _ _ (Keeping-lift p _) λ field.
        Keeping-bind p _ _ (Keeping-lift p _) λ groups.
          Keeping-bind p _ _ (stage_all-Keeping c r hook _) λ staged.
            Keeping-bind p _ _ (promote_all-Keeping hook staged) λ _. Keeping-of_eq p _ (λ s. refl)

    reconcile-Keeping : (r : Request) (n : Counts) → Keeping p (reconcile p o contracts r n)
    unfolding reconcile
    reconcile-Keeping r n =
        Keeping-bind p _ _ (Keeping-modify p _ (λ s. refl)) (λ _. Keeping-lift p _)

    finish-Keeping :
        (c : Contract) (r : Request) (hook : Hook) (records : List Row) (v : ValidationResult)
        (d : Deduplicated) (written : List Artifact) (pre post : ℕ)
        → Keeping p (finish p o contracts c r hook records v d written pre post)
    unfolding finish pure
    finish-Keeping c r hook records v d written pre post =
        Keeping-bind p _ _ (call_hook-Keeping p hook (before_manifest r.run_id)) λ _.
          Keeping-bind p _ _ (Keeping-lift p _) λ field.
            Keeping-bind p _ _ (Keeping-lift p _) λ accepted_dates.
              Keeping-bind p _ _ (Keeping-lift p _) λ new_dates.
                Keeping-bind p _ _ (Keeping-gets p _) λ files.
                  Keeping-bind p _ _ (Keeping-modify p _ (λ s. refl))
                    λ _. Keeping-of_eq p _ (λ s. refl)

    run_backfill-Keeping :
        (r : Request) (hook : Hook) (records : List Row)
        → Keeping p (run_backfill p o contracts r hook records)
    unfolding run_backfill
    run_backfill-Keeping r hook records = Keeping-bind p _ _ (Keeping-lift p _) λ c.
        Keeping-bind p _ _ (Keeping-lift p _) λ v.
          Keeping-bind p _ _ (write_quarantine-Keeping o r v.rejected) λ _.
            Keeping-bind p _ _ (existing_rows-Keeping c r.dataset) λ existing.
              Keeping-bind p _ _ (Keeping-lift p _) λ d.
                Keeping-bind p _ _ (write_groups-Keeping c r hook d.new_rows) λ written.
                  Keeping-bind p _ _ (existing_rows-Keeping c r.dataset) λ after.
                    Keeping-bind p _ _ (reconcile-Keeping r _)
                      λ _. finish-Keeping c r hook records v d written _ _

    -- Whatever a run does, returning or raising at any point, every final artifact that stood in
    -- the lake before it stands there afterwards with the same content.
    pub run_backfill-immutable :
        (r : Request) (hook : Hook) (records : List Row) (s : Lake p.File) (a : Artifact)
        (f : p.File)
        → lookup Artifact_discrete a s.artifacts ≡ some f
        → lookup Artifact_discrete a (run_backfill p o contracts r hook records s).1.artifacts
          ≡ some f
    run_backfill-immutable r hook records s a f h = (run_backfill-Keeping r hook records).at s a f h
