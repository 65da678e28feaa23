-- ===== src/Ingestion/Loaders/RangeBackfill/Guarded.antt =====
-- When a range backfill (scripts/backfill.py) writes to the lake.
use marketforge.Prelude.{
  ℕ, ◌≡◌, ◌⊎◌, inl, inr, refl, sym, ap, subst, Option, none, some, String, List, Result, ok, err,
  arith,
}
use marketforge.Prelude.Dict.{lookup}
use marketforge.Prelude.Int.{pos, ◌+ℤ◌, ◌-ℤ◌, ◌≤ℤ◌}
use marketforge.Prelude.Exec.{pure, lift, modify, >>=_cases}
use marketforge.Ingestion.Values.{Exception, Row}
use marketforge.Ingestion.Contracts.{Contract}
use marketforge.Ingestion.Lake.{Artifact, Artifact_discrete, Parquet}
use marketforge.Ingestion.Loaders.Types.{BackfillResult, Outside, Lake}
use marketforge.Ingestion.Loaders.Backfill.{run_backfill}
use marketforge.Ingestion.Loaders.Backfill.Immutable.{run_backfill-immutable}
use marketforge.Ingestion.Loaders.Incremental.{DateParsers}
use marketforge.Ingestion.Loaders.RangeBackfill.Range.{select_range}
use marketforge.Ingestion.Loaders.RangeBackfill.{
  Budget, RangeRequest, Session, no_hook, request_of, as_raises, warn, check_budget, run_on_lake,
  execute_backfill,
}
use marketforge.Observability.ResourceGuardrails.{
  StorageAssessment, Status, safe, warning, blocked, enforce_storage, enforce_storage_iff,
  enforce_storage-valid, estimate_records,
}

as_raises-ok : {A : Type 0} (m : Result _ A) (a : A) → as_raises m ≡ ok a → m ≡ ok a
unfolding as_raises
as_raises-ok (ok b) a h = ground arith
as_raises-ok (err e) a h = ground arith

module _ (p : Parquet) (o : Outside) (parsers : DateParsers) (json_bytes : Row → ℕ)
    (contracts : List (String × Contract)) where
  -- The selected rows keep the limits, and the run of the backfill engine on them is the outcome.
  pub record Admitted (r : RangeRequest) (b : Budget) (records : List Row) (s : Session p.File)
      (out : Result Exception BackfillResult × Session p.File) : Type 0 where
    pub selected : List Row
    pub chosen : select_range parsers contracts r.dataset records r.start r.end ≡ ok selected
    pub project_kept :
        b.usage.project +ℤ pos (estimate_records json_bytes selected) ≤ℤ b.limits.hard
    pub raw_kept : b.usage.raw +ℤ pos (estimate_records json_bytes selected) ≤ℤ b.limits.raw
    pub free_kept :
        b.limits.minimum_free ≤ℤ b.usage.free -ℤ pos (estimate_records json_bytes selected)
    pub ran :
        (out.0, out.1.lake) ≡ run_backfill p o contracts (request_of r) no_hook selected s.lake

  warn-lake :
      (a : StorageAssessment) (t : Status) (s : Session p.File)
      → (warn p o parsers json_bytes contracts a t s).1.lake ≡ s.lake
  unfolding warn modify pure
  warn-lake a safe s = refl
  warn-lake a warning s = refl
  warn-lake a blocked s = refl

  check_budget-lake :
      (budget : Option Budget) (rows : List Row) (s : Session p.File)
      → (check_budget p o parsers json_bytes contracts budget rows s).1.lake ≡ s.lake
  unfolding check_budget pure lift
  check_budget-lake none rows s = refl
  check_budget-lake (some b) rows s =
      >>=_cases (λ out. out.1.lake ≡ s.lake) (lift _) _ s (λ a e. warn-lake a a.status s)
        (λ e h. refl)

  check_budget-ok :
      (budget : Option Budget) (b : Budget) (rows : List Row) (s : Session p.File)
      → budget ≡ some b
      → (check_budget p o parsers json_bytes contracts budget rows s).0 ≡ ok tt
      → (a : StorageAssessment) × (enforce_storage b.limits b.usage
            (pos (estimate_records json_bytes rows))
          ≡ ok a)
  unfolding check_budget lift
  check_budget-ok none b rows s e = absurd (cc e)
  check_budget-ok (some c) b rows s e =
      let same : c ≡ b = cc e in
      >>=_cases
        (λ out.
          out.0 ≡ ok tt
          → (a : StorageAssessment) × (enforce_storage b.limits b.usage
                (pos (estimate_records json_bytes rows))
              ≡ ok a))
        (lift
          (as_raises (enforce_storage c.limits c.usage (pos (estimate_records json_bytes rows)))))
        _ s (λ a found h. (a, rw (← same) (as_raises-ok _ a found))) (λ e f h. cc)

  Guarded :
      RangeRequest
      → Budget
      → List Row
      → Session p.File
      → Result Exception BackfillResult × Session p.File
      → Type 0
  Guarded r b records s out = (out.1.lake ≡ s.lake) ⊎ Admitted r b records s out

  run_on_lake-Guarded :
      (r : RangeRequest) (b : Budget) (records selected : List Row) (s t : Session p.File)
      (a : StorageAssessment)
      → select_range parsers contracts r.dataset records r.start r.end ≡ ok selected
      → enforce_storage b.limits b.usage (pos (estimate_records json_bytes selected)) ≡ ok a
      → t.lake ≡ s.lake
      → Guarded r b records s
          (run_on_lake p o parsers json_bytes contracts (request_of r) selected t)
  unfolding run_on_lake Guarded
  run_on_lake-Guarded r b records selected s t a chosen passed same =
      let size = pos (estimate_records json_bytes selected) in
      let (project, raw, free) =
        (enforce_storage_iff b.limits b.usage size (omega arith)
            (enforce_storage-valid b.limits b.usage size a passed)).0.0
          (a, passed) in
      inr (record {
        selected = selected;
        chosen = chosen;
        project_kept = project;
        raw_kept = raw;
        free_kept = free;
        ran = ap (λ lake. run_backfill p o contracts (request_of r) no_hook selected lake) same;
      })

  execute_backfill-Guarded :
      (r : RangeRequest) (b : Budget) (records : List Row) (s : Session p.File)
      → r.budget ≡ some b
      → Guarded r b records s (execute_backfill p o parsers json_bytes contracts r records s)
  unfolding execute_backfill Guarded lift
  execute_backfill-Guarded r b records s budgeted =
      >>=_cases (Guarded r b records s) (lift _) _ s
        (λ selected chosen.
          >>=_cases (Guarded r b records s)
            (check_budget p o parsers json_bytes contracts r.budget selected) _ s
            (λ u passed.
              let (a, e) = check_budget-ok r.budget b selected s budgeted passed in
              run_on_lake-Guarded r b records selected s _ a chosen e
                (check_budget-lake r.budget selected s))
            (λ e h. inl (check_budget-lake r.budget selected s)))
        (λ e h. inl refl)

  -- Under a budget, a range backfill leaves the lake as it is, unless the range is in order and the
  -- rows in it, by their estimated size, keep the project and the raw data within their limits and the
  -- reserve of free disk; then its outcome and the lake are those of the backfill engine on these
  -- rows. In every case each final artifact stands afterwards with the same content.
  pub execute_backfill_guarded :
      (r : RangeRequest) (b : Budget) (records : List Row) (s : Session p.File) (a : Artifact)
      (f : p.File)
      → r.budget ≡ some b
      → lookup Artifact_discrete a s.lake.artifacts ≡ some f
      → (((execute_backfill p o parsers json_bytes contracts r records s).1.lake ≡ s.lake)
          ⊎ Admitted r b records s (execute_backfill p o parsers json_bytes contracts r records s))
        × (lookup Artifact_discrete a
              (execute_backfill p o parsers json_bytes contracts r records s).1.lake.artifacts
            ≡ some f)
  unfolding Guarded
  execute_backfill_guarded r b records s a f budgeted there =
      let guarded = execute_backfill-Guarded r b records s budgeted in
      (
        guarded,
        elim guarded [
          | inl e ↦ rw e there
          | inr t ↦
              subst (λ (lake : Lake p.File). lookup Artifact_discrete a lake.artifacts ≡ some f)
                (sym (ap (λ q. q.1) t.ran))
                (run_backfill-immutable p o contracts (request_of r) no_hook t.selected s.lake a f
                  there)
        ],
      )
