-- ===== src/Ingestion/Loaders/IncrementalRun/Checkpointed.antt =====
-- The checkpoint across an incremental run (`run_incremental` of ingestion/loaders/incremental.py).
use marketforge.Prelude.{
  ℕ, ◌≤◌, ◌≡◌, refl, subst, ◌∙◌, String, Option, none, some, List, Result, err, arith,
}
use marketforge.Prelude.Exec.{lift, gets, pure, ◌>>=◌, >>=_cases}
use marketforge.Ingestion.Values.{Exception, Row}
use marketforge.Ingestion.Contracts.{Contract}
use marketforge.Ingestion.Checkpoints.{get}
use marketforge.Ingestion.Checkpoints.Monotone.{date_in, date_in-advance}
use marketforge.Ingestion.Lake.{Parquet}
use marketforge.Ingestion.Loaders.Types.{Hook, BackfillResult, Request, Outside}
use marketforge.Ingestion.Loaders.Incremental.{DateParsers}
use marketforge.Ingestion.Loaders.IncrementalRun.{
  IncrementalRequest, Store, Incremental, backfill, move_checkpoint, run_incremental,
}

module _ (p : Parquet) (o : Outside) (parsers : DateParsers)
    (contracts : List (String × Contract)) where
  abbrev Act : Type 0 → Type 0
  Act A = Incremental p o parsers contracts A

  -- What an action does to the checkpoints: nothing if it raises, and no date moves back.
  record Guards {A : Type 0} (m : Act A) : Type 0 where
    raised :
        (s : Store p.File) (e : Exception) → (m s).0 ≡ err e → (m s).1.checkpoints ≡ s.checkpoints
    forward :
        (s : Store p.File) (dataset source : String)
        → date_in (get s.checkpoints dataset source)
          ≤ date_in (get (m s).1.checkpoints dataset source)

  -- An action that leaves the checkpoints alone, then one that guards them.
  Guards-bind :
      {A B : Type 0} (m : Act A) (f : A → Act B)
      → ((s : Store p.File) → (m s).1.checkpoints ≡ s.checkpoints)
      → ((a : A) → Guards (f a))
      → Guards (m >>= f)
  Guards-bind m f still g = record {
    raised = λ s e.
        >>=_cases (λ x. x.0 ≡ err e → x.1.checkpoints ≡ s.checkpoints) m f s
          (λ a _ h. (g a).raised (m s).1 e h ∙ still s) (λ e' _ h. still s);
    forward = λ s dataset source.
        >>=_cases
          (λ x.
            date_in (get s.checkpoints dataset source)
            ≤ date_in (get x.1.checkpoints dataset source))
          m f s
          (λ a _.
            subst
              (λ t.
                date_in (get t dataset source)
                ≤ date_in (get (f a (m s).1).1.checkpoints dataset source))
              (still s) ((g a).forward (m s).1 dataset source))
          (λ e _. rw (still s) (omega arith));
  }

  -- An action that guards the checkpoints, and a value made of its result.
  Guards-map : {A B : Type 0} (m : Act A) (g : A → B) → Guards m → Guards (m >>= λ a. pure (g a))
  unfolding pure
  Guards-map m g h = record {
    raised = λ s e.
        >>=_cases (λ x. x.0 ≡ err e → x.1.checkpoints ≡ s.checkpoints) m (λ a. pure (g a)) s
          (λ a _ k. absurd (cc k)) (λ e' q k. h.raised s e' q);
    forward = λ s dataset source.
        >>=_cases
          (λ x.
            date_in (get s.checkpoints dataset source)
            ≤ date_in (get x.1.checkpoints dataset source))
          m (λ a. pure (g a)) s (λ a _. h.forward s dataset source)
          (λ e _. h.forward s dataset source);
  }

  lift_still :
      {A : Type 0} (v : Result Exception A) (s : Store p.File)
      → ((lift {S = Store p.File} v) s).1.checkpoints ≡ s.checkpoints
  unfolding lift
  lift_still v s = refl

  gets_still :
      {A : Type 0} (f : Store p.File → A) (s : Store p.File)
      → ((gets {E = Exception} f) s).1.checkpoints ≡ s.checkpoints
  unfolding gets
  gets_still f s = refl

  backfill_still :
      (r : Request) (hook : Hook) (rows : List Row) (s : Store p.File)
      → (backfill p o parsers contracts r hook rows s).1.checkpoints ≡ s.checkpoints
  unfolding backfill
  backfill_still r hook rows s = refl

  move_checkpoint-Guards :
      (r : IncrementalRequest) (result : BackfillResult) (before latest : Option ℕ)
      → Guards (move_checkpoint p o parsers contracts r result before latest)
  unfolding move_checkpoint
  move_checkpoint-Guards r result before none = record {
    raised = λ s e h. refl;
    forward = λ s dataset source. omega arith;
  }
  move_checkpoint-Guards r result before (some latest) = record {
    raised = λ s e h. absurd (cc h);
    forward = λ s dataset source. ground (
      arith,
      date_in-advance s.checkpoints r.dataset r.source latest result.run_id r.checkpointed_at
          dataset source,
    );
  }

  run_incremental-Guards :
      (r : IncrementalRequest) (hook : Hook) (records : List Row)
      → Guards (run_incremental p o parsers contracts r hook records)
  unfolding run_incremental
  run_incremental-Guards r hook records = Guards-bind _ _ (lift_still _) λ c.
      Guards-bind _ _ (gets_still _) λ checkpoint. Guards-bind _ _ (lift_still _) λ window.
        Guards-bind _ _ (lift_still _) λ field. Guards-bind _ _ (lift_still _) λ selected.
          Guards-bind _ _ (backfill_still _ hook selected)
            λ result. Guards-map _ _ (move_checkpoint-Guards r result _ result.max_event_date)

  -- An incremental run that raises, wherever it does, leaves every checkpoint as it was; and whatever
  -- a run does, no key's checkpoint date moves back.
  pub run_incremental_checkpoints :
      (r : IncrementalRequest) (hook : Hook) (records : List Row) (s : Store p.File)
      → ((e : Exception)
          → (run_incremental p o parsers contracts r hook records s).0 ≡ err e
          → (run_incremental p o parsers contracts r hook records s).1.checkpoints ≡ s.checkpoints)
        × ((dataset source : String)
            → date_in (get s.checkpoints dataset source)
              ≤ date_in (
                  get
                    (run_incremental p o parsers contracts r hook records s).1.checkpoints
                    dataset
                    source))
  run_incremental_checkpoints r hook records s =
      let g = run_incremental-Guards r hook records in (g.raised s, g.forward s)
