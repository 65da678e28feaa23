-- ===== src/Ingestion/Compaction/Swap.antt =====
-- The swap of a partition for its rewrite (ingestion/compaction.py), with its inner handler.
use marketforge.Prelude.{
  ℕ, ◌≡◌, ◌⊎◌, inl, inr, refl, ap, ◌∙◌, true, false, Option, Option-cases, some, List, [], ◌∷◌,
  ◌++◌, Result, ok, err, raise_if, contains,
}
use marketforge.Prelude.Dict.{lookup, keys}
use marketforge.Prelude.Exec.{pure, lift, gets, modify, ◌>>=◌, ◌>>◌, >>=_cases}
use marketforge.Ingestion.Values.{Exception, runtime_error}
use marketforge.Ingestion.Contracts.{Contract}
use marketforge.Ingestion.Lake.{Artifact, compact, Parquet}
use marketforge.Ingestion.Loaders.Types.{Lake}
use marketforge.Ingestion.Compaction.Rows.{Sql}
use marketforge.Ingestion.Compaction.{
  Faults, CompactionRequest, Place_discrete, Site, partition_at, place_of, inside, outside,
  or_nothing, outcome, fault, prepare, move_to_archive, move_staged, move_back, try_except, caught,
  handled, swap, finish, rewrite, archiving, promoting, moving_back, measuring, recording,
  after_validation_before_swap, after_archive_before_promotion,
}
use marketforge.Ingestion.Compaction.Phases.{
  Quiet, fault_then, lookup-insert_same, Staged, Ready, Copied, Prepared, prepare-Prepared,
}

module _ (p : Parquet) (q : Sql) (faults : Faults) (c : Contract) (r : CompactionRequest)
    (s : Site p.File) where
  abbrev pub files : List (Artifact × p.File)
  files = inside (partition_at r) s.lake.artifacts

  abbrev pub others : List (Artifact × p.File)
  others = outside (partition_at r) s.lake.artifacts

  abbrev pub Has : List (Artifact × p.File) → Site p.File → Type 0
  Has artifacts t = t.lake ≡ record s.lake { artifacts = artifacts }

  abbrev pub Archived : Site p.File → Type 0
  Archived t = lookup Place_discrete (place_of r) t.archives ≡ some files

  pub record Parked (t : Site p.File) : Type 0 where
    pub lake : Has others t
    pub archived : Archived t
    pub moved : t.moved_to_archive ≡ true

  pub record Restored (t : Site p.File) : Type 0 where
    pub lake : Has (others ++ files) t
    pub moved : t.moved_to_archive ≡ false

  pub record Promoted (t : Site p.File) : Type 0 where
    pub file : p.File
    pub copied : Copied p q faults c r files file
    pub lake : Has (others ++ (compact (partition_at r) r.compaction_id, file) ∷ []) t
    pub archived : Archived t

  abbrev pub Fails : {A : Type 0} → Result Exception A → Type 0
  Fails m = (e : Exception) × (m ≡ err e)

  unfoldable pub Swapped : {A : Type 0} → Result Exception A × Site p.File → Type 0
  Swapped out = Promoted out.1 ⊎ (Fails out.0 × (Quiet p s out.1 ⊎ (Parked out.1 ⊎ Restored out.1)))

  pub Has-append :
      (t : Site p.File) (xs ys : List (Artifact × p.File)) (o : Option (List (Artifact × p.File)))
      → Has xs t
      → o ≡ some ys
      → ◌≡◌ {A = Lake p.File}
          (record t.lake { artifacts = t.lake.artifacts ++ or_nothing o })
          (record s.lake { artifacts = xs ++ ys })
  unfolding or_nothing
  Has-append t xs ys o h e = rw (h, e) refl

  put_back-Swapped :
      (t : Site p.File) (e : Exception)
      → Parked t
      → Swapped {A = Unit {0}} (
          handled p e (
            (move_back p q faults moving_back r
                >> modify (λ u. record u { moved_to_archive = false }))
              t))
  unfolding move_back fault outcome modify ◌>>=◌ handled Swapped gets or_nothing
  put_back-Swapped t e h = elim (Option-cases (faults moving_back)) [
    | inl fine ↦ rw fine (
        inr (
          (e, refl),
          inr (inr (record { lake = Has-append t others files _ h.lake h.archived; moved = refl })),
        ))
    | inr (f, broken) ↦ rw broken (inr ((f, refl), inr (inl h)))
  ]

  promote-Swapped :
      (t : Site p.File)
      → Parked t
      → (ready : Ready p q faults c r files t)
      → Swapped (
          try_except p
            (move_staged p q faults r)
            (move_back p q faults moving_back r
              >> modify (λ u. record u { moved_to_archive = false }))
            t)
  unfolding try_except caught move_staged fault outcome modify ◌>>=◌ Swapped or_nothing Staged
  promote-Swapped t h ready = elim (Option-cases (faults promoting)) [
    | inl fine ↦ rw fine (
        inl (record {
          file = ready.file;
          copied = ready.copied;
          lake = Has-append t others _ _ h.lake ready.staged;
          archived = h.archived;
        }))
    | inr (e, broken) ↦ rw broken (put_back-Swapped t e h)
  ]

  Moved : Site p.File → Result Exception (Unit {0}) × Site p.File → Type 0
  Moved t out =
      ((Parked out.1 × (out.1.staging ≡ t.staging)) × (out.0 ≡ ok tt)) ⊎ (Fails out.0 × (out.1 ≡ t))

  move_to_archive-Moved : (t : Site p.File) → Quiet p s t → Moved t (move_to_archive p q faults r t)
  unfolding move_to_archive gets lift modify ◌>>=◌ Moved
  move_to_archive-Moved t quiet =
      fault_then p (Moved t) faults archiving _ t
        (>>=_cases (Moved t)
          (lift (
            raise_if (contains Place_discrete (place_of r) (keys t.archives))
              (runtime_error "Directory not empty")))
          _ t
          (λ u free. inl (
            (
              record {
                lake = rw quiet.lake refl;
                archived =
                    lookup-insert_same (place_of r) _ t.archives
                    ∙ ap (λ (l : Lake p.File). some (inside (partition_at r) l.artifacts))
                        quiet.lake;
                moved = refl;
              },
              refl,
            ),
            refl,
          ))
          (λ e h. inr ((e, refl), refl)))
        (λ e h. inr ((e, refl), refl))

  swap-Swapped :
      (t : Site p.File) → Quiet p s t → Ready p q faults c r files t → Swapped (swap p q faults r t)
  unfolding swap Swapped Staged Moved
  swap-Swapped t quiet ready =
      fault_then p Swapped faults after_validation_before_swap _ t
        (>>=_cases Swapped (move_to_archive p q faults r) _ t
          (λ v done. elim (move_to_archive-Moved t quiet) [
            | inl ((parked, same), fine) ↦
                fault_then p Swapped faults after_archive_before_promotion _ _
                  (promote-Swapped _ parked (record {
                    file = ready.file;
                    staged = rw same ready.staged;
                    copied = ready.copied;
                  }))
                  (λ e h. inr ((e, refl), inr (inl parked)))
            | inr ((e, failed), same) ↦ absurd (cc (done, failed))
          ])
          (λ e failed. elim (move_to_archive-Moved t quiet) [
            | inl ((parked, same), fine) ↦ absurd (cc (fine, failed))
            | inr (f, same) ↦ inr ((e, refl), inl (rw same quiet))
          ]))
        (λ e h. inr ((e, refl), inl quiet))

  -- The end of the run with the lake promoted
  finish-Promoted :
      (t : Site p.File) (n : ℕ × ℕ) → Promoted t → Promoted (finish p q faults r files n t).1
  unfolding finish gets modify pure ◌>>=◌
  finish-Promoted t n h =
      fault_then p (λ out. Promoted out.1) faults measuring _ t
        (fault_then p (λ out. Promoted out.1) faults recording _ t
          (record { file = h.file; copied = h.copied; lake = h.lake; archived = h.archived })
          (λ e g. h))
        (λ e g. h)

  -- What the rewrite leaves before the handler.
  pub rewrite-Swapped : Swapped (rewrite p q faults c r files s)
  unfolding rewrite Swapped Prepared
  rewrite-Swapped =
      let ready = prepare-Prepared p q faults c r files s in
      >>=_cases Swapped (prepare p q faults c r files) _ s
        (λ n prepared.
          let u = (prepare p q faults c r files s).1 in
          let swapped = swap-Swapped u ready.0 (ready.1 n prepared) in
          >>=_cases Swapped (swap p q faults r) _ u
            (λ v done. elim swapped [
              | inl h ↦ inl (finish-Promoted _ n h)
              | inr ((e, failed), h) ↦ absurd (cc (done, failed))
            ])
            (λ e failed. elim swapped [ inl h ↦ inl h | inr ((f, again), h) ↦ inr ((e, refl), h) ]))
        (λ e failed. inr ((e, refl), inl ready.0))
