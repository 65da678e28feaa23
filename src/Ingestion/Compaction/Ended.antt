-- ===== src/Ingestion/Compaction/Ended.antt =====
-- The end of a compaction's rewrite under its outer handler (ingestion/compaction.py).
use marketforge.Prelude.{
  ◌≡◌, ◌⊎◌, inl, inr, refl, ap, ◌∙◌, false, Option-cases, some, ◌++◌, Result, ok, err, Bool-cases,
}
use marketforge.Prelude.Exec.{gets, modify, ◌>>=◌}
use marketforge.Ingestion.Values.{Exception}
use marketforge.Ingestion.Contracts.{Contract, is_empty}
use marketforge.Ingestion.Lake.{Parquet}
use marketforge.Ingestion.Loaders.Types.{Lake}
use marketforge.Ingestion.Compaction.Rows.{Sql}
use marketforge.Ingestion.Compaction.{
  Faults, CompactionRequest, Site, partition_at, place_of, inside, outcome, fault, move_back,
  try_except, caught, handled, recover, rewrite, recovering,
}
use marketforge.Ingestion.Compaction.Swap.{
  files, others, Has, Fails, Parked, Promoted, Swapped, Has-append, rewrite-Swapped,
}
use marketforge.Ingestion.Compaction.Listing.{inside-outside, inside-snoc, contains_key}

module _ (p : Parquet) (q : Sql) (faults : Faults) (c : Contract) (r : CompactionRequest)
    (s : Site p.File) (unmoved : s.moved_to_archive ≡ false) where
  -- The files are where they were, in some order.
  unfoldable pub Kept : Site p.File → Type 0
  Kept t =
      Has p q faults c r s s.lake.artifacts t
      ⊎ Has p q faults c r s (others p q faults c r s ++ files p q faults c r s) t

  unfoldable pub Ended : {A : Type 0} → Result Exception A × Site p.File → Type 0
  Ended out =
      Promoted p q faults c r s out.1
      ⊎ (Fails p q faults c r s out.0
          × (Kept out.1
              ⊎ (Parked p q faults c r s out.1 × ((e : Exception) × (faults recovering ≡ some e)))))

  recover_still :
      (t : Site p.File) → t.moved_to_archive ≡ false → recover p q faults r t ≡ (ok tt, t)
  unfolding recover
  recover_still t h = rw h refl

  recover-Promoted :
      (t : Site p.File) → Promoted p q faults c r s t → recover p q faults r t ≡ (ok tt, t)
  unfolding recover
  recover-Promoted t h =
      let full =
        ap (λ (l : Lake p.File). is_empty (inside (partition_at r) l.artifacts)) h.lake
        ∙ inside-snoc (partition_at r) r.compaction_id h.file (others p q faults c r s) in
      elim (Bool-cases t.moved_to_archive) [ inl e ↦ rw (e, full) refl | inr e ↦ rw e refl ]

  recover-Parked :
      (t : Site p.File)
      → Parked p q faults c r s t
      → recover p q faults r t ≡ move_back p q faults recovering r t
  unfolding recover
  recover-Parked t h =
      let empty =
        ap (λ (l : Lake p.File). is_empty (inside (partition_at r) l.artifacts)) h.lake
        ∙ ap is_empty (inside-outside (partition_at r) s.lake.artifacts) in
      rw (h.moved, empty, contains_key (place_of r) _ t.archives h.archived) refl

  move_back-Ended :
      (A : Type 0) (t : Site p.File) (e : Exception)
      → Parked p q faults c r s t
      → Ended {A = A} (handled p e (move_back p q faults recovering r t))
  unfolding move_back fault outcome modify ◌>>=◌ handled Ended Kept gets
  move_back-Ended A t e h = elim (Option-cases (faults recovering)) [
    | inl fine ↦
        rw fine (inr ((e, refl), inl (inr (Has-append p q faults c r s t _ _ _ h.lake h.archived))))
    | inr (f, broken) ↦ rw broken (inr ((f, refl), inr (h, (f, refl))))
  ]

  caught-Ended :
      {A : Type 0} (m : Result Exception A) (t : Site p.File)
      → Swapped p q faults c r s (m, t)
      → Ended (caught p (recover p q faults r) (m, t))
  unfolding caught handled Ended Swapped Kept
  caught-Ended (ok a) t (inl h) = inl h
  caught-Ended (ok a) t (inr ((e, failed), h)) = absurd (cc failed)
  caught-Ended (err e) t (inl h) = rw (recover-Promoted t h) (inl h)
  caught-Ended (err e) t (inr (f, inl h)) =
      rw (recover_still t (h.moved ∙ unmoved)) (inr ((e, refl), inl (inl (h.lake))))
  caught-Ended (err e) t (inr (f, inr (inl h))) = rw (recover-Parked t h) (move_back-Ended _ t e h)
  caught-Ended (err e) t (inr (f, inr (inr h))) =
      rw (recover_still t h.moved) (inr ((e, refl), inl (inr h.lake)))

  pub guarded-Ended :
      Ended
        (try_except p (rewrite p q faults c r (files p q faults c r s)) (recover p q faults r) s)
  unfolding try_except
  guarded-Ended = caught-Ended _ _ (rewrite-Swapped p q faults c r s)
