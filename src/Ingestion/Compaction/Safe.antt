-- ===== src/Ingestion/Compaction/Safe.antt =====
-- What a compaction (ingestion/compaction.py) leaves of the lake, the archive and the lock, however
-- it ends.
use marketforge.Prelude.{
  ◌≡◌, ◌⊎◌, Option, none, inl, inr, refl, sym, ap, String, false, some, List, [], ◌∷◌, ◌++◌, Result,
  ok, err, if_pos,
}
use marketforge.Prelude.Dict.{lookup}
use marketforge.Prelude.Exec.{lift_then, gets_then, modify_then}
use marketforge.Ingestion.Values.{Exception}
use marketforge.Ingestion.Contracts.{Contract}
use marketforge.Ingestion.Lake.{
  Artifact, Artifact_discrete, compact, Parquet, Partition, Partition_discrete,
}
use marketforge.Ingestion.Loaders.Types.{Lake}
use marketforge.Ingestion.Compaction.Rows.{Sql}
use marketforge.Ingestion.Compaction.{
  Faults, CompactionRequest, CompactionResult, Place_discrete, Site, partition_at, place_of, inside,
  outside, Compacting, finally_unlock, unlock, release, compact_partition, check_request,
  recovering, listing, opening, writing_lock, unlocking,
}
use marketforge.Ingestion.Compaction.Phases.{Copied, fault_then}
use marketforge.Ingestion.Compaction.Listing.{lookup_regrouped}
use marketforge.Ingestion.Compaction.Ended.{Kept, Ended, guarded-Ended}

module _ (p : Parquet) (q : Sql) (faults : Faults) (contracts : List (String × Contract))
    (r : CompactionRequest) (s : Site p.File) where
  -- One file stands for the partition's, which are in the archive.
  pub record Rewritten (t : Site p.File) : Type 0 where
    pub contract : Contract
    pub file : p.File
    pub checked : check_request p q faults contracts r ≡ ok contract
    pub copied : Copied p q faults contract r (inside (partition_at r) s.lake.artifacts) file
    pub artifacts :
        t.lake.artifacts
        ≡ outside (partition_at r) s.lake.artifacts
          ++ (compact (partition_at r) r.compaction_id, file) ∷ []
    pub archived :
        lookup Place_discrete (place_of r) t.archives
        ≡ some (inside (partition_at r) s.lake.artifacts)

  -- Every file stands where it stood.
  pub Unchanged : Site p.File → Type 0
  Unchanged t =
      (a : Artifact)
      → lookup Artifact_discrete a t.lake.artifacts ≡ lookup Artifact_discrete a s.lake.artifacts

  -- The partition's files are in the archive, from where they could not be moved back.
  pub record Stranded (t : Site p.File) : Type 0 where
    pub artifacts : t.lake.artifacts ≡ outside (partition_at r) s.lake.artifacts
    pub archived :
        lookup Place_discrete (place_of r) t.archives
        ≡ some (inside (partition_at r) s.lake.artifacts)
    pub broken : (e : Exception) × (faults recovering ≡ some e)

  -- Nothing of the lake but its artifacts and locks is other than it was.
  abbrev Beside : List Partition → Site p.File → Type 0
  Beside locks t = t.lake ≡ record s.lake { artifacts = t.lake.artifacts; locks = locks }

  -- The locks are as before; or the partition's lock is left, and the run raises what the writing or
  -- the removal of the lock file raised.
  pub Locks : Result Exception CompactionResult × Site p.File → Type 0
  Locks out =
      Beside s.lake.locks out.1
      ⊎ (Beside (partition_at r ∷ s.lake.locks) out.1
          × ((e : Exception) × (out.0 ≡ err e)
              × ((faults writing_lock ≡ some e) ⊎ (faults unlocking ≡ some e))))

  Files : Result Exception CompactionResult × Site p.File → Type 0
  Files out =
      Rewritten out.1 ⊎ (((e : Exception) × (out.0 ≡ err e)) × (Unchanged out.1 ⊎ Stranded out.1))

  pub Outcome : Result Exception CompactionResult × Site p.File → Type 0
  Outcome out = Locks out × Files out

  still : (e : Exception) → Outcome (err e, s)
  unfolding Outcome Files Locks Unchanged
  still e = (inl refl, inr ((e, refl), inl (λ a. refl)))

  abbrev locked : Site p.File
  locked = record s {
    lake = record s.lake { locks = partition_at r ∷ s.lake.locks };
    moved_to_archive = false;
  }

  left_locked : (e : Exception) → faults writing_lock ≡ some e → Outcome (err e, locked)
  unfolding Outcome Files Locks Unchanged
  left_locked e h = (inr (refl, (e, refl, inl h)), inr ((e, refl), inl (λ a. refl)))

  -- The end of the run before the lock is removed
  Guarded : Result Exception CompactionResult × Site p.File → Type 0
  Guarded out = Beside (partition_at r ∷ s.lake.locks) out.1 × Files out

  Ended-Guarded :
      (c : Contract) (m : Result Exception CompactionResult) (t : Site p.File)
      → check_request p q faults contracts r ≡ ok c
      → Ended p q faults c r locked refl (m, t)
      → Guarded (m, t)
  unfolding Guarded Files Ended Kept Unchanged
  Ended-Guarded c m t checked (inl h) = (
    rw h.lake refl,
    inl (record {
      contract = c;
      file = h.file;
      checked = checked;
      copied = h.copied;
      artifacts = rw h.lake refl;
      archived = h.archived;
    }),
  )
  Ended-Guarded c m t checked (inr (failed, inl (inl h))) =
      (rw h refl, inr (failed, inl (λ a. rw h refl)))
  Ended-Guarded c m t checked (inr (failed, inl (inr h))) = (
    rw h refl,
    inr (failed, inl (λ a. rw h (lookup_regrouped (partition_at r) a s.lake.artifacts))),
  )
  Ended-Guarded c m t checked (inr (failed, inr (h, broken))) = (
    rw h.lake refl,
    inr (
      failed,
      inr (record { artifacts = rw h.lake refl; archived = h.archived; broken = broken }),
    ),
  )

  free : unlock (partition_at r) (partition_at r ∷ s.lake.locks) ≡ s.lake.locks
  unfolding unlock
  free =
      if_pos (Partition_discrete (partition_at r) (partition_at r)) refl s.lake.locks
        (partition_at r ∷ unlock (partition_at r) s.lake.locks)

  unlocked :
      (artifacts : List (Artifact × p.File)) (l : Lake p.File)
      → l ≡ record locked.lake { artifacts = artifacts }
      → ◌≡◌ {A = Lake p.File}
          (record l { locks = unlock (partition_at r) l.locks })
          (record s.lake { artifacts = artifacts })
  unlocked artifacts l h =
      rw h (ap (λ ls. record s.lake { artifacts = artifacts; locks = ls }) free)

  Files-unlocked :
      (m : Result Exception CompactionResult) (t : Site p.File) (locks : List Partition)
      → Files (m, t)
      → Files (m, record t { lake = record t.lake { locks = locks } })
  unfolding Files Unchanged
  Files-unlocked m t locks (inl h) = inl (record {
    contract = h.contract;
    file = h.file;
    checked = h.checked;
    copied = h.copied;
    artifacts = h.artifacts;
    archived = h.archived;
  })
  Files-unlocked m t locks (inr (f, inl h)) = inr (f, inl h)
  Files-unlocked m t locks (inr (f, inr h)) =
      inr (f, inr (record { artifacts = h.artifacts; archived = h.archived; broken = h.broken }))

  -- The files of a failed run are among what any error leaves.
  Files-fails :
      (m : Result Exception CompactionResult) (t : Site p.File) (e : Exception)
      → Files (m, t)
      → Files (err e, t)
  unfolding Files
  Files-fails m t e (inl h) = inl h
  Files-fails m t e (inr (f, h)) = inr ((e, refl), h)

  release-Outcome :
      (o : Option Exception) (m : Result Exception CompactionResult) (t : Site p.File)
      → o ≡ faults unlocking
      → Guarded (m, t)
      → Outcome (release p o (partition_at r) (m, t))
  unfolding release Outcome Guarded Files Locks Unchanged
  release-Outcome none m t at (h, g) =
      (inl (unlocked t.lake.artifacts t.lake h), Files-unlocked m t _ g)
  release-Outcome (some e) m t at (h, g) = (inr (h, (e, refl, inr (sym at))), Files-fails m t e g)

  finally-Outcome :
      (c : Contract) (m : Compacting p CompactionResult)
      → check_request p q faults contracts r ≡ ok c
      → Ended p q faults c r locked refl (m locked)
      → Outcome (finally_unlock p q faults (partition_at r) m locked)
  unfolding finally_unlock
  finally-Outcome c m checked h =
      release-Outcome (faults unlocking) _ _ refl (Ended-Guarded c _ _ checked h)

  -- However a compaction ends, the lake holds what it held but for the partition's files, the new file
  -- and the locks. The locks are as before, or the run raises what the writing or the removal of its
  -- lock file raised and the partition's lock is left. When it returns, one file with the first row of
  -- each key stands in place of the partition's files, which are in the archive. When it raises, this
  -- is so too, or every file stands where it stood, or the partition's files are in the archive because
  -- the move of them back was refused.
  pub compact_partition-Outcome : Outcome (compact_partition p q faults contracts r s)
  unfolding compact_partition
  compact_partition-Outcome =
      lift_then Outcome _ _ s
        (λ c checked.
          fault_then p Outcome faults listing _ s
            (gets_then Outcome _ _ s (
              lift_then Outcome _ _ s
                (λ u enough.
                  fault_then p Outcome faults opening _ s
                    (gets_then Outcome _ _ s (
                      lift_then Outcome _ _ s
                        (λ v free. modify_then Outcome _ _ s (
                          fault_then p Outcome faults writing_lock _ locked
                            (finally-Outcome c _ checked (guarded-Ended p q faults c r locked refl))
                            left_locked))
                        (λ e h. still e)))
                    (λ e h. still e))
                (λ e h. still e)))
            (λ e h. still e))
        (λ e h. still e)
