-- ===== src/Ingestion/Compaction/Phases.antt =====
-- The phases of a compaction (ingestion/compaction.py): what its parts leave of the lake and the
-- archive.
use marketforge.Prelude.{
  ℕ, ◌≡◌, refl, sym, ◌∙◌, Option, none, some, List, [], ◌∷◌, map, Result, ok, err, raise_if,
  contains, if_pos,
}
use marketforge.Prelude.Dict.{lookup, insert, keys, lookup-insert}
use marketforge.Prelude.Exec.{pure, lift, gets, modify, ◌>>=◌, ◌>>◌, >>=_cases}
use marketforge.Ingestion.Values.{Value, Exception, file_exists, Row}
use marketforge.Ingestion.Contracts.{Contract}
use marketforge.Ingestion.Lake.{Artifact, compact, Parquet}
use marketforge.Ingestion.Loaders.Rows.{project_all}
use marketforge.Ingestion.Compaction.Rows.{
  Sql, value_columns, distinct_keys, hashes_of, first_ranked,
}
use marketforge.Ingestion.Compaction.{
  Faults, Point, CompactionRequest, Place, Place_discrete, Site, partition_at, place_of, all_rows,
  Compacting, outcome, fault, copy, prepare, checking, querying, copying, staging_directory,
}

pub lookup-insert_same :
    {V : Type 0} (k : Place) (v : V) (d : List (Place × V))
    → lookup Place_discrete k (insert Place_discrete k v d) ≡ some v
lookup-insert_same k v d =
    lookup-insert Place_discrete k k v d ∙ if_pos (Place_discrete k k) refl _ _

module _ (p : Parquet) where
  -- The lake, the archive and the flag are as they were.
  pub record Quiet (s t : Site p.File) : Type 0 where
    pub lake : t.lake ≡ s.lake
    pub archives : t.archives ≡ s.archives
    pub moved : t.moved_to_archive ≡ s.moved_to_archive

  pub Quiet-refl : (s : Site p.File) → Quiet s s
  Quiet-refl s = record { lake = refl; archives = refl; moved = refl }

  outcome_then :
      {A : Type 0} (P : Result Exception A × Site p.File → Type 0) (o : Option Exception)
      (k : Compacting p A) (s : Site p.File)
      → P (k s)
      → ((e : Exception) → o ≡ some e → P (err e, s))
      → P ((outcome p o >> k) s)
  unfolding outcome ◌>>=◌
  outcome_then P none k s h g = h
  outcome_then P (some e) k s h g = g e refl

  pub fault_then :
      {A : Type 0} (P : Result Exception A × Site p.File → Type 0) (faults : Faults) (at : Point)
      (k : Compacting p A) (s : Site p.File)
      → P (k s)
      → ((e : Exception) → faults at ≡ some e → P (err e, s))
      → P ((fault p faults at >> k) s)
  unfolding fault
  fault_then P faults at k s h g = outcome_then P (faults at) k s h g

  module _ (q : Sql) (faults : Faults) (c : Contract) (r : CompactionRequest)
      (files : List (Artifact × p.File)) where
    -- The compacted file: for each key the row that comes first, with the columns of the contract.
    pub record Copied (f : p.File) : Type 0 where
      pub ranked : List (List Value × Row)
      pub cells : List Row
      pub at_ranked :
          first_ranked q c (all_rows (λ (f : Artifact × p.File). p.rows f.1) files) [] ≡ ok ranked
      pub at_cells : project_all (keys c.fields) (map (λ e. e.1) ranked) ≡ ok cells
      pub written : f ≡ p.write (keys c.fields) cells

    unfoldable pub Staged : p.File → Site p.File → Type 0
    Staged f t =
        lookup Place_discrete (place_of r) t.staging
        ≡ some ((compact (partition_at r) r.compaction_id, f) ∷ [])

    pub record Ready (t : Site p.File) : Type 0 where
      pub file : p.File
      pub staged : Staged file t
      pub copied : Copied file

    Copying : List (List Value × Row) → Site p.File → Result Exception p.File × Site p.File → Type 0
    Copying ranked s out =
        Quiet s out.1
        × ((f : p.File)
            → out.0 ≡ ok f
            → Staged f out.1
              × ((cells : List Row) × (project_all (keys c.fields) (map (λ e. e.1) ranked)
                    ≡ ok cells)
                  × (f ≡ p.write (keys c.fields) cells)))

    Copying-err :
        (ranked : List (List Value × Row)) (s t : Site p.File) (e : Exception)
        → Quiet s t
        → Copying ranked s (err e, t)
    unfolding Copying
    Copying-err ranked s t e quiet = (quiet, λ f h. absurd (cc h))

    copy-Copying :
        (ranked : List (List Value × Row)) (s : Site p.File)
        → Copying ranked s (copy p q faults r (keys c.fields) (map (λ e. e.1) ranked) s)
    unfolding copy lift gets modify pure ◌>>=◌ Copying Staged
    copy-Copying ranked s =
        fault_then (Copying ranked s) faults staging_directory _ s
          (>>=_cases (Copying ranked s)
            (lift (raise_if (contains Place_discrete (place_of r) (keys s.staging)) file_exists)) _
            s
            (λ u free.
              let t : Site p.File = record s {
                staging = insert Place_discrete (place_of r) [] s.staging;
              } in
              fault_then (Copying ranked s) faults copying _ t
                (>>=_cases (Copying ranked s)
                  (lift (project_all (keys c.fields) (map (λ e. e.1) ranked))) _ t
                  (λ cells at_cells. (
                    record { lake = refl; archives = refl; moved = refl },
                    λ f h.
                        let same : p.write (keys c.fields) cells ≡ f = cc h in
                        (
                          rw (← same) (lookup-insert_same _ _ t.staging),
                          (cells, at_cells, sym same),
                        ),
                  ))
                  (λ e h.
                    Copying-err ranked s t e
                      (record { lake = refl; archives = refl; moved = refl })))
                (λ e h.
                  Copying-err ranked s t e (record { lake = refl; archives = refl; moved = refl })))
            (λ e h. Copying-err ranked s s e (Quiet-refl s)))
          (λ e h. Copying-err ranked s s e (Quiet-refl s))

    unfoldable pub Prepared : Site p.File → Result Exception (ℕ × ℕ) × Site p.File → Type 0
    Prepared s out = Quiet s out.1 × ((n : ℕ × ℕ) → out.0 ≡ ok n → Ready out.1)

    Prepared-err : (s t : Site p.File) (e : Exception) → Quiet s t → Prepared s (err e, t)
    unfolding Prepared
    Prepared-err s t e h = (h, λ n g. absurd (cc g))

    -- The checks of the copy
    checked-Prepared :
        (s t : Site p.File) (f : p.File) (one two : Result Exception (Unit {0})) (n : ℕ × ℕ)
        → Quiet s t
        → Ready t
        → Prepared s ((fault p faults checking >> (lift one >> (lift two >> pure n))) t)
    unfolding lift pure Prepared
    checked-Prepared s t f one two n quiet ready =
        fault_then (Prepared s) faults checking _ t
          (>>=_cases (Prepared s) (lift one) _ t
            (λ u h.
              >>=_cases (Prepared s) (lift two) _ t (λ v g. (quiet, λ m e. ready))
                (λ e g. Prepared-err s t e quiet))
            (λ e h. Prepared-err s t e quiet))
          (λ e h. Prepared-err s t e quiet)

    pub prepare-Prepared : (s : Site p.File) → Prepared s (prepare p q faults c r files s)
    unfolding prepare lift Copying
    prepare-Prepared s =
        let P = Prepared s in
        let rows = all_rows (λ (f : Artifact × p.File). p.rows f.1) files in
        let stop = λ (e : Exception). Prepared-err s s e (Quiet-refl s) in
        fault_then P faults querying _ s
          (>>=_cases P (lift _) _ s
            (λ u h.
              >>=_cases P (lift (distinct_keys c.idempotency_by rows [])) _ s
                (λ unique at_unique.
                  >>=_cases P
                    (lift (hashes_of q c.idempotency_by (value_columns (keys c.fields)) rows [])) _
                    s
                    (λ hashes at_hashes.
                      >>=_cases P (lift _) _ s
                        (λ v g.
                          >>=_cases P (lift (first_ranked q c rows [])) _ s
                            (λ ranked at_ranked.
                              let copied = copy-Copying ranked s in
                              >>=_cases P
                                (copy p q faults r (keys c.fields) (map (λ e. e.1) ranked)) _ s
                                (λ f made.
                                  let (staged, (cells, at_cells, written)) = copied.1 f made in
                                  checked-Prepared s _ f _ _ _ copied.0 (record {
                                    file = f;
                                    staged = staged;
                                    copied = record {
                                      ranked = ranked;
                                      cells = cells;
                                      at_ranked = at_ranked;
                                      at_cells = at_cells;
                                      written = written;
                                    };
                                  }))
                                (λ e g. Prepared-err s _ e copied.0))
                            (λ e g. stop e))
                        (λ e g. stop e))
                    (λ e g. stop e))
                (λ e g. stop e))
            (λ e g. stop e))
          (λ e g. stop e)
