-- ===== src/Warehouse/TimeTravel/Ready.antt =====
-- The plan of a build (warehouse/time_travel.py) in the state that its manifest was made from.
use marketforge.Prelude.{
  ◌+◌, ◌≡◌, refl, subst, inl, true, some, String, String_discrete, List, [], ◌∷◌, all, ok, length,
  In→contains, All, if_pos, arith,
}
use marketforge.Prelude.Dict.{lookup}
use marketforge.Ingestion.Values.{Datetime, Row}
use marketforge.Observability.Builds.{Item, Manifest, Digests, Repo, create_build_manifest}
use marketforge.Observability.Builds.Described.{AreStored, Describes, resolve_there}
use marketforge.Observability.Builds.Verified.{create-Made}
use marketforge.Warehouse.TimeTravel.{
  is_build_id, load_build, plan_item, plan_items, is_ready, reproduction_plan, rows_in, files_of,
  count,
}

module _ {File : Type 0} (d : Digests File) (rows_of : File → List Row) where
  is_ready_item :
      (item : Item) (f : File)
      → item.content_hash ≡ d.file_hash f
      → is_ready d (plan_item d item (some f)) ≡ true
  unfolding is_ready plan_item
  is_ready_item item f same =
      rw same (In→contains String_discrete (d.file_hash f) (d.file_hash f ∷ []) (inl refl))

  items_ready :
      (items : List Item) (s : Repo File)
      → All (Describes d rows_of s) items
      → (all (is_ready d) (plan_items d items s) ≡ true)
        × (count d rows_of (files_of (plan_items d items s)) ≡ rows_in items)
  unfolding plan_items plan_item all rows_in files_of count Describes
  items_ready [] s h = (refl, refl)
  items_ready (item ∷ items) s ((f, there, hash, rows), h) =
      let (ready, counted) = items_ready items s h in
      let found = resolve_there d rows_of s item f there in
      let sizes : length (rows_of f) + count d rows_of (files_of (plan_items d items s))
          ≡ item.row_count + rows_in items =
        omega (arith, rows, counted) in
      rw (found, is_ready_item item f hash) (ready, sizes)

  load_there :
      (m : Manifest) (s : Repo File)
      → is_build_id m.build_id ≡ true
      → lookup String_discrete m.build_id s.manifests ≡ some m
      → load_build m.build_id s ≡ ok m
  unfolding load_build
  load_there m s digest there =
      rw (digest, there) (if_pos (String_discrete m.build_id m.build_id) refl _ _)

  -- When each stored manifest stood under the digest of its identity, a manifest that was made from a
  -- state, with an identifier of 64 hexadecimal digits, is loaded again by this identifier in the
  -- state after it; its plan finds each artifact unchanged; and the rows that the plan expects are
  -- those of the files that it found.
  pub plan-create :
      (datasets : List String) (parameters : List (String × String)) (now : Datetime)
      (s t : Repo File) (m : Manifest)
      → AreStored d rows_of s
      → is_build_id m.build_id ≡ true
      → create_build_manifest d rows_of datasets parameters now s ≡ ok (m, t)
      → (load_build m.build_id t ≡ ok m)
        × ((reproduction_plan d m t).inputs_ready ≡ true)
        × (count d rows_of (files_of (reproduction_plan d m t).artifacts)
            ≡ (reproduction_plan d m t).expected_rows)
  unfolding reproduction_plan Describes
  plan-create datasets parameters now s t m stored digest h =
      let made = create-Made d rows_of datasets parameters now s t m stored h in
      let described =
        subst (λ (r : Repo File). All (Describes d rows_of r) m.identity.source_partitions)
          made.state_after made.described in
      let (ready, counted) = items_ready m.identity.source_partitions t described in
      (load_there m t digest made.there, ready, counted)
