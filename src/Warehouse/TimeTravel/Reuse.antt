-- ===== src/Warehouse/TimeTravel/Reuse.antt =====
-- A catalog (warehouse/time_travel.py) that is asked for again.
use marketforge.Prelude.{
  ℕ, ◌≡◌, refl, sym, ap, ◌∙◌, subst, inl, inr, true, false, not, Bool, Option-cases, none, some,
  String, String_discrete, List, [], ◌∷◌, ◌++◌, map, ok, In→contains, In, In-map, Distinct, if_pos,
  if_neg, arith, raise_if, ◌==◌,
}
use marketforge.Prelude.Dict.{lookup, keys, insert-Distinct, lookup-insert}
use marketforge.Ingestion.Values.{Row, Raises, Exception, runtime_error}
use marketforge.Ingestion.Contracts.Steps.{>>=-eq-ok}
use marketforge.Observability.Builds.{Digests, sorted}
use marketforge.Observability.Builds.Sorting.{In-sorted, In-sorted_back}
use marketforge.Warehouse.TimeTravel.{
  Planned, Plan, Catalog, CatalogResult, rows_in, group, files_of, is_name, count, stored_counts,
  expected_counts, make_views, Counts_discrete, reuse_or_make, create_catalog,
}

abbrev Groups : Type 0 → Type 0
Groups File = List (String × List (Planned File))

group-Distinct :
    {File : Type 0} (artifacts : List (Planned File)) (groups : Groups File)
    → Distinct (keys groups)
    → Distinct (keys (group artifacts groups))
unfolding group
group-Distinct [] groups h = h
group-Distinct (a ∷ artifacts) groups h =
    elim (Option-cases (lookup String_discrete a.item.dataset groups)) [
      | inl e ↦
          rw (e, group)
            (group-Distinct artifacts _
              (insert-Distinct String_discrete a.item.dataset (a ∷ []) groups h))
      | inr (before, e) ↦
          rw (e, group)
            (group-Distinct artifacts _
              (insert-Distinct String_discrete a.item.dataset (before ++ a ∷ []) groups h))
    ]

-- In a dict, a pair that it has is what its key gives.
lookup_In :
    {V : Type 0} (k : String) (v : V) (d : List (String × V))
    → Distinct (keys d)
    → In (k, v) d
    → lookup String_discrete k d ≡ some v
unfolding lookup
lookup_In k v ((j, w) ∷ d) h (inl e) =
    if_pos (String_discrete j k) (sym (ap (λ q. q.0) e)) _ _ ∙ ap some (sym (ap (λ q. q.1) e))
lookup_In {V = V} k v ((j, w) ∷ d) h (inr m) =
    let there = In-map (λ (q : String × V). q.0) (k, v) d m in
    if_neg (String_discrete j k) (λ q. h.0 (subst (λ x. In x (keys d)) (sym q) there)) _ _
    ∙ lookup_In k v d h.1 m
lookup_In k v [] h m = absurd m

-- Two pairs with one key are one pair.
abbrev Single : {V : Type 0} → List (String × V) → Type 0
Single {V = V} d = (k : String) (v w : V) → In (k, v) d → In (k, w) d → v ≡ w

some_injective : {A : Type 0} (a b : A) → some a ≡ some b → a ≡ b
some_injective a b e = cc

Distinct-Single : {V : Type 0} (d : List (String × V)) → Distinct (keys d) → Single d
Distinct-Single d h k v w m n = some_injective v w (sym (lookup_In k v d h m) ∙ lookup_In k w d h n)

sorted-Single :
    {V : Type 0} (before : String × V → String × V → Bool) (d : List (String × V))
    → Single d
    → Single (sorted before d)
sorted-Single before d h k v w m n =
    h k v w (In-sorted before (k, v) d m) (In-sorted before (k, w) d n)

ok_injective : {A : Type 0} (a b : A) → ◌≡◌ {A = Raises A} (ok a) (ok b) → a ≡ b
ok_injective a b h = cc h

not_raised : (b : Bool) (e : Exception) (u : Unit {0}) → raise_if b e ≡ ok u → b ≡ false
not_raised true e u h = absurd (cc h)
not_raised false e u h = refl

equal_of : (m n : ℕ) → not (m == n) ≡ false → m ≡ n
equal_of m n h = ground arith

module _ {File : Type 0} (d : Digests File) (rows_of : File → List Row) where
  -- The view of a dataset reads the files of its items, which have the rows of the manifest.
  abbrev Holds : List (String × List File) → String → List (Planned File) → Type 0
  Holds views k items =
      (lookup String_discrete k views ≡ some (files_of items))
      × (count d rows_of (files_of items) ≡ rows_in (map (λ (a : Planned File). a.item) items))

  make_views-Holds :
      (groups : Groups File) (views : List (String × List File)) (counts : List (String × ℕ))
      (k : String) (items : List (Planned File))
      → Single groups
      → make_views d rows_of groups ≡ ok (views, counts)
      → In (k, items) groups
      → Holds views k items
  unfolding make_views lookup
  make_views-Holds [] views counts k items single h m = absurd m
  make_views-Holds ((dataset, first) ∷ groups) views counts k items single h m =
      let (u, named, h1) = >>=-eq-ok (raise_if (not (is_name dataset)) _) _ (views, counts) h in
      let (v, counted, h2) =
        >>=-eq-ok
          (raise_if
            (not (
              count d rows_of (files_of first)
              == rows_in (map (λ (a : Planned File). a.item) first)))
            (runtime_error "historical row count does not match manifest"))
          _ (views, counts) h1 in
      let (t, rest, h3) = >>=-eq-ok (make_views d rows_of groups) _ (views, counts) h2 in
      let built = ap (λ q. q.0) (ok_injective _ (views, counts) h3) in
      let sizes = equal_of _ _ (not_raised _ _ v counted) in
      elim (String_discrete dataset k) [
        | yes same ↦
            let is : first ≡ items =
              single k first items (inl (ap (λ x. (x, first)) (sym same))) m in
            (
              subst
                  (λ (vs : List (String × List File)).
                    lookup String_discrete k vs ≡ some (files_of items))
                  built
                  (if_pos (String_discrete dataset k) same _ _
                    ∙ ap (λ (xs : List (Planned File)). some (files_of xs)) is),
              subst
                  (λ (xs : List (Planned File)).
                    count d rows_of (files_of xs) ≡ rows_in (map (λ (a : Planned File). a.item) xs))
                  is sizes,
            )
        | no differs ↦ elim m [
          | inl e ↦ absurd (differs (sym (ap (λ q. q.0) e)))
          | inr n ↦
              let (found, counted_rest) =
                make_views-Holds groups t.0 t.1 k items (λ j x y a b. single j x y (inr a) (inr b))
                  rest n in
              (
                subst
                    (λ (vs : List (String × List File)).
                      lookup String_discrete k vs ≡ some (files_of items))
                    built (if_neg (String_discrete dataset k) differs _ _ ∙ found),
                counted_rest,
              )
        ]
      ]

  stored_counts-eq :
      (groups : Groups File) (c : Catalog File)
      → ((k : String) (items : List (Planned File)) → In (k, items) groups → Holds c.views k items)
      → stored_counts d rows_of groups c ≡ ok (expected_counts d rows_of groups)
  unfolding stored_counts expected_counts
  stored_counts-eq [] c h = refl
  stored_counts-eq ((dataset, items) ∷ groups) c h =
      let (found, counted) = h dataset items (inl refl) in
      rw (found, stored_counts, counted, stored_counts-eq groups c (λ k is m. h k is (inr m)))

  -- The catalog that was made
  record Stored (plan : Plan File) (target : String) (after : List (String × Catalog File))
      : Type 0 where
    catalog : Catalog File
    there : lookup String_discrete target after ≡ some catalog
    built : catalog.build_id ≡ plan.manifest.build_id
    holds :
        (k : String) (items : List (Planned File))
        → In (k, items) (group plan.artifacts [])
        → Holds catalog.views k items

  made-Stored :
      (plan : Plan File) (target : String) (catalogs after : List (String × Catalog File))
      (r : CatalogResult)
      → reuse_or_make d rows_of plan target catalogs none ≡ ok (r, after)
      → Stored plan target after
  unfolding reuse_or_make
  made-Stored plan target catalogs after r h =
      let groups = group plan.artifacts [] in
      let before = λ (x y : String × List (Planned File)). d.text_before x.0 y.0 in
      let (t, made, h1) = >>=-eq-ok (make_views d rows_of (sorted before groups)) _ (r, after) h in
      let c : Catalog File = record { build_id = plan.manifest.build_id; views = t.0 } in
      let same = ap (λ q. q.1) (ok_injective _ (r, after) h1) in
      record {
        catalog = c;
        there =
            subst (λ (cs : List (String × Catalog File)). lookup String_discrete target cs ≡ some c)
              same
              (lookup-insert String_discrete target target c catalogs
                ∙ if_pos (String_discrete target target) refl _ _);
        built = refl;
        holds = λ k items m.
            make_views-Holds (sorted before groups) t.0 t.1 k items
              (sorted-Single before groups
                (Distinct-Single groups (group-Distinct plan.artifacts [] tt)))
              made (In-sorted_back before (k, items) groups m);
      }

  reused :
      (plan : Plan File) (target : String) (after : List (String × Catalog File))
      (h : Stored plan target after)
      → reuse_or_make d rows_of plan target after (some h.catalog)
        ≡ ok (
          record {
            dataset_rows = expected_counts d rows_of (group plan.artifacts []);
            reused = true;
          },
          after,
        )
  unfolding reuse_or_make
  reused plan target after h =
      let groups = group plan.artifacts [] in
      let own =
        In→contains String_discrete plan.manifest.build_id (plan.manifest.build_id ∷ [])
          (inl refl) in
      let counts = expected_counts d rows_of groups in
      rw (stored_counts-eq groups h.catalog h.holds, h.built, own)
        (if_pos (Counts_discrete d rows_of counts counts) refl _ _)

  -- When a catalog was made at a path where none was, the same call made again raises nothing: it
  -- leaves the catalogs as they are and reports the catalog as reused, with the row counts that the
  -- plan expects.
  pub create_catalog_again :
      (plan : Plan File) (target : String) (catalogs after : List (String × Catalog File))
      (r : CatalogResult)
      → lookup String_discrete target catalogs ≡ none
      → create_catalog d rows_of plan target catalogs ≡ ok (r, after)
      → create_catalog d rows_of plan target after
        ≡ ok (
          record {
            dataset_rows = expected_counts d rows_of (group plan.artifacts []);
            reused = true;
          },
          after,
        )
  unfolding create_catalog
  create_catalog_again plan target catalogs after r fresh h =
      let (u, ready, h1) =
        >>=-eq-ok
          (raise_if (not plan.inputs_ready)
            (runtime_error "historical inputs are unavailable or changed"))
          _ (r, after) h in
      let h2 = ap (λ o. reuse_or_make d rows_of plan target catalogs o) (sym fresh) ∙ h1 in
      let stored = made-Stored plan target catalogs after r h2 in
      rw (not_raised _ _ u ready, stored.there) (reused plan target after stored)
