-- ===== src/Observability/Builds/Described.antt =====
-- The items of a build manifest and its verification (observability/builds.py), one by one.
use marketforge.Prelude.{
  ◌≡◌, inl, refl, subst, true, false, Bool, Option, none, some, String, String_discrete, List, [],
  ◌∷◌, In→contains, length, ok, err, contains, All, if◌then◌else◌,
}
use marketforge.Prelude.Dict.{lookup}
use marketforge.Ingestion.Values.{Row, Raises, Exception}
use marketforge.Ingestion.Contracts.Steps.{>>=-eq-ok}
use marketforge.Ingestion.Lake.{Artifact, Artifact_discrete}
use marketforge.Observability.Builds.{
  Item, Manifest, Digests, Repo, BuildError, commit_changed, worktree_changed, code_changed,
  identity_changed, code_hash, resolve_artifact, item_of, add_item, items_of, difference, is_same,
  item_errors, all_item_errors, verify_manifest,
}

is_same_refl : (x : String) → is_same x x ≡ true
unfolding is_same contains
is_same_refl x = In→contains String_discrete x (x ∷ []) (inl refl)

skipped_or_added :
    (P : Item → Type 0) (b : Bool) (rest items : List Item) (i : Item)
    → ◌≡◌ {A = Raises (List Item)} (if b then ok rest else ok (i ∷ rest)) (ok items)
    → All P rest
    → P i
    → All P items
skipped_or_added P true rest items i h all at =
    let same : rest ≡ items = cc h in subst (All P) same all
skipped_or_added P false rest items i h all at =
    let same : i ∷ rest ≡ items = cc h in subst (All P) same (at, all)

skipped_or_err :
    (b : Bool) (rest items : List Item) (x : Exception)
    → ◌≡◌ {A = Raises (List Item)} (if b then ok rest else err x) (ok items)
    → rest ≡ items
skipped_or_err true rest items x h = cc h
skipped_or_err false rest items x h = absurd (cc h)

difference_nil : (x y : String) (e : BuildError) → x ≡ y → difference (is_same x y) e ≡ []
unfolding difference
difference_nil x y e same = rw (same, is_same_refl)

module _ {File : Type 0} (d : Digests File) (rows_of : File → List Row) where
  -- Each manifest is stored under its own identifier, which is the digest of its identity.
  unfoldable pub AreStored : Repo File → Type 0
  AreStored s =
      (id : String) (m : Manifest)
      → lookup String_discrete id s.manifests ≡ some m
      → (m.build_id ≡ id) × (id ≡ d.hash_bytes (d.json m.identity))

  -- The item is the description of a file of the lake.
  unfoldable pub Describes : Repo File → Item → Type 0
  Describes s item =
      (f : File) × (lookup Artifact_discrete item.artifact s.site.lake.artifacts ≡ some f)
      × (item.content_hash ≡ d.file_hash f)
      × (item.row_count ≡ length (rows_of f))

  pub resolve_there :
      (s : Repo File) (item : Item) (f : File)
      → lookup Artifact_discrete item.artifact s.site.lake.artifacts ≡ some f
      → resolve_artifact d item s ≡ some f
  unfolding resolve_artifact
  resolve_there s item f h = rw (h, resolve_artifact)

  items_quiet :
      (items : List Item) (s : Repo File) → All (Describes s) items → all_item_errors d items s ≡ []
  unfolding all_item_errors item_errors difference Describes
  items_quiet [] s h = refl
  items_quiet (item ∷ items) s ((f, there, hash, rows), h) = rw (
    resolve_there s item f there,
    all_item_errors,
    item_errors,
    hash,
    is_same_refl,
    items_quiet items s h,
  )

  add_item-Describes :
      (s : Repo File) (datasets : List String) (a : Artifact) (o : Option File)
      (rest items : List Item)
      → lookup Artifact_discrete a s.site.lake.artifacts ≡ o
      → add_item d rows_of datasets a o rest ≡ ok items
      → All (Describes s) rest
      → All (Describes s) items
  unfolding add_item item_of Describes
  add_item-Describes s datasets a none rest items e h all =
      subst (All (Describes s)) (skipped_or_err _ rest items _ h) all
  add_item-Describes s datasets a (some f) rest items e h all =
      skipped_or_added (Describes s) _ rest items _ h all (f, e, refl, refl)

  pub items_of-Describes :
      (s : Repo File) (datasets : List String) (paths : List Artifact) (items : List Item)
      → items_of d rows_of datasets paths s.site.lake.artifacts ≡ ok items
      → All (Describes s) items
  unfolding items_of
  items_of-Describes s datasets [] items h =
      let same : [] ≡ items = cc h in subst (All (Describes s)) same tt
  items_of-Describes s datasets (a ∷ paths) items h =
      let (rest, others, added) =
        >>=-eq-ok (items_of d rows_of datasets paths s.site.lake.artifacts) _ items h in
      add_item-Describes s datasets a _ rest items refl added
        (items_of-Describes s datasets paths rest others)

  -- The verification finds nothing in a manifest of the state that it describes.
  pub verify_manifest-nil :
      (m : Manifest) (git : String × String) (s : Repo File)
      → m.identity.git_commit ≡ git.0
      → m.identity.git_worktree ≡ git.1
      → m.identity.dbt_code_hash ≡ code_hash d s
      → m.build_id ≡ d.hash_bytes (d.json m.identity)
      → All (Describes s) m.identity.source_partitions
      → verify_manifest d m git s ≡ []
  unfolding verify_manifest
  verify_manifest-nil m git s commit worktree code id all =
      rw
        (
          difference_nil _ _ commit_changed commit,
          difference_nil _ _ worktree_changed worktree,
          difference_nil _ _ code_changed code,
          difference_nil _ _ identity_changed id,
          items_quiet m.identity.source_partitions s all,
        )
        refl
