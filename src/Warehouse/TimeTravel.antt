-- ===== src/Warehouse/TimeTravel.antt =====
-- warehouse/time_travel.py: the reproduction of a dataset build from its manifest. A catalog holds its
-- views as the files that they read.
pub mod Ready
pub mod Reuse
pub mod Tests
use Prim.Native.Char.{code}
use marketforge.Prelude.{
  ℕ, zero, suc, ◌+◌, String, String_discrete, ℕ_discrete, Bool, true, false, not, ◌&&◌, ◌||◌,
  Option, none, some, List, [], ◌∷◌, ◌++◌, map, ite, all, ok, err, ◌>>=◌, ◌>>◌, raise_if, length,
  contains, leb, ◌==◌, if◌then◌else◌,
}
use marketforge.Prelude.Dict.{lookup, insert}
use marketforge.Ingestion.Values.{value_error, runtime_error, file_not_found, Row, Raises}
use marketforge.Ingestion.Lake.{Artifact}
use marketforge.Observability.Builds.{Item, Manifest, Digests, Repo, resolve_artifact, sorted}

-- BUILD_ID: ^[0-9a-f]{64}$
unfoldable pub is_hex : ℕ → Bool
is_hex c = (leb b'0' c && leb c b'9') || (leb b'a' c && leb c b'f')

unfoldable pub is_digest : ℕ → String → Bool
unfolding is_hex
is_digest zero String.[] = true
is_digest zero (String.◌∷◌ c s) = false
is_digest (suc n) String.[] = false
is_digest (suc n) (String.◌∷◌ c s) = is_hex (code c) && is_digest n s

unfoldable pub is_build_id : String → Bool
unfolding is_digest
is_build_id build = is_digest 64 build

pub load_build : {File : Type 0} → String → Repo File → Raises Manifest
load_build build s = do
  raise_if (not (is_build_id build))
      (value_error "build_id must be a 64-character lowercase SHA-256 value")
  elim (lookup String_discrete build s.manifests) [
    | none ↦ err (file_not_found "dataset build manifest not found")
    | some m ↦
        ite (String_discrete m.build_id build) (ok m)
          (err (runtime_error "manifest build_id does not match its requested identity"))
  ]

-- An entry of `artifacts`: the item, the file at its resolved path if there is one, and the checks.
pub record Planned (File : Type 0) : Type 0 where
  pub item : Item
  pub resolved : Option File
  pub available : Bool
  pub hash_valid : Bool

pub record Plan (File : Type 0) : Type 0 where
  pub manifest : Manifest
  pub artifacts : List (Planned File)
  pub inputs_ready : Bool
  pub expected_rows : ℕ

rows_in : List Item → ℕ
rows_in [] = 0
rows_in (item ∷ items) = item.row_count + rows_in items

module _ {File : Type 0} (d : Digests File) where
  plan_item : Item → Option File → Planned File
  plan_item item none = record {
    item = item;
    resolved = none;
    available = false;
    hash_valid = false;
  }
  plan_item item (some f) = record {
    item = item;
    resolved = some f;
    available = true;
    hash_valid = contains String_discrete (d.file_hash f) (item.content_hash ∷ []);
  }

  plan_items : List Item → Repo File → List (Planned File)
  unfolding plan_item
  plan_items [] s = []
  plan_items (item ∷ items) s = plan_item item (resolve_artifact d item s) ∷ plan_items items s

  -- `item["available"] and item["hash_valid"]`
  is_ready : Planned File → Bool
  is_ready a = a.available && a.hash_valid

  pub reproduction_plan : Manifest → Repo File → Plan File
  unfolding plan_items is_ready rows_in
  reproduction_plan m s = record {
    manifest = m;
    artifacts = plan_items m.identity.source_partitions s;
    inputs_ready = all is_ready (plan_items m.identity.source_partitions s);
    expected_rows = rows_in m.identity.source_partitions;
  }

-- A DuckDB file: the build in its metadata, and the files that each view reads
pub record Catalog (File : Type 0) : Type 0 where
  pub build_id : String
  pub views : List (String × List File)

pub record CatalogResult : Type 0 where
  pub dataset_rows : List (String × ℕ)
  pub reused : Bool

-- `grouped[item["dataset"]].append(item)`
pub group :
    {File : Type 0}
    → List (Planned File)
    → List (String × List (Planned File))
    → List (String × List (Planned File))
group [] groups = groups
group (a ∷ artifacts) groups = elim (lookup String_discrete a.item.dataset groups) [
  | none ↦ group artifacts (insert String_discrete a.item.dataset (a ∷ []) groups)
  | some before ↦ group artifacts (insert String_discrete a.item.dataset (before ++ a ∷ []) groups)
]

pub files_of : {File : Type 0} → List (Planned File) → List File
files_of [] = []
files_of (a ∷ artifacts) = elim a.resolved [
  | none ↦ files_of artifacts
  | some f ↦ f ∷ files_of artifacts
]

-- [a-z][a-z0-9_]*
is_name_rest : String → Bool
is_name_rest String.[] = true
is_name_rest (String.◌∷◌ c s) =
    ((leb b'a' (code c) && leb (code c) b'z')
      || (leb b'0' (code c) && leb (code c) b'9')
      || (code c == b'_'))
    && is_name_rest s

pub is_name : String → Bool
unfolding is_name_rest
is_name String.[] = false
is_name (String.◌∷◌ c s) = leb b'a' (code c) && leb (code c) b'z' && is_name_rest s

module _ {File : Type 0} (d : Digests File) (rows_of : File → List Row) where
  pub count : List File → ℕ
  count [] = 0
  count (f ∷ files) = length (rows_of f) + count files

  -- The counts of a catalog that is there, over the datasets of the plan; a view that it lacks is a
  -- DuckDB error.
  stored_counts : List (String × List (Planned File)) → Catalog File → Raises (List (String × ℕ))
  unfolding count
  stored_counts [] c = ok []
  stored_counts ((dataset, items) ∷ groups) c = elim (lookup String_discrete dataset c.views) [
    | none ↦ err (runtime_error "existing historical catalog is invalid")
    | some files ↦ do rest ← stored_counts groups c; ok ((dataset, count files) ∷ rest)
  ]

  pub expected_counts : List (String × List (Planned File)) → List (String × ℕ)
  unfolding rows_in
  expected_counts [] = []
  expected_counts ((dataset, items) ∷ groups) =
      (dataset, rows_in (map (λ (a : Planned File). a.item) items)) ∷ expected_counts groups

  -- The loop that makes the views and counts their rows.
  make_views :
      List (String × List (Planned File)) → Raises (List (String × List File) × List (String × ℕ))
  unfolding count files_of rows_in
  make_views [] = ok ([], [])
  make_views ((dataset, items) ∷ groups) = do
    raise_if (not (is_name dataset)) (runtime_error "unsafe dataset identifier in manifest")
    raise_if (not (count (files_of items) == rows_in (map (λ (a : Planned File). a.item) items)))
        (runtime_error "historical row count does not match manifest")
    (views, counts) ← make_views groups
    ok ((dataset, files_of items) ∷ views, (dataset, count (files_of items)) ∷ counts)

  Counts_discrete : Discrete (List (String × ℕ))
  Counts_discrete = hlevel (ℕ_discrete, String_discrete)

  -- Where there is a catalog at the path it is checked and reused, else one is made.
  reuse_or_make :
      Plan File
      → String
      → List (String × Catalog File)
      → Option (Catalog File)
      → Raises (CatalogResult × List (String × Catalog File))
  unfolding group stored_counts expected_counts make_views Counts_discrete
  reuse_or_make plan target catalogs (some c) = do
    counts ← stored_counts (group plan.artifacts []) c
    raise_if (not (contains String_discrete c.build_id (plan.manifest.build_id ∷ [])))
        (runtime_error "existing historical catalog does not match build")
    ite (Counts_discrete counts (expected_counts (group plan.artifacts [])))
        (ok (record { dataset_rows = counts; reused = true }, catalogs))
        (err (runtime_error "existing historical catalog does not match build"))
  reuse_or_make plan target catalogs none = do
    (views, counts) ← make_views (sorted (λ x y. d.text_before x.0 y.0) (group plan.artifacts []))
    ok (
      record { dataset_rows = counts; reused = false },
      insert String_discrete target (record { build_id = plan.manifest.build_id; views = views })
          catalogs,
    )

  -- `create_catalog`, on the catalogs by their paths
  pub create_catalog :
      Plan File
      → String
      → List (String × Catalog File)
      → Raises (CatalogResult × List (String × Catalog File))
  unfolding reuse_or_make
  create_catalog plan target catalogs = do
    raise_if (not plan.inputs_ready) (runtime_error "historical inputs are unavailable or changed")
    reuse_or_make plan target catalogs (lookup String_discrete target catalogs)
