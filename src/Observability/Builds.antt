-- ===== src/Observability/Builds.antt =====
-- observability/builds.py: manifests of dataset builds. A path under the raw root is the artifact that
-- it names, and an archived one its place in the archive. SHA-256, JSON text, Git and Python's order
-- of texts and paths are parameters.
pub mod Described
pub mod Sorting
pub mod Verified
pub mod Tests
use marketforge.Prelude.{
  ℕ, ◌≡◌, String, String_discrete, ℕ_discrete, Bool, true, false, not, ◌<>◌, Option, none, some,
  List, [], ◌∷◌, ◌++◌, map, ite, ok, err, ◌>>=◌, ◌>>◌, raise_if, length, filter, contains,
  if◌then◌else◌, ◌&&◌,
}
use marketforge.Prelude.Dict.{lookup, insert, keys}
use marketforge.Ingestion.Values.{Datetime, value_error, runtime_error, file_not_found, Row, Raises}
use marketforge.Ingestion.Contracts.{is_empty}
use marketforge.Ingestion.Lake.{
  Artifact, part, compact, Artifact_discrete, Partition, partition, Partition_discrete,
  partition_of, dataset_of, Parquet,
}
use marketforge.Ingestion.Compaction.{Site, Place, Place_discrete, CompactionResult}

-- An entry of `source_partitions`.
pub record Item : Type 0 where
  pub dataset : String
  pub partition : Partition
  pub artifact : Artifact
  pub content_hash : String
  pub row_count : ℕ
  pub pipeline_run_id : String

pub record Identity : Type 0 where
  pub git_commit : String
  pub git_worktree : String
  pub dbt_code_hash : String
  pub dbt_run_id : Option String
  pub datasets : List String
  pub parameters : List (String × String)
  pub source_partitions : List Item

pub record Manifest : Type 0 where
  pub build_id : String
  pub identity : Identity
  pub created_at : Datetime

unfoldable pub Item_discrete : Discrete Item
unfolding Partition_discrete Artifact_discrete
Item_discrete = hlevel (ℕ_discrete, String_discrete, Partition_discrete, Artifact_discrete)

unfoldable pub Identity_discrete : Discrete Identity
Identity_discrete = hlevel (ℕ_discrete, String_discrete, Item_discrete)

-- What the code takes from outside: the digest of a file and of a text, `json.dumps` of an identity,
-- and the orders of texts and of paths.
pub record Digests (File : Type 0) : Type 0 where
  pub file_hash : File → String
  pub hash_bytes : String → String
  pub json : Identity → String
  pub text_before : String → String → Bool
  pub path_before : Artifact → Artifact → Bool

-- What the repository is: the outputs of the two git commands, or none where they fail, the dbt files
-- by path, the last dbt run, the raw lake with its compactions, and the manifests that were written.
pub record Repo (File : Type 0) : Type 0 where
  pub git : Option (String × String)
  pub dbt_files : List (String × String)
  pub dbt_run_id : Option String
  pub site : Site File
  pub manifests : List (String × Manifest)

-- The messages of `verify_build_manifest`.
pub data BuildError : Type 0 where
  commit_changed worktree_changed code_changed identity_changed : BuildError
  artifact_missing artifact_changed : Artifact → BuildError

unfoldable pub insert_by : {A : Type 0} → (A → A → Bool) → A → List A → List A
insert_by before x [] = x ∷ []
insert_by before x (y ∷ ys) =
    let rest = insert_by before x ys in if before y x then y ∷ rest else x ∷ y ∷ ys

-- `sorted`
unfoldable pub sorted : {A : Type 0} → (A → A → Bool) → List A → List A
unfolding insert_by
sorted before [] = []
sorted before (x ∷ xs) = insert_by before x (sorted before xs)

-- `{x for x in xs}`
distinct : List String → List String
distinct [] = []
distinct (x ∷ xs) =
    let rest = distinct xs in if contains String_discrete x rest then rest else x ∷ rest

-- `verify_build_manifest`: the message for each difference, none where there is none
difference : Bool → BuildError → List BuildError
difference same e = if same then [] else e ∷ []

is_same : String → String → Bool
is_same x y = contains String_discrete x (y ∷ [])

module _ {File : Type 0} (d : Digests File) where
  -- `"clean" if not status else f"dirty:…"`
  worktree_of : String → String
  worktree_of String.[] = "clean"
  worktree_of (String.◌∷◌ c s) = "dirty:" <> d.hash_bytes (String.◌∷◌ c s)

  -- `_git_state`
  pub git_state : Repo File → Raises (String × String)
  unfolding worktree_of
  git_state s = elim s.git [
    | none ↦ err (runtime_error "dataset builds require a Git worktree")
    | some g ↦ ok (g.0, worktree_of g.1)
  ]

  -- Path, zero byte, content, zero byte, file after file
  digested : List (String × String) → String
  digested [] = ""
  digested ((path, content) ∷ files) = path <> "\0" <> content <> "\0" <> digested files

  -- `_code_hash`
  pub code_hash : Repo File → String
  unfolding digested
  code_hash s = d.hash_bytes (digested (sorted (λ x y. d.text_before x.0 y.0) s.dbt_files))

  -- The archives of the item's partition, the last metadata file first, and the first that holds a
  -- file of the artifact's name
  pub archived : Item → List (String × CompactionResult) → Site File → Option File
  archived item [] site = none
  archived item ((id, c) ∷ compactions) site =
      let rest = archived item compactions site in
      if contains Partition_discrete item.partition (partition c.dataset c.year c.month ∷ [])
      then elim (lookup Place_discrete (item.partition, c.compaction_id) site.archives) [
        | none ↦ rest
        | some files ↦ elim (lookup Artifact_discrete item.artifact files) [
          | none ↦ rest
          | some f ↦ some f
        ]
      ]
      else rest

  -- `_resolve_artifact`, as the file at the path that it gives
  pub resolve_artifact : Item → Repo File → Option File
  resolve_artifact item s = elim (lookup Artifact_discrete item.artifact s.site.lake.artifacts) [
    | some f ↦ some f
    | none ↦ archived item (sorted (λ x y. d.text_before y.0 x.0) s.site.metadata) s.site
  ]

  -- `path.stem.removeprefix("part-")`
  run_id_of : Artifact → String
  run_id_of (part q run) = run
  run_id_of (compact q id) = "compact-" <> id

  -- `datasets and dataset not in datasets`
  is_skipped : List String → Artifact → Bool
  is_skipped datasets a =
      not (is_empty datasets) && not (contains String_discrete (dataset_of a) datasets)

  module _ (rows_of : File → List Row) where
    item_of : Artifact → File → Item
    unfolding run_id_of
    item_of a f = record {
      dataset = dataset_of a;
      partition = partition_of a;
      artifact = a;
      content_hash = d.file_hash f;
      row_count = length (rows_of f);
      pipeline_run_id = run_id_of a;
    }

    add_item : List String → Artifact → Option File → List Item → Raises (List Item)
    unfolding item_of is_skipped
    add_item datasets a none rest =
        if is_skipped datasets a then ok rest else err (file_not_found "artifact")
    add_item datasets a (some f) rest =
        if is_skipped datasets a then ok rest else ok (item_of a f ∷ rest)

    -- `_source_partitions`, for the paths that the pattern finds
    pub items_of : List String → List Artifact → List (Artifact × File) → Raises (List Item)
    unfolding add_item
    items_of datasets [] files = ok []
    items_of datasets (a ∷ paths) files = do
      rest ← items_of datasets paths files
      add_item datasets a (lookup Artifact_discrete a files) rest

    pub source_partitions : List String → Repo File → Raises (List Item)
    source_partitions datasets s =
        items_of datasets (sorted d.path_before (keys s.site.lake.artifacts)) s.site.lake.artifacts

    -- `sorted(selected or {…})`
    datasets_of : List String → List Item → List String
    unfolding distinct
    datasets_of [] items = sorted d.text_before (distinct (map (λ (i : Item). i.dataset) items))
    datasets_of (x ∷ selected) items = sorted d.text_before (distinct (x ∷ selected))

    -- The manifest that is stored already, if it is the same, or else the new one.
    against : Manifest → Repo File → Option Manifest → Raises (Manifest × Repo File)
    against m s none =
        ok (m, record s { manifests = insert String_discrete m.build_id m s.manifests })
    against m s (some old) =
        ite (Identity_discrete old.identity m.identity) (ok (old, s))
          (err (value_error "existing build manifest does not match build identity"))

    keep_or_write : Manifest → Repo File → Raises (Manifest × Repo File)
    unfolding against
    keep_or_write m s = against m s (lookup String_discrete m.build_id s.manifests)

    pub identity_of :
        List String → List (String × String) → List Item → String × String → Repo File → Identity
    unfolding datasets_of
    identity_of datasets parameters items git s = record {
      git_commit = git.0;
      git_worktree = git.1;
      dbt_code_hash = code_hash s;
      dbt_run_id = s.dbt_run_id;
      datasets = datasets_of datasets items;
      parameters = sorted (λ x y. d.text_before x.0 y.0) parameters;
      source_partitions = items;
    }

    -- `create_build_manifest`
    pub create_build_manifest :
        List String → List (String × String) → Datetime → Repo File → Raises (Manifest × Repo File)
    unfolding keep_or_write
    create_build_manifest datasets parameters now s = do
      items ← source_partitions datasets s
      raise_if (is_empty items) (value_error "no source partitions matched the requested datasets")
      git ← git_state s
      let identity = identity_of datasets parameters items git s
      keep_or_write
          (record {
            build_id = d.hash_bytes (d.json identity);
            identity = identity;
            created_at = now;
          })
          s

  item_errors : Item → Option File → List BuildError
  unfolding difference is_same
  item_errors item none = artifact_missing item.artifact ∷ []
  item_errors item (some f) =
      difference (is_same (d.file_hash f) item.content_hash) (artifact_changed item.artifact)

  all_item_errors : List Item → Repo File → List BuildError
  unfolding item_errors
  all_item_errors [] s = []
  all_item_errors (item ∷ items) s =
      item_errors item (resolve_artifact item s) ++ all_item_errors items s

  pub verify_manifest : Manifest → String × String → Repo File → List BuildError
  unfolding difference is_same all_item_errors
  verify_manifest m git s =
      difference (is_same m.identity.git_commit git.0) commit_changed
      ++ (difference (is_same m.identity.git_worktree git.1) worktree_changed
          ++ (difference (is_same m.identity.dbt_code_hash (code_hash s)) code_changed
              ++ (all_item_errors m.identity.source_partitions s
                  ++ difference (is_same m.build_id (d.hash_bytes (d.json m.identity)))
                      identity_changed)))

  pub verify_build_manifest : String → Repo File → Raises (List BuildError)
  verify_build_manifest path s = elim (lookup String_discrete path s.manifests) [
    | none ↦ err (file_not_found path)
    | some m ↦ do git ← git_state s; ok (verify_manifest m git s)
  ]
