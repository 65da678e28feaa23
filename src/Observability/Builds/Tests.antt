-- ===== src/Observability/Builds/Tests.antt =====
-- A build of one artifact (observability/builds.py), made, verified and planned again
-- (warehouse/time_travel.py).
use marketforge.Prelude.{
  ◌≡◌, refl, true, false, none, some, String, String_discrete, ℕ_discrete, List, [], ◌∷◌, ok,
  contains,
}
use marketforge.Prelude.Dict.{lookup, insert}
use marketforge.Prelude.Int.{pos}
use marketforge.Ingestion.Values.{Datetime, aware, str, Row}
use marketforge.Ingestion.Lake.{Partition, partition, part, Artifact_discrete, Partition_discrete}
use marketforge.Observability.Builds.{
  Manifest, Digests, Repo, insert_by, sorted, distinct, worktree_of, git_state, digested, code_hash,
  run_id_of, is_skipped, item_of, add_item, items_of, source_partitions, datasets_of, against,
  keep_or_write, identity_of, create_build_manifest, verify_build_manifest,
}
use marketforge.Warehouse.TimeTravel.{
  is_hex, is_digest, is_build_id, load_build, reproduction_plan, files_of, count,
}
use marketforge.Warehouse.TimeTravel.Ready.{plan-create}
use marketforge.Observability.Builds.Described.{AreStored}
use marketforge.Observability.Builds.Verified.{verify-create}

abbrev digest : String
digest = "0123456789abcdef0123456789abcdef0123456789abcdef0123456789abcdef"

abbrev digests : Digests (List Row)
digests = record {
  file_hash = λ f. "0f";
  hash_bytes = λ s. digest;
  json = λ i. "{}";
  text_before = λ x y. false;
  path_before = λ a b. false;
}

abbrev january : Partition
january = partition "prices" 2026 1

abbrev repo : Repo (List Row)
repo = record {
  git = some ("c0ffee", "");
  dbt_files = ("dbt/models/prices.sql", "select 1") ∷ [];
  dbt_run_id = none;
  site = record {
    lake = record {
      artifacts = (part january "run-0", (("symbol", str "ABC") ∷ []) ∷ []) ∷ [];
      staged = [];
      writing = [];
      locks = [];
      quarantine = [];
      audits = [];
      manifests = [];
    };
    archives = [];
    staging = [];
    metadata = [];
    moved_to_archive = false;
  };
  manifests = [];
}

abbrev now : Datetime
now = aware (pos 5) (pos 0)

abbrev manifest : Manifest
manifest = record {
  build_id = digest;
  identity = record {
    git_commit = "c0ffee";
    git_worktree = "clean";
    dbt_code_hash = digest;
    dbt_run_id = none;
    datasets = "prices" ∷ [];
    parameters = [];
    source_partitions =
        record {
          dataset = "prices";
          partition = january;
          artifact = part january "run-0";
          content_hash = "0f";
          row_count = 1;
          pipeline_run_id = "run-0";
        }
        ∷ [];
  };
  created_at = now;
}

abbrev repo_after : Repo (List Row)
repo_after = record repo { manifests = (digest, manifest) ∷ [] }

repo-create : create_build_manifest digests (λ f. f) [] [] now repo ≡ ok (manifest, repo_after)
unfolding create_build_manifest insert_by sorted distinct worktree_of git_state digested code_hash
    run_id_of is_skipped item_of add_item items_of source_partitions datasets_of against
    keep_or_write identity_of lookup insert contains String_discrete ℕ_discrete Artifact_discrete
    Partition_discrete
repo-create = refl

repo-AreStored : AreStored digests (λ f. f) repo
unfolding AreStored lookup
repo-AreStored id m h = absurd (cc h)

verify-create_example :
    (verify_build_manifest digests digest repo_after ≡ ok [])
    × AreStored digests (λ f. f) repo_after
verify-create_example =
    verify-create digests (λ f. f) [] [] now repo repo_after manifest repo-AreStored repo-create

digest-is_build_id : is_build_id digest ≡ true
unfolding is_build_id is_digest is_hex
digest-is_build_id = refl

plan-create_example :
    (load_build digest repo_after ≡ ok manifest)
    × ((reproduction_plan digests manifest repo_after).inputs_ready ≡ true)
    × (count digests (λ f. f) (files_of (reproduction_plan digests manifest repo_after).artifacts)
        ≡ (reproduction_plan digests manifest repo_after).expected_rows)
plan-create_example =
    plan-create digests (λ f. f) [] [] now repo repo_after manifest repo-AreStored
      digest-is_build_id repo-create
