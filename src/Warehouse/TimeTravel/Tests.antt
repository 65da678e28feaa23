-- ===== src/Warehouse/TimeTravel/Tests.antt =====
-- A catalog (warehouse/time_travel.py) of one dataset, made and asked for again.
use marketforge.Prelude.{◌≡◌, refl, true, false, none, some, String, List, [], ◌∷◌, ok}
use marketforge.Prelude.Dict.{lookup, insert}
use marketforge.Prelude.Int.{pos}
use marketforge.Ingestion.Values.{aware, str, Row}
use marketforge.Ingestion.Lake.{Partition, partition, part}
use marketforge.Observability.Builds.{Item, Digests, insert_by, sorted}
use marketforge.Warehouse.TimeTravel.{
  Plan, Catalog, rows_in, group, files_of, is_name, is_name_rest, count, expected_counts,
  make_views, reuse_or_make, create_catalog,
}
use marketforge.Warehouse.TimeTravel.Reuse.{create_catalog_again}

abbrev digests : Digests (List Row)
digests = record {
  file_hash = λ f. "0f";
  hash_bytes = λ s. s;
  json = λ i. "{}";
  text_before = λ x y. false;
  path_before = λ a b. false;
}

abbrev january : Partition
january = partition "prices" 2026 1

abbrev item : Item
item = record {
  dataset = "prices";
  partition = january;
  artifact = part january "run-0";
  content_hash = "0f";
  row_count = 1;
  pipeline_run_id = "run-0";
}

abbrev file : List Row
file = (("symbol", str "ABC") ∷ []) ∷ []

abbrev plan : Plan (List Row)
plan = record {
  manifest = record {
    build_id = "0f";
    identity = record {
      git_commit = "c0ffee";
      git_worktree = "clean";
      dbt_code_hash = "0f";
      dbt_run_id = none;
      datasets = "prices" ∷ [];
      parameters = [];
      source_partitions = item ∷ [];
    };
    created_at = aware (pos 5) (pos 0);
  };
  artifacts =
      record { item = item; resolved = some file; available = true; hash_valid = true } ∷ [];
  inputs_ready = true;
  expected_rows = 1;
}

abbrev catalogs_after : List (String × Catalog (List Row))
catalogs_after =
    ("builds.duckdb", record { build_id = "0f"; views = ("prices", file ∷ []) ∷ [] }) ∷ []

plan-create_catalog :
    create_catalog digests (λ f. f) plan "builds.duckdb" []
    ≡ ok (record { dataset_rows = ("prices", 1) ∷ []; reused = false }, catalogs_after)
unfolding create_catalog reuse_or_make make_views group files_of is_name is_name_rest count rows_in
    sorted insert_by lookup insert
plan-create_catalog = refl

create_catalog_again_example :
    create_catalog digests (λ f. f) plan "builds.duckdb" catalogs_after
    ≡ ok (
      record {
        dataset_rows = expected_counts digests (λ f. f) (group plan.artifacts []);
        reused = true;
      },
      catalogs_after,
    )
unfolding lookup
create_catalog_again_example =
    create_catalog_again digests (λ f. f) plan "builds.duckdb" [] catalogs_after
      (record { dataset_rows = ("prices", 1) ∷ []; reused = false }) refl plan-create_catalog
