-- ===== src/Ingestion/Lake.antt =====
-- The raw lake on disk: final Parquet artifacts, the two kinds of temporary file, compaction locks,
-- quarantine files and run metadata. The Parquet library is a parameter.
use marketforge.Prelude.{ℕ, ℕ_discrete, String, String_discrete, List, ◌≡◌}
use marketforge.Ingestion.Values.{Row}

-- `<dataset>/year=YYYY/month=MM`
pub data Partition : Type 0 where
  partition : (dataset : String) (year month : ℕ) → Partition

-- `part-<run id>.parquet` or `compact-<compaction id>.parquet` in a partition
pub data Artifact : Type 0 where
  part compact : Partition → String → Artifact

unfoldable pub Partition_discrete : Discrete Partition
Partition_discrete = hlevel (ℕ_discrete, String_discrete)

unfoldable pub Artifact_discrete : Discrete Artifact
unfolding Partition_discrete
Artifact_discrete = hlevel (String_discrete, Partition_discrete)

abbrev pub partition_of : Artifact → Partition
partition_of (part p run) = p
partition_of (compact p id) = p

abbrev pub dataset_of : Artifact → String
dataset_of (part (partition d y m) run) = d
dataset_of (compact (partition d y m) id) = d

-- What the code uses of DuckDB and the file system: a table is written with its columns, and a file
-- is read back, described and measured.
pub record Parquet : Type 1 where
  pub File : Type 0
  pub write : List String → List Row → File
  pub columns : File → List String
  pub rows : File → List Row
  pub size : File → ℕ

-- A file that was written reads back as it was written.
pub record IsFaithful (p : Parquet) : Type 0 where
  pub columns-write : (cs : List String) (rs : List Row) → p.columns (p.write cs rs) ≡ cs
  pub rows-write : (cs : List String) (rs : List Row) → p.rows (p.write cs rs) ≡ rs
