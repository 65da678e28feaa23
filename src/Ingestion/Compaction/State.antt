-- ===== src/Ingestion/Compaction/State.antt =====
-- The state of ingestion/compaction.py: the lake, the archive and the staged rewrites, and the points
-- where a run may fail.
use marketforge.Prelude.{
  ℕ, ◌+◌, String, String_discrete, Bool, not, Option, none, some, List, [], ◌∷◌, ◌++◌, ite, filter,
  contains,
}
use marketforge.Ingestion.Values.{Exception, Row}
use marketforge.Ingestion.Lake.{Artifact, Partition, partition, partition_of, Partition_discrete}
use marketforge.Ingestion.Loaders.Types.{Lake}

-- The points where something may raise: the listing of the partition, the creation of the lock file and
-- the writing of it, the queries, the making of the staged directory and `COPY`, the reading of the
-- copy, the two calls of the hook, the moves of directories, the measuring and the metadata at the end,
-- and the removal of the lock.
pub data Point : Type 0 where
  listing opening writing_lock querying staging_directory copying checking : Point
  after_validation_before_swap archiving after_archive_before_promotion promoting moving_back :
      Point
  measuring recording recovering unlocking : Point

abbrev pub Faults : Type 0
Faults = Point → Option Exception

pub record CompactionResult : Type 0 where
  pub compaction_id : String
  pub dataset : String
  pub year : ℕ
  pub month : ℕ
  pub files_before : ℕ
  pub files_after : ℕ
  pub rows_before : ℕ
  pub rows_after : ℕ
  pub duplicate_rows_removed : ℕ
  pub bytes_before : ℕ
  pub bytes_after : ℕ

-- The arguments of `compact_partition`, the identifier filled in.
pub record CompactionRequest : Type 0 where
  pub dataset : String
  pub year : ℕ
  pub month : ℕ
  pub min_files : ℕ
  pub max_file_bytes : ℕ
  pub compaction_id : String

-- An archived or a staged partition: the partition and the compaction's identifier
abbrev pub Place : Type 0
Place = Partition × String

unfoldable pub Place_discrete : Discrete Place
unfolding Partition_discrete
Place_discrete = hlevel (String_discrete, Partition_discrete)

pub record Site (File : Type 0) : Type 0 where
  pub lake : Lake File
  pub archives : List (Place × List (Artifact × File))
  pub staging : List (Place × List (Artifact × File))
  pub metadata : List (String × CompactionResult)
  pub moved_to_archive : Bool

pub partition_at : CompactionRequest → Partition
partition_at r = partition r.dataset r.year r.month

pub place_of : CompactionRequest → Place
place_of r = (partition_at r, r.compaction_id)

unfoldable pub is_in : Partition → Artifact → Bool
is_in q a = contains Partition_discrete (partition_of a) (q ∷ [])

-- The files of a partition's directory, and all the others
unfoldable pub inside : {F : Type 0} → Partition → List (Artifact × F) → List (Artifact × F)
inside q files = filter (λ f. is_in q f.0) files

unfoldable pub outside : {F : Type 0} → Partition → List (Artifact × F) → List (Artifact × F)
outside q files = filter (λ f. not (is_in q f.0)) files

unfoldable pub sum_of : {A : Type 0} → (A → ℕ) → List A → ℕ
sum_of size [] = 0
sum_of size (x ∷ xs) = size x + sum_of size xs

-- `next(files).stat().st_size`
unfoldable pub first_size : {A : Type 0} → (A → ℕ) → List A → ℕ
first_size size [] = 0
first_size size (x ∷ xs) = size x

unfoldable pub all_rows : {A : Type 0} → (A → List Row) → List A → List Row
all_rows rows [] = []
all_rows rows (f ∷ files) = rows f ++ all_rows rows files

unfoldable pub unlock : Partition → List Partition → List Partition
unlock q [] = []
unlock q (x ∷ locks) = ite (Partition_discrete x q) locks (x ∷ unlock q locks)

unfoldable pub or_nothing : {A : Type 0} → Option (List A) → List A
or_nothing none = []
or_nothing (some xs) = xs
