-- ===== src/Ingestion/Compaction/Rows.antt =====
-- The queries of ingestion/compaction.py on the rows of a partition. DuckDB's hash and its order of the
-- values of a column, where NULL is the least, are parameters. Of two rows with the same rank, which
-- DuckDB may number either way, the first one is kept.
pub mod Orders
pub mod Leading
pub mod Winners
use marketforge.Prelude.{
  ℕ, ◌+◌, String, String_discrete, Bool, true, false, not, none, some, List, [], ◌∷◌, ◌++◌, ok, err,
  ◌>>=◌, ◌&&◌, ◌||◌, length, filter, contains, ltb, ℕ_discrete, if◌then◌else◌,
}
use marketforge.Prelude.Dict.{lookup, insert}
use marketforge.Ingestion.Values.{Value, null, Row, Raises}
use marketforge.Ingestion.Contracts.{Contract, pick, Value_list_discrete}

pub record Sql : Type 0 where
  pub hash : List Value → ℕ
  pub less : Value → Value → Bool

-- `{"ingested_at", "source_record_id"}` taken from the columns
pub value_columns : List String → List String
value_columns columns =
    filter (λ name. not (contains String_discrete name ("ingested_at" ∷ "source_record_id" ∷ [])))
      columns

-- The columns of the files, by name: those of the first, then what each other one adds.
add_columns : List String → List String → List String
add_columns columns [] = columns
add_columns columns (name ∷ names) =
    if contains String_discrete name columns
    then add_columns columns names
    else add_columns (columns ++ name ∷ []) names

pub union_columns : List String → List (List String) → List String
unfolding add_columns
union_columns columns [] = columns
union_columns columns (names ∷ files) = union_columns (add_columns columns names) files

-- The different keys of the rows: `SELECT key GROUP BY key`
pub distinct_keys : List String → List Row → List (List Value) → Raises (List (List Value))
distinct_keys names [] seen = ok seen
distinct_keys names (row ∷ rows) seen = do
  key ← pick names row
  distinct_keys names rows (if contains Value_list_discrete key seen then seen else key ∷ seen)

-- The different hashes of the values of each key
add_hash : ℕ → List ℕ → List ℕ
add_hash h hashes = if contains ℕ_discrete h hashes then hashes else h ∷ hashes

note_hash : List Value → ℕ → List (List Value × List ℕ) → List (List Value × List ℕ)
unfolding add_hash
note_hash key h groups = elim (lookup Value_list_discrete key groups) [
  | none ↦ insert Value_list_discrete key (h ∷ []) groups
  | some hashes ↦ insert Value_list_discrete key (add_hash h hashes) groups
]

pub hashes_of :
    Sql
    → List String
    → List String
    → List Row
    → List (List Value × List ℕ)
    → Raises (List (List Value × List ℕ))
unfolding note_hash
hashes_of q names values [] groups = ok groups
hashes_of q names values (row ∷ rows) groups = do
  key ← pick names row
  cells ← pick values row
  hashes_of q names values rows (note_hash key (q.hash cells) groups)

-- `HAVING count(DISTINCT hash(values)) > 1`
pub count_conflicts : List (List Value × List ℕ) → ℕ
count_conflicts [] = 0
count_conflicts ((key, hashes) ∷ groups) =
    let rest = count_conflicts groups in if ltb 1 (length hashes) then 1 + rest else rest

-- A column of a row; `union_by_name` fills one that its file lacks with NULL.
unfoldable pub cell : String → Row → Value
cell name row = elim (lookup String_discrete name row) [ none ↦ null | some v ↦ v ]

-- `ORDER BY ingested_at DESC, source_record_id DESC`
unfoldable pub precedes : Sql → Row → Row → Bool
precedes q x y =
    q.less (cell "ingested_at" y) (cell "ingested_at" x)
    || not (q.less (cell "ingested_at" x) (cell "ingested_at" y))
      && q.less (cell "source_record_id" y) (cell "source_record_id" x)

-- The row of a key that comes first in the order: its rank is 1.
unfoldable pub note_first :
    Sql → List Value → Row → List (List Value × Row) → List (List Value × Row)
note_first q key row ranked = elim (lookup Value_list_discrete key ranked) [
  | none ↦ insert Value_list_discrete key row ranked
  | some first ↦ if precedes q row first then insert Value_list_discrete key row ranked else ranked
]

-- `row_number() OVER (PARTITION BY key …)` and `WHERE record_rank = 1`
unfoldable pub first_ranked :
    Sql → Contract → List Row → List (List Value × Row) → Raises (List (List Value × Row))
first_ranked q c [] ranked = ok ranked
first_ranked q c (row ∷ rows) ranked = do
  key ← pick c.idempotency_by row
  first_ranked q c rows (note_first q key row ranked)
