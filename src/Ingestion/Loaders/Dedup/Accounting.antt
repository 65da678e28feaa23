-- ===== src/Ingestion/Loaders/Dedup/Accounting.antt =====
-- The counts of `deduplicate_rows` and the dict that it leaves (ingestion/loaders/backfill.py).
use marketforge.Prelude.{◌+◌, ◌≡◌, List, [], ◌∷◌, none, some, ok, length, arith}
use marketforge.Prelude.Dict.{lookup-insert}
use marketforge.Ingestion.Values.{Value, Row}
use marketforge.Ingestion.Contracts.{Contract, Value_list_discrete}
use marketforge.Ingestion.Loaders.Dedup.{Existing, Deduplicated, deduplicate_rows, find, note}
use marketforge.Ingestion.Loaders.Dedup.Turns.{
  fresh, duplicate, deduplicate_rows-nil, deduplicate_rows-Turn,
}

-- Where `deduplicate_rows` raises nothing, every row is counted once, as new or as a duplicate.
pub deduplicate_rows_accounting :
    (c : Contract) (rows : List Row) (ex : Existing) (d : Deduplicated)
    → deduplicate_rows c rows ex ≡ ok d
    → length d.new_rows + d.duplicate_rows ≡ length rows
deduplicate_rows_accounting c [] ex d h = rw (← deduplicate_rows-nil c ex d h) (omega arith)
deduplicate_rows_accounting c (row ∷ rows) ex d h = elim (deduplicate_rows-Turn c row rows ex d h) [
  | fresh key values rest k missing r built ↦
      rw (← built) (omega (arith, deduplicate_rows_accounting c rows (note key values ex) rest r))
  | duplicate key values rest k found r built ↦
      rw (← built) (omega (arith, deduplicate_rows_accounting c rows ex rest r))
]

-- What one dict knows of a key, the other knows too.
abbrev pub Extends : Existing → Existing → Type 0
Extends ex ex' = (k v : List Value) → find k ex ≡ some v → find k ex' ≡ some v

pub note-Extends :
    (key values : List Value) (ex : Existing) → find key ex ≡ none → Extends ex (note key values ex)
note-Extends key values ex missing k v h =
    rw (lookup-insert Value_list_discrete key k values ex) (ground arith)

-- Where `deduplicate_rows` raises nothing, each key that the dict knew has the same values in the
-- dict that it left.
pub deduplicate_rows-Extends :
    (c : Contract) (rows : List Row) (ex : Existing) (d : Deduplicated)
    → deduplicate_rows c rows ex ≡ ok d
    → Extends ex d.existing
deduplicate_rows-Extends c [] ex d h = rw (← deduplicate_rows-nil c ex d h) (λ k v p. p)
deduplicate_rows-Extends c (row ∷ rows) ex d h = elim (deduplicate_rows-Turn c row rows ex d h) [
  | fresh key values rest k missing r built ↦ rw (← built) (λ j v p.
      deduplicate_rows-Extends c rows (note key values ex) rest r j v
        (note-Extends key values ex missing j v p))
  | duplicate key values rest k found r built ↦
      rw (← built) (deduplicate_rows-Extends c rows ex rest r)
]
