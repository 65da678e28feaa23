-- ===== src/Ingestion/Loaders/Dedup/Replay.antt =====
-- Ingesting the same rows again (`deduplicate_rows` of ingestion/loaders/backfill.py).
use marketforge.Prelude.{◌≡◌, refl, ◌∙◌, subst, List, [], ◌∷◌, some, ok, length, All, if_pos}
use marketforge.Prelude.Dict.{lookup-insert}
use marketforge.Ingestion.Values.{Value, Row}
use marketforge.Ingestion.Contracts.{Contract, Value_list_discrete}
use marketforge.Ingestion.Loaders.Dedup.{Existing, Deduplicated, deduplicate_rows, find, note}
use marketforge.Ingestion.Loaders.Dedup.Turns.{
  fresh, duplicate, Keyed, deduplicate_rows-Turn, deduplicate_rows-same, verdict_of_same,
}
use marketforge.Ingestion.Loaders.Dedup.Accounting.{deduplicate_rows-Extends}

-- The row's key is known, with the row's values.
pub record Recorded (c : Contract) (ex : Existing) (row : Row) : Type 0 where
  pub key : List Value
  pub values : List Value
  pub keyed : Keyed c row key values
  pub found : find key ex ≡ some values

find-note_self :
    (key values : List Value) (ex : Existing) → find key (note key values ex) ≡ some values
find-note_self key values ex =
    lookup-insert Value_list_discrete key key values ex
    ∙ if_pos (Value_list_discrete key key) refl _ _

-- After a run that raised nothing, every row is on record.
pub deduplicate_rows-Recorded :
    (c : Contract) (rows : List Row) (ex : Existing) (d : Deduplicated)
    → deduplicate_rows c rows ex ≡ ok d
    → All (Recorded c d.existing) rows
deduplicate_rows-Recorded c [] ex d h = tt
deduplicate_rows-Recorded c (row ∷ rows) ex d h = elim (deduplicate_rows-Turn c row rows ex d h) [
  | fresh key values rest k missing r built ↦
      let ex' = note key values ex in
      let kept =
        deduplicate_rows-Extends c rows ex' rest r key values (find-note_self key values ex) in
      subst (λ (x : Deduplicated). All (Recorded c x.existing) (row ∷ rows)) built
        (
          record { key = key; values = values; keyed = k; found = kept },
          deduplicate_rows-Recorded c rows ex' rest r,
        )
  | duplicate key values rest k found r built ↦
      let kept = deduplicate_rows-Extends c rows ex rest r key values found in
      subst (λ (x : Deduplicated). All (Recorded c x.existing) (row ∷ rows)) built
        (
          record { key = key; values = values; keyed = k; found = kept },
          deduplicate_rows-Recorded c rows ex rest r,
        )
]

deduplicate_rows_of_Recorded :
    (c : Contract) (rows : List Row) (ex : Existing)
    → All (Recorded c ex) rows
    → deduplicate_rows c rows ex
      ≡ ok (record { new_rows = []; duplicate_rows = length rows; existing = ex })
unfolding deduplicate_rows
deduplicate_rows_of_Recorded c [] ex h = refl
deduplicate_rows_of_Recorded c (row ∷ rows) ex h =
    let r = h.0 in
    deduplicate_rows-same c row rows ex r.key r.values r.keyed
      (verdict_of_same r.key r.values ex r.found)
    ∙ rw (deduplicate_rows_of_Recorded c rows ex h.1)

-- Where `deduplicate_rows` raised nothing, the same rows given again to the dict that it left are
-- all duplicates: none is new, and the dict does not change.
pub deduplicate_rows_replay :
    (c : Contract) (rows : List Row) (ex : Existing) (d : Deduplicated)
    → deduplicate_rows c rows ex ≡ ok d
    → deduplicate_rows c rows d.existing
      ≡ ok (record { new_rows = []; duplicate_rows = length rows; existing = d.existing })
deduplicate_rows_replay c rows ex d h =
    deduplicate_rows_of_Recorded c rows d.existing (deduplicate_rows-Recorded c rows ex d h)
