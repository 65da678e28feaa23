-- ===== src/Ingestion/Loaders/Dedup.antt =====
-- Idempotency keys (`deduplicate_rows` and the reading loop of `_existing_rows` in
-- ingestion/loaders/backfill.py). A key that is met again must come with the same canonical values.
mod Turns
pub mod Accounting
pub mod Replay
pub mod Fresh
mod Tests
use marketforge.Prelude.{
  ℕ, suc, String, String_discrete, Bool, not, ◌||◌, Option, none, some, ite, List, [], ◌∷◌, ◌≡◌,
  refl, ok, err, ◌>>=◌, contains, filter,
}
use marketforge.Prelude.Dict.{lookup, insert, keys}
use marketforge.Ingestion.Values.{Value, Row, Raises, idempotency_conflict}
use marketforge.Ingestion.Contracts.{Contract, pick, Value_list_discrete}

-- The canonical values that each key was met with.
abbrev pub Existing : Type 0
Existing = List (List Value × List Value)

-- The columns that a replay must not change: all but the load's own, unless they are in the key.
pub value_fields : Contract → List String
value_fields c =
    filter
      (λ field.
        not (contains String_discrete field ("ingested_at" ∷ "source_record_id" ∷ []))
        || contains String_discrete field c.idempotency_by)
      (keys c.fields)

abbrev pub find : List Value → Existing → Option (List Value)
find = lookup Value_list_discrete

abbrev pub note : List Value → List Value → Existing → Existing
note = insert Value_list_discrete

-- `key not in existing`, `existing[key] == values`, or neither.
pub data Verdict : Type 0 where
  new same conflict : Verdict

pub verdict : List Value → List Value → Existing → Verdict
verdict key values existing = elim (find key existing) [
  | none ↦ new
  | some old ↦ ite (Value_list_discrete old values) same conflict
]

-- What `deduplicate_rows` returns, and the dict that it was given and has changed.
pub record Deduplicated : Type 0 where
  pub new_rows : List Row
  pub duplicate_rows : ℕ
  pub existing : Existing

abbrev pub add_new : Row → Deduplicated → Deduplicated
add_new row d = record d { new_rows = row ∷ d.new_rows }

abbrev pub add_duplicate : Deduplicated → Deduplicated
add_duplicate d = record d { duplicate_rows = suc d.duplicate_rows }

pub deduplicate_rows : Contract → List Row → Existing → Raises Deduplicated
deduplicate_rows c [] existing =
    ok (record { new_rows = []; duplicate_rows = 0; existing = existing })
deduplicate_rows c (row ∷ rows) existing = do
  key ← pick c.idempotency_by row
  values ← pick (value_fields c) row
  elim (verdict key values existing) [
    | new ↦ do rest ← deduplicate_rows c rows (note key values existing); ok (add_new row rest)
    | same ↦ do rest ← deduplicate_rows c rows existing; ok (add_duplicate rest)
    | conflict ↦ err (idempotency_conflict key)
  ]

-- The loop over the rows that the retained files hold.
pub read_rows : Contract → List Row → Existing → Raises Existing
read_rows c [] existing = ok existing
read_rows c (row ∷ rows) existing = do
  key ← pick c.idempotency_by row
  values ← pick (value_fields c) row
  elim (verdict key values existing) [
    | conflict ↦ err (idempotency_conflict key)
    | _ ↦ read_rows c rows (note key values existing)
  ]
