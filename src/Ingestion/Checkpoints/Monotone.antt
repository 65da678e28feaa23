-- ===== src/Ingestion/Checkpoints/Monotone.antt =====
-- The dates of the checkpoints (ingestion/checkpoints/sqlite.py).
use marketforge.Prelude.{
  ℕ, ◌≡◌, refl, ap, ◌∙◌, String, Option, none, some, List, [], ◌∷◌, arith, ite, if_pos, if_neg,
}
use Prim.Native.Nat.{max}
use marketforge.Prelude.Dict.{lookup-insert}
use marketforge.Ingestion.Values.{Datetime}
use marketforge.Ingestion.Checkpoints.{
  key, CheckpointKey_discrete, Checkpoint, CheckpointTable, get, not_before, advance, Advance,
  advance_all,
}

-- The date on record, 0 before every date if there is none.
abbrev pub date_in : Option Checkpoint → ℕ
date_in none = 0
date_in (some c) = c.last_successful_event_date

pub get-advance :
    (t : CheckpointTable) (dataset source : String) (event_date : ℕ) (run_id : String)
    (now : Datetime) (dataset' source' : String)
    → get (advance t dataset source event_date run_id now).0 dataset' source'
      ≡ ite
          (CheckpointKey_discrete (key dataset source) (key dataset' source'))
          (some (advance t dataset source event_date run_id now).1)
          (get t dataset' source')
unfolding get advance
get-advance t dataset source event_date run_id now dataset' source' =
    lookup-insert CheckpointKey_discrete (key dataset source) (key dataset' source') _ t

not_before-max :
    (o : Option Checkpoint) (event_date : ℕ) → not_before o event_date ≡ max (date_in o) event_date
unfolding not_before
not_before-max none event_date = omega arith
not_before-max (some c) event_date = ground arith

-- After `advance` the row of the key is the one that it returned, dated by the later of the date
-- given and the date on record; every other key reads as before.
pub advance_lem :
    (t : CheckpointTable) (dataset source : String) (event_date : ℕ) (run_id : String)
    (now : Datetime)
    → (get (advance t dataset source event_date run_id now).0 dataset source
        ≡ some (advance t dataset source event_date run_id now).1)
      × ((advance t dataset source event_date run_id now).1.last_successful_event_date
          ≡ max (date_in (get t dataset source)) event_date)
      × ((dataset' source' : String)
          → ¬ (key dataset source ≡ key dataset' source')
          → get (advance t dataset source event_date run_id now).0 dataset' source'
            ≡ get t dataset' source')
advance_lem t dataset source event_date run_id now = (
  get-advance t dataset source event_date run_id now dataset source
      ∙ if_pos (CheckpointKey_discrete (key dataset source) (key dataset source)) refl _ _,
  unfold advance in not_before-max (get t dataset source) event_date,
  λ dataset' source' n.
      get-advance t dataset source event_date run_id now dataset' source'
      ∙ if_neg (CheckpointKey_discrete (key dataset source) (key dataset' source')) n _ _,
)

pub date_in-advance :
    (t : CheckpointTable) (d s : String) (event_date : ℕ) (run_id : String) (now : Datetime)
    (d' s' : String)
    → date_in (get (advance t d s event_date run_id now).0 d' s')
      ≡ ite
          (CheckpointKey_discrete (key d s) (key d' s'))
          (max (date_in (get t d' s')) event_date)
          (date_in (get t d' s'))
unfolding get advance
date_in-advance t d s event_date run_id now d' s' =
    elim (CheckpointKey_discrete (key d s) (key d' s')) [
      | yes p ↦ ground (
        arith,
        get-advance t d s event_date run_id now d' s',
        not_before-max (get t d s) event_date,
      )
      | no n ↦ ground (arith, get-advance t d s event_date run_id now d' s')
    ]

-- The latest of a start and the dates of the calls for one key.
pub latest : String → String → ℕ → List Advance → ℕ
latest dataset source start [] = start
latest dataset source start (a ∷ calls) =
    latest dataset source
      (ite (CheckpointKey_discrete (key a.dataset a.source) (key dataset source))
        (max start a.event_date) start)
      calls

-- Whatever the order in which runs report, the date on record for a key is the latest of the date
-- that stood there and the dates reported for that key.
pub advance_all-latest :
    (calls : List Advance) (t : CheckpointTable) (dataset source : String)
    → date_in (get (advance_all t calls) dataset source)
      ≡ latest dataset source (date_in (get t dataset source)) calls
unfolding advance_all latest
advance_all-latest [] t dataset source = refl
advance_all-latest (a ∷ calls) t dataset source =
    advance_all-latest calls _ dataset source
    ∙ ap (λ d. latest dataset source d calls)
        (date_in-advance t a.dataset a.source a.event_date a.run_id a.updated_at dataset source)
