-- ===== src/Ingestion/Checkpoints/Tests.antt =====
-- Two runs that report to the checkpoint table out of order (ingestion/checkpoints/sqlite.py).
use Prim.Native.Nat.{max}
use marketforge.Prelude.{◌≡◌, String, List, [], ◌∷◌, some}
use marketforge.Prelude.Int.{pos}
use marketforge.Ingestion.Values.{Datetime, aware}
use marketforge.Ingestion.Checkpoints.{key, CheckpointTable, get, advance, Advance, advance_all}
use marketforge.Ingestion.Checkpoints.Monotone.{advance_lem, latest, date_in, advance_all-latest}

abbrev noon : Datetime
noon = aware (pos 12) (pos 0)

abbrev table : CheckpointTable
table =
    (
      key "prices" "tiingo",
      record {
        dataset = "prices";
        source = "tiingo";
        last_successful_event_date = 700;
        last_successful_run_id = "run-7";
        updated_at = noon;
      },
    )
    ∷ []

abbrev reports : List Advance
reports =
    record {
      dataset = "prices";
      source = "tiingo";
      event_date = 720;
      run_id = "b";
      updated_at = noon;
    }
    ∷ record {
      dataset = "prices";
      source = "tiingo";
      event_date = 710;
      run_id = "a";
      updated_at = noon;
    }
    ∷ []

advance_lem_example :
    (get (advance table "prices" "tiingo" 650 "late" noon).0 "prices" "tiingo"
      ≡ some (advance table "prices" "tiingo" 650 "late" noon).1)
    × ((advance table "prices" "tiingo" 650 "late" noon).1.last_successful_event_date
        ≡ max (date_in (get table "prices" "tiingo")) 650)
    × ((dataset' source' : String)
        → ¬ (key "prices" "tiingo" ≡ key dataset' source')
        → get (advance table "prices" "tiingo" 650 "late" noon).0 dataset' source'
          ≡ get table dataset' source')
advance_lem_example = advance_lem table "prices" "tiingo" 650 "late" noon

advance_all-latest_example :
    date_in (get (advance_all table reports) "prices" "tiingo")
    ≡ latest "prices" "tiingo" (date_in (get table "prices" "tiingo")) reports
advance_all-latest_example = advance_all-latest reports table "prices" "tiingo"
