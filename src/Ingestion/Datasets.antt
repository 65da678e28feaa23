-- ===== src/Ingestion/Datasets.antt =====
-- The five contracts and their rules (ingestion/contracts/prices.py, fundamentals.py, earnings.py,
-- macro.py and news.py).
pub mod Cells
pub mod Loud
pub mod Prices
pub mod Orders
pub mod Safe
pub mod Tests
use marketforge.Prelude.{
  String, ◌<>◌, Bool, true, false, Option, none, some, List, [], ◌∷◌, map, ok, err, ◌>>=◌,
  if◌then◌else◌,
}
use marketforge.Prelude.Int.{pos}
use marketforge.Ingestion.Values.{Value, null, int, Float, finite, Row, Raises}
use marketforge.Ingestion.Contracts.{Contract, Field, Normalizer, get_item}
use marketforge.Ingestion.Normalizers.{
  Python, text, upper_text, finite_float, integer, iso_date, utc_datetime, url,
}
use marketforge.Ingestion.Ordering.{less, at_most, max_of, min_of}

abbrev zero_value : Float
zero_value = finite (pos 0)

-- The loop over the four prices: the message of the first that is not positive
pub not_positive : List String → Row → Raises (Option String)
not_positive [] row = ok none
not_positive (name ∷ names) row = do
  v ← get_item name row
  bad ← at_most v zero_value
  if bad then ok (some (name <> ": must be greater than zero")) else not_positive names row

-- `v < w` for two computed values
is_less : Raises Value → Raises Value → Raises Bool
is_less v w = do x ← v; y ← w; less x y

-- `v > w` for two computed values
is_greater : Raises Value → Raises Value → Raises Bool
is_greater v w = do x ← v; y ← w; less y x

-- `max(row["low"], row["open"], row["close"])`
pub highest : Row → Raises Value
highest row = do
  low ← get_item "low" row
  opening ← get_item "open" row
  close ← get_item "close" row
  top ← max_of low opening
  max_of top close

-- `min(row["open"], row["close"])`
pub lowest : Row → Raises Value
lowest row = do opening ← get_item "open" row; close ← get_item "close" row; min_of opening close

-- `if test: return message`, else the rest of the rule
unless : Raises Bool → String → Raises (Option String) → Raises (Option String)
unless test message rest = do broken ← test; if broken then ok (some message) else rest

-- `or` of the loop's message and the rest of the rule
or_rest : Option String → Raises (Option String) → Raises (Option String)
or_rest none rest = rest
or_rest (some m) rest = ok (some m)

pub price_ranges : Row → Raises (Option String)
unfolding not_positive is_less is_greater highest lowest unless or_rest
price_ranges row = do
  found ← not_positive ("open" ∷ "high" ∷ "low" ∷ "close" ∷ []) row
  or_rest found (
      unless (is_less (get_item "volume" row) (ok (int (pos 0)))) "volume: must be non-negative" (
        unless (is_less (get_item "high" row) (highest row))
          "high: must be at least low, open, and close"
          (unless (is_greater (get_item "low" row) (lowest row))
            "low: must be at most open and close" (ok none))))

is_none : Value → Bool
is_none null = true
is_none v = false

-- `row[name] is not None and test`
given_and : String → Row → Raises Bool → Raises Bool
unfolding is_none
given_and name row test = do v ← get_item name row; if is_none v then ok false else test

pub period_order : Row → Raises (Option String)
unfolding given_and unless is_less is_greater
period_order row =
    unless
      (given_and "period_start" row
        (is_less (get_item "period_end" row) (get_item "period_start" row)))
      "period_end: must not precede period_start"
      (unless
        (given_and "filed_at" row
          (is_greater (get_item "filed_at" row) (get_item "ingested_at" row)))
        "filed_at: must not be later than ingested_at" (ok none))

pub release_order : Row → Raises (Option String)
unfolding given_and unless is_greater
release_order row =
    unless
      (given_and "released_at" row
        (is_greater (get_item "released_at" row) (get_item "ingested_at" row)))
      "released_at: must not be later than ingested_at" (ok none)

abbrev field : Normalizer → Field
field n = record { normalizer = n; nullable = false }

abbrev nullable_field : Normalizer → Field
nullable_field n = record { normalizer = n; nullable = true }

module _ (p : Python) where
  -- PRICES_CONTRACT
  abbrev pub prices_contract : Contract
  prices_contract = record {
    name = "prices";
    fields =
        ("symbol", field (upper_text p))
        ∷ ("date", field (iso_date p))
        ∷ ("open", field (finite_float p))
        ∷ ("high", field (finite_float p))
        ∷ ("low", field (finite_float p))
        ∷ ("close", field (finite_float p))
        ∷ ("volume", field (integer p))
        ∷ ("source", field (text p))
        ∷ ("source_record_id", field (text p))
        ∷ ("ingested_at", field (utc_datetime p))
        ∷ [];
    unique_by = "symbol" ∷ "date" ∷ "source" ∷ [];
    idempotency_by = "symbol" ∷ "date" ∷ "source" ∷ [];
    version = 1;
    rules = price_ranges ∷ [];
    aliases = ("trade_date", "date") ∷ ("ticker", "symbol") ∷ [];
  }

  -- FUNDAMENTALS_CONTRACT
  abbrev pub fundamentals_contract : Contract
  fundamentals_contract = record {
    name = "fundamentals";
    fields =
        ("symbol", field (upper_text p))
        ∷ ("metric_name", field (text p))
        ∷ ("period_start", nullable_field (iso_date p))
        ∷ ("period_end", field (iso_date p))
        ∷ ("period_type", field (upper_text p))
        ∷ ("filed_at", nullable_field (utc_datetime p))
        ∷ ("value", field (finite_float p))
        ∷ ("unit", field (upper_text p))
        ∷ ("currency", nullable_field (upper_text p))
        ∷ ("source", field (text p))
        ∷ ("source_record_id", field (text p))
        ∷ ("ingested_at", field (utc_datetime p))
        ∷ [];
    unique_by = "source" ∷ "source_record_id" ∷ [];
    idempotency_by = "source" ∷ "source_record_id" ∷ [];
    version = 1;
    rules = period_order ∷ [];
    aliases = ("ticker", "symbol") ∷ ("fiscal_period_end", "period_end") ∷ [];
  }

  -- EARNINGS_CONTRACT
  abbrev pub earnings_contract : Contract
  earnings_contract = record {
    name = "earnings";
    fields =
        ("symbol", field (upper_text p))
        ∷ ("event_timestamp", field (utc_datetime p))
        ∷ ("fiscal_period_end", nullable_field (iso_date p))
        ∷ ("event_status", field (upper_text p))
        ∷ ("eps_estimate", nullable_field (finite_float p))
        ∷ ("eps_actual", nullable_field (finite_float p))
        ∷ ("source", field (text p))
        ∷ ("source_record_id", field (text p))
        ∷ ("ingested_at", field (utc_datetime p))
        ∷ [];
    unique_by = "source" ∷ "source_record_id" ∷ [];
    idempotency_by = "source" ∷ "source_record_id" ∷ [];
    version = 1;
    rules = [];
    aliases = ("ticker", "symbol") ∷ ("event_time", "event_timestamp") ∷ [];
  }

  -- MACRO_CONTRACT
  abbrev pub macro_contract : Contract
  macro_contract = record {
    name = "macro";
    fields =
        ("series_id", field (upper_text p))
        ∷ ("observation_date", field (iso_date p))
        ∷ ("released_at", nullable_field (utc_datetime p))
        ∷ ("value", field (finite_float p))
        ∷ ("unit", field (upper_text p))
        ∷ ("frequency", field (upper_text p))
        ∷ ("source", field (text p))
        ∷ ("source_record_id", field (text p))
        ∷ ("ingested_at", field (utc_datetime p))
        ∷ [];
    unique_by = "source" ∷ "source_record_id" ∷ [];
    idempotency_by = "source" ∷ "source_record_id" ∷ [];
    version = 1;
    rules = release_order ∷ [];
    aliases = ("date", "observation_date") ∷ ("release_timestamp", "released_at") ∷ [];
  }

  -- NEWS_CONTRACT
  abbrev pub news_contract : Contract
  news_contract = record {
    name = "news";
    fields =
        ("event_timestamp", field (utc_datetime p))
        ∷ ("headline", field (text p))
        ∷ ("url", nullable_field (url p))
        ∷ ("publisher", nullable_field (text p))
        ∷ ("source", field (text p))
        ∷ ("source_record_id", field (text p))
        ∷ ("ingested_at", field (utc_datetime p))
        ∷ [];
    unique_by = "source" ∷ "source_record_id" ∷ [];
    idempotency_by = "source" ∷ "source_record_id" ∷ [];
    version = 1;
    rules = [];
    aliases = ("published_at", "event_timestamp") ∷ ("title", "headline") ∷ [];
  }

  -- CONTRACTS
  abbrev pub contracts : List (String × Contract)
  contracts =
      ("prices", prices_contract)
      ∷ ("fundamentals", fundamentals_contract)
      ∷ ("earnings", earnings_contract)
      ∷ ("macro", macro_contract)
      ∷ ("news", news_contract)
      ∷ []
