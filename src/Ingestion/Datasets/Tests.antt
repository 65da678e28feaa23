-- ===== src/Ingestion/Datasets/Tests.antt =====
-- Runs of the contracts of the datasets (ingestion/contracts/).
use marketforge.Prelude.{
  ◌≡◌, refl, String, String_discrete, List_discrete, List, [], ◌∷◌, ok, err, All, filter, contains,
  arith,
}
use marketforge.Prelude.Dict.{lookup, insert}
use marketforge.Prelude.Int.{ℤ, pos, ℤ_discrete, eqb_ℤ}
use marketforge.Ingestion.Values.{
  Value, int, float, str, date, datetime, aware, astimezone, in_range, Float, finite, Row, Raises,
  Value_discrete, value_error, type_error,
}
use marketforge.Ingestion.Contracts.{
  Batch, Contract, ValidationResult, rule_message, validate, validate_rows, validate_row,
  normalize_columns, rename_into, rename, column_errors, note_any, difference, check_fields,
  check_field, recover, check_row, then_source, then_unique, source_errors, check_unique, pick,
  get_item, run_rules, file_row, all_hashable, stamp, missing_from_batch, batch_columns,
  Value_list_discrete,
}
use marketforge.Ingestion.Contracts.Returning.{IsSafe}
use marketforge.Ingestion.Normalizers.{
  Python, is_blank, text_of, text, upper_text, is_finite, is_bool, finite_float, is_number, integer,
  iso_date, parse_time, in_utc, utc_datetime, scaled, one,
}
use marketforge.Ingestion.Normalizers.Problems.{IsPython}
use marketforge.Ingestion.Ordering.{lt_float, le_float, less, at_most, max_of, min_of}
use marketforge.Ingestion.Datasets.{
  not_positive, is_less, is_greater, highest, lowest, unless, or_rest, price_ranges,
  prices_contract, contracts,
}
use marketforge.Ingestion.Datasets.Prices.{IsPriceRow, prices-IsPriceRow}
use marketforge.Ingestion.Datasets.Safe.{contracts-IsSafe}

abbrev a_float : Value → Raises Float
a_float (float f) = ok f
a_float (int n) = ok (finite (scaled n))
a_float v = err (type_error "float() argument")

abbrev an_int : Value → Raises ℤ
an_int (int n) = ok n
an_int v = err (type_error "int() argument")

-- Parsers that read what is not a text.
abbrev parsers : Python
parsers = record {
  strip = λ s. s;
  upper = λ s. s;
  replace_z = λ s. s;
  float_of = a_float;
  int_of = an_int;
  date_of = λ s. err (value_error "Invalid isoformat string");
  time_of = λ s. err (value_error "Invalid isoformat string");
  urlparse = λ s. ok ("https", s);
}

abbrev batch : Batch
batch = record { source = "feed"; ingestion_run_id = "run-1"; received_at = aware (pos 5) (pos 0) }

abbrev price : Value → Value → Row
price high volume =
    ("symbol", str "ABC")
    ∷ ("date", date 738000)
    ∷ ("open", int (pos 3))
    ∷ ("high", high)
    ∷ ("low", int (pos 2))
    ∷ ("close", int (pos 2))
    ∷ ("volume", volume)
    ∷ ("source", str "feed")
    ∷ ("source_record_id", str "r1")
    ∷ ("ingested_at", datetime (aware (pos 5) (pos 0)))
    ∷ []

abbrev canonical : Row
canonical =
    ("symbol", str "ABC")
    ∷ ("date", date 738000)
    ∷ ("open", float (finite (scaled (pos 3))))
    ∷ ("high", float (finite (scaled (pos 4))))
    ∷ ("low", float (finite (scaled (pos 2))))
    ∷ ("close", float (finite (scaled (pos 2))))
    ∷ ("volume", int (pos 9))
    ∷ ("source", str "feed")
    ∷ ("source_record_id", str "r1")
    ∷ ("ingested_at", datetime (aware (pos 5) (pos 0)))
    ∷ []

abbrev two_prices : List Row
two_prices = price (int (pos 4)) (int (pos 9)) ∷ price (int (pos 1)) (int (pos 9)) ∷ []

abbrev outcome_of_two : ValidationResult
outcome_of_two = record {
  accepted = canonical ∷ [];
  rejected =
      record {
        source = "feed";
        ingestion_run_id = "run-1";
        errors = rule_message "high: must be at least low, open, and close" ∷ [];
        raw_payload = price (int (pos 1)) (int (pos 9));
        received_at = aware (pos 5) (pos 0);
      }
      ∷ [];
}

two_prices-validate : validate (prices_contract parsers) batch two_prices ≡ ok outcome_of_two
unfolding validate validate_rows validate_row normalize_columns rename_into rename column_errors
    note_any difference check_fields check_field recover check_row then_source then_unique
    source_errors check_unique pick get_item run_rules file_row missing_from_batch batch_columns
    Value_list_discrete lookup insert contains String_discrete List_discrete Value_discrete filter
    is_blank text_of text upper_text is_finite is_bool finite_float is_number integer iso_date
    all_hashable stamp astimezone in_range parse_time in_utc utc_datetime scaled one lt_float
    le_float less at_most max_of min_of not_positive is_less is_greater highest lowest unless
    or_rest price_ranges ℤ_discrete eqb_ℤ
two_prices-validate = refl

prices-IsPriceRow_example : All IsPriceRow outcome_of_two.accepted
prices-IsPriceRow_example =
    prices-IsPriceRow parsers batch two_prices outcome_of_two two_prices-validate

parsers-IsPython : IsPython parsers
parsers-IsPython = record {
  float_of = λ v. record { problem = λ e h. ground arith };
  int_of = λ v. record { problem = λ e h. ground arith };
  date_of = λ s. record { problem = λ e h. ground arith };
  time_of = λ s. record { problem = λ e h. ground arith };
  urlparse = λ s. record { problem = λ e h. cc };
}

contracts-IsSafe_example : All (λ (c : String × Contract). IsSafe c.1) (contracts parsers)
contracts-IsSafe_example = contracts-IsSafe parsers parsers-IsPython
