-- ===== src/Ingestion/Contracts/Tests.antt =====
-- Runs of the contract engine (`validate` of ingestion/contracts/base.py) on a small batch.
use marketforge.Prelude.{
  ◌≡◌, refl, ◌≢◌, ◌⊎◌, ◌+◌, inl, List, [], ◌∷◌, ok, err, length, All, none, false, true, arith,
  filter,
}
use marketforge.Prelude.Int.{pos}
use marketforge.Ingestion.Values.{
  int, str, aware, astimezone, in_range, type_error, value_error, overflow_error,
  missing_required_field, Row, is_naive,
}
use marketforge.Ingestion.Contracts.{
  Message, duplicate_key, field_error, QuarantineRecord, ValidationResult, Contract, Batch,
  Normalizer, validate, validate_rows, validate_row, normalize_columns, rename_into, rename,
  column_errors, note_any, difference, check_fields, check_field, recover, check_row, then_source,
  then_unique, source_errors, check_unique, pick, get_item, run_rules, file_row, all_hashable,
  stamp, missing_from_batch, batch_columns, Value_list_discrete,
}
use marketforge.Ingestion.Contracts.Accounting.{validate_accounting, IsTraced, validate-IsTraced}
use marketforge.Ingestion.Contracts.Accepted.{IsCanonical, validate-IsCanonical}
use marketforge.Ingestion.Contracts.Unique.{HasKeys, validate-HasKeys}
use marketforge.Ingestion.Contracts.Total.{fits_utc, validate_outcomes}
use marketforge.Ingestion.Contracts.Hashable.{IsSound}
use marketforge.Ingestion.Contracts.Returning.{IsSafe}
use marketforge.Prelude.{String_discrete, List_discrete, contains}
use marketforge.Prelude.Dict.{lookup, insert}
use marketforge.Ingestion.Values.{Value_discrete}

abbrev a_string : Normalizer
a_string (str s) = ok (str s)
a_string v = err (type_error "expected text")

abbrev pub quotes : Contract
quotes = record {
  name = "quotes";
  fields =
      ("symbol", record { normalizer = a_string; nullable = false })
      ∷ ("source", record { normalizer = a_string; nullable = false })
      ∷ [];
  unique_by = "symbol" ∷ [];
  idempotency_by = "symbol" ∷ [];
  version = 1;
  rules = (λ row. ok none) ∷ [];
  aliases = ("ticker", "symbol") ∷ [];
}

abbrev batch : Batch
batch = record {
  source = "feed";
  ingestion_run_id = "run-1";
  received_at = aware (pos 5) (pos 3600);
}

abbrev pub first_row : Row
first_row = ("symbol", str "ABC") ∷ ("source", str "feed") ∷ []

abbrev aliased_row : Row
aliased_row = ("ticker", str "ABC") ∷ ("source", str "feed") ∷ []

abbrev wrong_row : Row
wrong_row = ("symbol", int (pos 7)) ∷ ("source", str "feed") ∷ []

abbrev quarantined : Row → Message → QuarantineRecord
quarantined raw reason = record {
  source = "feed";
  ingestion_run_id = "run-1";
  errors = reason ∷ [];
  raw_payload = raw;
  received_at = aware (pos 5) (pos 0);
}

abbrev three_rows : List Row
three_rows = first_row ∷ aliased_row ∷ wrong_row ∷ []

abbrev outcome_of_three : ValidationResult
outcome_of_three = record {
  accepted = first_row ∷ [];
  rejected =
      quarantined aliased_row (duplicate_key (str "ABC" ∷ []))
      ∷ quarantined wrong_row (field_error "symbol" (type_error "expected text"))
      ∷ [];
}

three_rows-validate : validate quotes batch three_rows ≡ ok outcome_of_three
unfolding validate validate_rows validate_row normalize_columns rename_into rename column_errors
    note_any difference check_fields check_field recover check_row then_source then_unique
    source_errors check_unique pick get_item run_rules file_row missing_from_batch batch_columns
    Value_list_discrete lookup insert contains String_discrete List_discrete Value_discrete filter
    all_hashable stamp astimezone in_range
three_rows-validate = refl

a_string-IsSound : IsSound a_string
a_string-IsSound = record { problems = λ v e h. ground arith; hashable = λ v cell h. ground arith }

quotes-IsSafe : IsSafe quotes
quotes-IsSafe = record {
  normalizers = (a_string-IsSound, (a_string-IsSound, tt));
  rules = λ input row h. ((none, refl), tt);
  key = (inl refl, tt);
}

validate_accounting_example :
    length outcome_of_three.accepted + length outcome_of_three.rejected ≡ length three_rows
validate_accounting_example =
    validate_accounting quotes batch three_rows outcome_of_three three_rows-validate

validate-IsTraced_example : All (IsTraced batch three_rows) outcome_of_three.rejected
validate-IsTraced_example =
    validate-IsTraced quotes batch three_rows outcome_of_three three_rows-validate

validate-IsCanonical_example : All (IsCanonical quotes "feed" three_rows) outcome_of_three.accepted
validate-IsCanonical_example =
    validate-IsCanonical quotes batch three_rows outcome_of_three three_rows-validate

validate-HasKeys_example : HasKeys ("symbol" ∷ []) [] outcome_of_three.accepted
validate-HasKeys_example =
    validate-HasKeys quotes batch three_rows outcome_of_three three_rows-validate

validate_outcomes_example :
    (is_naive batch.received_at ≡ true
      → validate quotes batch three_rows ≡ err (value_error "received_at must be timezone-aware"))
    × (is_naive batch.received_at ≡ false
        → missing_from_batch quotes three_rows ≢ []
        → validate quotes batch three_rows
          ≡ err (missing_required_field (missing_from_batch quotes three_rows)))
    × (is_naive batch.received_at ≡ false
        → missing_from_batch quotes three_rows ≡ []
        → fits_utc batch.received_at ≡ true
        → (v : ValidationResult) × (validate quotes batch three_rows ≡ ok v))
    × (is_naive batch.received_at ≡ false
        → missing_from_batch quotes three_rows ≡ []
        → fits_utc batch.received_at ≡ false
        → ((v : ValidationResult) × (validate quotes batch three_rows ≡ ok v) × (v.rejected ≡ []))
          ⊎ (validate quotes batch three_rows ≡ err (overflow_error "date value out of range")))
validate_outcomes_example = validate_outcomes quotes batch three_rows quotes-IsSafe
