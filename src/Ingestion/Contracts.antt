-- ===== src/Ingestion/Contracts.antt =====
-- ingestion/contracts/base.py: the contract engine. A batch is normalised and validated row by
-- row, and each row is either accepted or quarantined with its diagnostics. A diagnostic is kept
-- as its format and what it prints; the order that `sorted` gives to the names in it is not kept. The
-- keys of a record are texts: `sorted` would not order the None under which csv.DictReader files the
-- surplus cells of a line.
pub mod Steps
pub mod Accounting
pub mod Accepted
pub mod Unique
pub mod Hashable
pub mod Returning
pub mod Total
pub mod Tests
use marketforge.Prelude.{
  ℕ, ◌≡◌, String, String_discrete, List_discrete, Bool, true, false, not, Option, none, some, List,
  [], ◌∷◌, ◌++◌, map, ite, Result, ok, err, ◌>>=◌, ◌>>◌, ◌&&◌, raise_if, length, filter, contains,
  ◌==◌, if◌then◌else◌,
}
use marketforge.Prelude.Dict.{lookup, insert, keys}
use marketforge.Ingestion.Values.{
  Value, null, str, Value_discrete, Datetime, is_naive, to_utc, astimezone, is_hashable, Exception,
  value_error, type_error, key_error, missing_required_field, is_value_problem, Row, Raises,
}

abbrev pub Normalizer : Type 0
Normalizer = Value → Raises Value

-- A rule returns a message or None.
abbrev pub Rule : Type 0
Rule = Row → Raises (Option String)

pub record Field : Type 0 where
  pub normalizer : Normalizer
  pub nullable : Bool

pub data Message : Type 0 where
  duplicate_aliases : Message
  missing_columns unexpected_columns : List String → Message
  null_not_allowed : String → Message
  field_error : String → Exception → Message
  rule_message : String → Message
  source_differs : String → Option Value → Message
  duplicate_key : List Value → Message

pub record QuarantineRecord : Type 0 where
  pub source : String
  pub ingestion_run_id : String
  pub errors : List Message
  pub raw_payload : Row
  pub received_at : Datetime

pub record ValidationResult : Type 0 where
  pub accepted : List Row
  pub rejected : List QuarantineRecord

pub record Contract : Type 0 where
  pub name : String
  pub fields : List (String × Field)
  pub unique_by : List String
  pub idempotency_by : List String
  pub version : ℕ
  pub rules : List Rule
  pub aliases : List (String × String)

-- The keyword arguments of `validate`, `received_at` filled in.
pub record Batch : Type 0 where
  pub source : String
  pub ingestion_run_id : String
  pub received_at : Datetime

abbrev pub is_empty {ℓ} : {A : Type ℓ} → List A → Bool
is_empty [] = true
is_empty (x ∷ xs) = false

abbrev or_else {ℓ} : {A : Type ℓ} → Option A → A → A
or_else none d = d
or_else (some a) d = a

-- `self.aliases.get(column, column)`
unfoldable pub rename : Contract → String → String
rename c column = or_else (lookup String_discrete column c.aliases) column

-- `{self.aliases.get(key, key): value for key, value in raw.items()}`
unfoldable pub rename_into : Contract → Row → Row → Row
rename_into c acc [] = acc
rename_into c acc ((key, value) ∷ raw) =
    rename_into c (insert String_discrete (rename c key) value acc) raw

unfoldable pub normalize_columns : Contract → Row → Row
normalize_columns c raw = rename_into c [] raw

-- `set(xs) - set(ys)`
unfoldable pub difference : List String → List String → List String
difference xs ys = filter (λ x. not (contains String_discrete x ys)) xs

-- `if xs: errors.append(message(xs))`
unfoldable pub note_any : (List String → Message) → List String → List Message
note_any message xs = if is_empty xs then [] else message xs ∷ []

unfoldable pub column_errors : Contract → Row → Row → List Message
unfolding note_any
column_errors c raw input =
    (if length input == length raw then [] else duplicate_aliases ∷ [])
    ++ (note_any missing_columns (difference (keys c.fields) (keys input))
        ++ note_any unexpected_columns (difference (keys input) (keys c.fields)))

-- One turn of the loop over the fields, for a column that the record has: what is stored in the
-- row, if anything, and the diagnostics.
unfoldable pub recover : String → Raises Value → Raises (Option Value × List Message)
recover name (ok v) = ok (some v, [])
recover name (err e) = if is_value_problem e then ok (none, field_error name e ∷ []) else err e

unfoldable pub check_field : String → Field → Value → Raises (Option Value × List Message)
unfolding recover
check_field name spec null =
    ok (some null, if spec.nullable then [] else null_not_allowed name ∷ [])
check_field name spec value = recover name (spec.normalizer value)

abbrev store : String → Option Value → Row → Row
store name none row = row
store name (some v) row = (name, v) ∷ row

unfoldable pub check_fields : List (String × Field) → Row → Raises (Row × List Message)
check_fields [] input = ok ([], [])
check_fields ((name, spec) ∷ fields) input = elim (lookup String_discrete name input) [
  | none ↦ check_fields fields input
  | some value ↦ do
    (cell, errors) ← check_field name spec value
    (row, more) ← check_fields fields input
    ok (store name cell row, errors ++ more)
]

-- An empty message is false, as None is.
abbrev pub message_of : Option String → List Message
message_of none = []
message_of (some String.[]) = []
message_of (some (String.◌∷◌ c m)) = rule_message (String.◌∷◌ c m) ∷ []

-- `errors.extend(message for rule in self.rules if (message := rule(row)))`
unfoldable pub run_rules : List Rule → Row → Raises (List Message)
run_rules [] row = ok []
run_rules (rule ∷ rules) row = do
  message ← rule row
  more ← run_rules rules row
  ok (message_of message ++ more)

-- `row[name]`
unfoldable pub get_item : String → Row → Raises Value
get_item name row = elim (lookup String_discrete name row) [
  | none ↦ err (key_error name)
  | some v ↦ ok v
]

-- `tuple(row[name] for name in names)`
unfoldable pub pick : List String → Row → Raises (List Value)
pick [] row = ok []
pick (name ∷ names) row = do v ← get_item name row; vs ← pick names row; ok (v ∷ vs)

unfoldable pub source_errors : String → Row → List Message
source_errors source row = elim (lookup String_discrete "source" row) [
  | none ↦ source_differs source none ∷ []
  | some v ↦ ite (Value_discrete v (str source)) [] (source_differs source (some v) ∷ [])
]

unfoldable pub Value_list_discrete : Discrete (List Value)
unfolding List_discrete Value_discrete
Value_list_discrete = List_discrete Value_discrete

unfoldable pub all_hashable : List Value → Bool
all_hashable [] = true
all_hashable (v ∷ vs) = is_hashable v && all_hashable vs

-- The last test, and the keys seen so far. `key in seen` hashes the key.
unfoldable pub check_unique :
    Contract → List (List Value) → Row → Raises (List Message × List (List Value))
check_unique c seen row = do
  key ← pick c.unique_by row
  raise_if (not (all_hashable key)) (type_error "unhashable type")
  ok (
      if contains Value_list_discrete key seen
      then (duplicate_key key ∷ [], seen)
      else ([], key ∷ seen))

-- `if not errors and row.get("source") != source: errors.append(…)`
unfoldable pub then_source : String → Row → List Message → List Message
unfolding source_errors
then_source source row [] = source_errors source row
then_source source row (e ∷ es) = e ∷ es

-- `if not errors:` the key is tested and noted.
unfoldable pub then_unique :
    Contract → List (List Value) → Row → List Message → Raises (List Message × List (List Value))
then_unique c seen row [] = check_unique c seen row
then_unique c seen row (e ∷ es) = ok (e ∷ es, seen)

-- The three tests that are made only while there is no error.
unfoldable pub check_row :
    Contract
    → String
    → List (List Value)
    → Row
    → List Message
    → Raises (List Message × List (List Value))
unfolding then_source then_unique
check_row c source seen row (e ∷ es) = ok (e ∷ es, seen)
check_row c source seen row [] = do
  broken ← run_rules c.rules row
  then_unique c seen row (then_source source row broken)

unfoldable pub validate_row :
    Contract → String → List (List Value) → Row → Raises (Row × List Message × List (List Value))
validate_row c source seen raw = do
  let input = normalize_columns c raw
  (row, found) ← check_fields c.fields input
  (errors, seen') ← check_row c source seen row (column_errors c raw input ++ found)
  ok (row, errors, seen')

-- `received_at.astimezone(timezone.utc)` for a record that is rejected; its value is `to_utc`.
unfoldable pub stamp : Batch → List Message → Raises (Unit {0})
stamp b [] = ok tt
stamp b (e ∷ es) = astimezone b.received_at >>= λ t. ok tt

-- `if errors: rejected.append(QuarantineRecord(…)) else: accepted.append(row)`
unfoldable pub file_row : Batch → Row → Row → List Message → ValidationResult → ValidationResult
file_row b raw row [] rest = record rest { accepted = row ∷ rest.accepted }
file_row b raw row (e ∷ es) rest = record rest {
  rejected =
      record {
        source = b.source;
        ingestion_run_id = b.ingestion_run_id;
        errors = e ∷ es;
        raw_payload = raw;
        received_at = to_utc b.received_at;
      }
      ∷ rest.rejected;
}

unfoldable pub validate_rows :
    Contract → Batch → List (List Value) → List Row → Raises ValidationResult
unfolding file_row
validate_rows c b seen [] = ok (record { accepted = []; rejected = [] })
validate_rows c b seen (raw ∷ raws) = do
  (row, errors, seen') ← validate_row c b.source seen raw
  stamp b errors
  rest ← validate_rows c b seen' raws
  ok (file_row b raw row errors rest)

-- The columns of a batch under their canonical names.
unfoldable pub batch_columns : Contract → List Row → List String
batch_columns c [] = []
batch_columns c (raw ∷ raws) = map (rename c) (keys raw) ++ batch_columns c raws

unfoldable pub missing_from_batch : Contract → List Row → List String
missing_from_batch c [] = []
missing_from_batch c (raw ∷ raws) = difference (keys c.fields) (batch_columns c (raw ∷ raws))

unfoldable pub validate : Contract → Batch → List Row → Raises ValidationResult
validate c b records = do
  raise_if (is_naive b.received_at) (value_error "received_at must be timezone-aware")
  raise_if (not (is_empty (missing_from_batch c records)))
      (missing_required_field (missing_from_batch c records))
  validate_rows c b [] records
