-- ===== src/Ingestion/Contracts/Steps.antt =====
-- Inversion of `validate` (ingestion/contracts/base.py): what a run that raised nothing has done.
use marketforge.Prelude.{
  ◌≡◌, refl, ap, ◌∙◌, false, some, String, String_discrete, List, [], ◌∷◌, ◌++◌, ok, err, ◌>>=◌,
  arith, contains, not, raise_if,
}
use marketforge.Prelude.Dict.{lookup}
use marketforge.Ingestion.Values.{Value, str, type_error, Row, Raises}
use marketforge.Ingestion.Contracts.{
  Contract, Batch, Message, ValidationResult, file_row, stamp, all_hashable, validate_row,
  validate_rows, check_fields, check_row, check_unique, run_rules, pick, source_errors, then_source,
  then_unique, normalize_columns, column_errors, Value_list_discrete,
}

pub >>=-eq-ok :
    {A B : Type 0} (m : Raises A) (f : A → Raises B) (b : B)
    → (m >>= f) ≡ ok b
    → (a : A) × (m ≡ ok a) × (f a ≡ ok b)
>>=-eq-ok (ok a) f b h = (a, refl, h)
>>=-eq-ok (err e) f b h = cc

-- One turn of the loop over the records.
pub record Turn (c : Contract) (b : Batch) (seen : List (List Value)) (raw : Row) (raws : List Row)
    (v : ValidationResult) : Type 0 where
  pub row : Row
  pub errors : List Message
  pub seen_after : List (List Value)
  pub rest : ValidationResult
  pub judged : validate_row c b.source seen raw ≡ ok (row, errors, seen_after)
  pub others : validate_rows c b seen_after raws ≡ ok rest
  pub filed : file_row b raw row errors rest ≡ v

pub validate_rows-Turn :
    (c : Contract) (b : Batch) (seen : List (List Value)) (raw : Row) (raws : List Row)
    (v : ValidationResult)
    → validate_rows c b seen (raw ∷ raws) ≡ ok v
    → Turn c b seen raw raws v
unfolding validate_rows
validate_rows-Turn c b seen raw raws v h =
    let (t, p, q) = >>=-eq-ok (validate_row c b.source seen raw) _ v h in
    let (u, stamped, q') = >>=-eq-ok (stamp b t.1) _ v q in
    let (rest, r, s) = >>=-eq-ok (validate_rows c b t.2 raws) _ v q' in
    record {
      row = t.0;
      errors = t.1;
      seen_after = t.2;
      rest = rest;
      judged = p;
      others = r;
      filed = cc;
    }

abbrev pub no_records : ValidationResult
no_records = record { accepted = []; rejected = [] }

pub validate_rows-nil :
    (c : Contract) (b : Batch) (seen : List (List Value)) (v : ValidationResult)
    → validate_rows c b seen [] ≡ ok v
    → no_records ≡ v
unfolding validate_rows
validate_rows-nil c b seen v h = cc

-- What is known of a row without errors.
pub record Passed (c : Contract) (source : String) (seen : List (List Value)) (raw row : Row)
    (seen' : List (List Value)) : Type 0 where
  pub columns : column_errors c raw (normalize_columns c raw) ≡ []
  pub fields : check_fields c.fields (normalize_columns c raw) ≡ ok (row, [])
  pub rules : run_rules c.rules row ≡ ok []
  pub from : lookup String_discrete "source" row ≡ some (str source)
  pub key : List Value
  pub picked : pick c.unique_by row ≡ ok key
  pub fresh : contains Value_list_discrete key seen ≡ false
  pub kept : seen' ≡ key ∷ seen

pub append-eq-nil : {A : Type 0} (xs ys : List A) → xs ++ ys ≡ [] → (xs ≡ []) × (ys ≡ [])
append-eq-nil [] ys h = (refl, h)
append-eq-nil (x ∷ xs) ys h = cc

source_errors-nil :
    (source : String) (row : Row)
    → source_errors source row ≡ []
    → lookup String_discrete "source" row ≡ some (str source)
unfolding source_errors
source_errors-nil source row h = ground arith

check_unique-nil :
    (c : Contract) (seen seen' : List (List Value)) (row : Row)
    → check_unique c seen row ≡ ok ([], seen')
    → (key : List Value) × (pick c.unique_by row ≡ ok key)
      × (contains Value_list_discrete key seen ≡ false)
      × (seen' ≡ key ∷ seen)
unfolding check_unique
check_unique-nil c seen seen' row h =
    let (key, p, q) = >>=-eq-ok (pick c.unique_by row) _ _ h in
    let (u, hashed, q') =
      >>=-eq-ok (raise_if (not (all_hashable key)) (type_error "unhashable type")) _ _ q in
    (key, p, ground arith, ground arith)

check_unique-cons :
    (c : Contract) (seen seen' : List (List Value)) (row : Row) (e : Message) (es : List Message)
    → check_unique c seen row ≡ ok (e ∷ es, seen')
    → seen' ≡ seen
unfolding check_unique
check_unique-cons c seen seen' row e es h =
    let (key, p, q) = >>=-eq-ok (pick c.unique_by row) _ _ h in
    let (u, hashed, q') =
      >>=-eq-ok (raise_if (not (all_hashable key)) (type_error "unhashable type")) _ _ q in
    ground arith

then_unique-nil :
    (c : Contract) (seen seen' : List (List Value)) (row : Row) (es : List Message)
    → then_unique c seen row es ≡ ok ([], seen')
    → (es ≡ []) × (check_unique c seen row ≡ ok ([], seen'))
unfolding then_unique
then_unique-nil c seen seen' row [] h = (refl, h)
then_unique-nil c seen seen' row (e ∷ es) h = cc

then_unique-cons :
    (c : Contract) (seen seen' : List (List Value)) (row : Row) (es : List Message) (e : Message)
    (more : List Message)
    → then_unique c seen row es ≡ ok (e ∷ more, seen')
    → seen' ≡ seen
unfolding then_unique
then_unique-cons c seen seen' row [] e more h = check_unique-cons c seen seen' row e more h
then_unique-cons c seen seen' row (x ∷ es) e more h = cc

then_source-nil :
    (source : String) (row : Row) (es : List Message)
    → then_source source row es ≡ []
    → (es ≡ []) × (lookup String_discrete "source" row ≡ some (str source))
unfolding then_source
then_source-nil source row [] h = (refl, source_errors-nil source row h)
then_source-nil source row (e ∷ es) h = cc

-- A row with an error notes no key.
check_row-cons :
    (c : Contract) (source : String) (seen seen' : List (List Value)) (row : Row)
    (found : List Message) (e : Message) (more : List Message)
    → check_row c source seen row found ≡ ok (e ∷ more, seen')
    → seen' ≡ seen
unfolding check_row
check_row-cons c source seen seen' row (x ∷ xs) e more h = cc
check_row-cons c source seen seen' row [] e more h =
    let (broken, p, q) = >>=-eq-ok (run_rules c.rules row) _ _ h in
    then_unique-cons c seen seen' row (then_source source row broken) e more q

pub validate_row-cons :
    (c : Contract) (source : String) (seen seen' : List (List Value)) (raw row : Row) (e : Message)
    (more : List Message)
    → validate_row c source seen raw ≡ ok (row, e ∷ more, seen')
    → seen' ≡ seen
unfolding validate_row
validate_row-cons c source seen seen' raw row e more h =
    let (t, p, q) = >>=-eq-ok (check_fields c.fields (normalize_columns c raw)) _ _ h in
    let found = column_errors c raw (normalize_columns c raw) ++ t.1 in
    let (u, r, s) = >>=-eq-ok (check_row c source seen t.0 found) _ _ q in
    check_row-cons c source seen seen' t.0 found e more (r ∙ cc s)

check_row-nil :
    (c : Contract) (source : String) (seen seen' : List (List Value)) (row : Row)
    (found : List Message)
    → check_row c source seen row found ≡ ok ([], seen')
    → (found ≡ [])
      × (run_rules c.rules row ≡ ok [])
      × (lookup String_discrete "source" row ≡ some (str source))
      × (check_unique c seen row ≡ ok ([], seen'))
unfolding check_row
check_row-nil c source seen seen' row (e ∷ es) h = cc
check_row-nil c source seen seen' row [] h =
    let (broken, p, q) = >>=-eq-ok (run_rules c.rules row) _ _ h in
    let (r, s) = then_unique-nil c seen seen' row (then_source source row broken) q in
    let (t, u) = then_source-nil source row broken r in (refl, p ∙ ap ok t, u, s)

Passed-of :
    (c : Contract) (source : String) (seen seen' : List (List Value)) (raw row : Row)
    (found : List Message)
    → check_fields c.fields (normalize_columns c raw) ≡ ok (row, found)
    → check_row c source seen row (column_errors c raw (normalize_columns c raw) ++ found)
      ≡ ok ([], seen')
    → Passed c source seen raw row seen'
Passed-of c source seen seen' raw row found p h =
    let columns = column_errors c raw (normalize_columns c raw) in
    let (none_found, rules, from, unique) =
      check_row-nil c source seen seen' row (columns ++ found) h in
    let (no_columns, no_found) = append-eq-nil columns found none_found in
    let (key, picked, fresh, kept) = check_unique-nil c seen seen' row unique in
    record {
      columns = no_columns;
      fields = cc;
      rules = rules;
      from = from;
      key = key;
      picked = picked;
      fresh = fresh;
      kept = kept;
    }

pub validate_row-Passed :
    (c : Contract) (source : String) (seen seen' : List (List Value)) (raw row : Row)
    → validate_row c source seen raw ≡ ok (row, [], seen')
    → Passed c source seen raw row seen'
unfolding validate_row
validate_row-Passed c source seen seen' raw row h =
    let (t, p, q) = >>=-eq-ok (check_fields c.fields (normalize_columns c raw)) _ _ h in
    let columns = column_errors c raw (normalize_columns c raw) in
    let (u, r, s) = >>=-eq-ok (check_row c source seen t.0 (columns ++ t.1)) _ _ q in
    let same_row : t.0 ≡ row = cc s in
    let done : check_row c source seen row (columns ++ t.1) ≡ ok ([], seen') =
      cc (r, s, same_row) in
    Passed-of c source seen seen' raw row t.1 (cc (p, same_row)) done
