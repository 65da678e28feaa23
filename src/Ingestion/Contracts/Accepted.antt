-- ===== src/Ingestion/Contracts/Accepted.antt =====
-- What `validate` (ingestion/contracts/base.py) promises of the rows that it accepts.
use marketforge.Prelude.{
  ◌≡◌, refl, sym, ap, ◌∙◌, subst, Bool-cases, inl, inr, true, Option, none, some, Option-cases,
  String, String_discrete, List, [], ◌∷◌, ◌++◌, ok, err, ◌>>=◌, length, ◌==◌, arith, In, All,
  contains, filter, if◌then◌else◌, contains→In,
}
use marketforge.Prelude.Dict.{lookup, keys, lookup-none}
use marketforge.Ingestion.Values.{Value, null, str, Row, Raises}
use marketforge.Ingestion.Contracts.{
  Contract, Field, Rule, Batch, Message, ValidationResult, file_row, validate_rows, validate,
  normalize_columns, run_rules, check_fields, check_field, recover, message_of, difference,
  column_errors, note_any, duplicate_aliases, missing_columns, store,
}
use marketforge.Ingestion.Contracts.Steps.{
  >>=-eq-ok, validate_rows-nil, validate_rows-Turn, validate_row-Passed, Passed, append-eq-nil,
}
use marketforge.Ingestion.Contracts.Accounting.{validate-rows}

-- A cell of the row against the value that the record has in its column.
abbrev pub IsCell : Field → Option Value → Value → Type 0
IsCell spec none cell = ⊥
IsCell spec (some null) cell = (cell ≡ null) × (spec.nullable ≡ true)
IsCell spec (some value) cell = spec.normalizer value ≡ ok cell

-- The row has the contract's columns, in their order, each with a normalised value.
abbrev pub Conforms : List (String × Field) → Row → Row → Type 0
Conforms [] input [] = Unit
Conforms ((name, spec) ∷ fields) input ((column, cell) ∷ row) =
    (column ≡ name)
    × IsCell spec (lookup String_discrete name input) cell
    × Conforms fields input row
Conforms _ input _ = ⊥

-- The rule raises nothing and gives no message, or an empty one.
unfoldable pub Passes : Row → Rule → Type 0
Passes row rule = (m : Option String) × (rule row ≡ ok m) × (message_of m ≡ [])

pub record IsCanonical (c : Contract) (source : String) (raws : List Row) (row : Row) : Type 0 where
  pub raw : Row
  pub supplied : In raw raws
  pub conforms : Conforms c.fields (normalize_columns c raw) row
  pub rules : All (Passes row) c.rules
  pub from : lookup String_discrete "source" row ≡ some (str source)

run_rules-All :
    (rules : List Rule) (row : Row) → run_rules rules row ≡ ok [] → All (Passes row) rules
unfolding run_rules Passes
run_rules-All [] row h = tt
run_rules-All (rule ∷ rules) row h =
    let (m, p, q) = >>=-eq-ok (rule row) _ _ h in
    let (ms, r, s) = >>=-eq-ok (run_rules rules row) _ _ q in
    let (silent, later) = append-eq-nil (message_of m) ms (cc s) in
    ((m, p, silent), run_rules-All rules row (cc (r, later)))

difference-nil : (xs ys : List String) (x : String) → difference xs ys ≡ [] → In x xs → In x ys
unfolding difference filter
difference-nil (y ∷ xs) ys x h m = elim (Bool-cases (contains String_discrete y ys)) [
  | inl found ↦ elim m [
    | inl e ↦ subst (λ z. In z ys) (sym e) (contains→In String_discrete y ys found)
    | inr later ↦ difference-nil xs ys x (ground arith) later
  ]
  | inr missing ↦ absurd (ground arith)
]
difference-nil [] ys x h m = absurd m

check_field-IsCell :
    (name : String) (spec : Field) (value cell : Value)
    → check_field name spec value ≡ ok (some cell, [])
    → IsCell spec (some value) cell
unfolding check_field recover
check_field-IsCell name spec null cell h = ground arith
check_field-IsCell name spec _ cell h = ground arith

recover-stored :
    (name : String) (r : Raises Value) (o : Option Value)
    → recover name r ≡ ok (o, [])
    → (cell : Value) × (o ≡ some cell)
unfolding recover
recover-stored name (ok v) o h = (v, ground arith)
recover-stored name (err e) o h = absurd (ground arith)

check_field-stored :
    (name : String) (spec : Field) (value : Value) (o : Option Value)
    → check_field name spec value ≡ ok (o, [])
    → (cell : Value) × (o ≡ some cell)
unfolding check_field recover
check_field-stored name spec null o h = (null, ground arith)
check_field-stored name spec _ o h = recover-stored name _ o h

check_fields-present :
    (name : String) (spec : Field) (fields : List (String × Field)) (input : Row) (value : Value)
    → lookup String_discrete name input ≡ some value
    → check_fields ((name, spec) ∷ fields) input ≡ (do
      (cell, errors) ← check_field name spec value
      (row, more) ← check_fields fields input
      ok (store name cell row, errors ++ more))
unfolding check_fields
check_fields-present name spec fields input value found = rw (found, check_fields)

-- A column that is there, checked without an error.
record Cons (name : String) (spec : Field) (fields : List (String × Field)) (input row : Row)
    (value : Value) : Type 0 where
  cell : Value
  rest : Row
  stored : check_field name spec value ≡ ok (some cell, [])
  later : check_fields fields input ≡ ok (rest, [])
  built : (name, cell) ∷ rest ≡ row

check_fields-Cons :
    (name : String) (spec : Field) (fields : List (String × Field)) (input row : Row)
    (value : Value)
    → lookup String_discrete name input ≡ some value
    → check_fields ((name, spec) ∷ fields) input ≡ ok (row, [])
    → Cons name spec fields input row value
check_fields-Cons name spec fields input row value found h =
    let h' = sym (check_fields-present name spec fields input value found) ∙ h in
    let (t, p, q) = >>=-eq-ok (check_field name spec value) _ _ h' in
    let (u, r, s) = >>=-eq-ok (check_fields fields input) _ _ q in
    let (quiet, quiet_later) = append-eq-nil t.1 u.1 (cc s) in
    let stored : check_field name spec value ≡ ok (t.0, []) = cc (p, quiet) in
    let (cell, is_cell) = check_field-stored name spec value t.0 stored in
    record {
      cell = cell;
      rest = u.0;
      stored = cc (stored, is_cell);
      later = cc (r, quiet_later);
      built = cc (s, ap (λ o. store name o u.0) is_cell);
    }

pub check_fields-Conforms :
    (fields : List (String × Field)) (input row : Row)
    → check_fields fields input ≡ ok (row, [])
    → ((x : String) → In x (keys fields) → In x (keys input))
    → Conforms fields input row
check_fields-Conforms [] input row h given =
    let e : [] ≡ row = unfold check_fields in cc h in rw (← e) tt
check_fields-Conforms ((name, spec) ∷ fields) input row h given =
    elim (Option-cases (lookup String_discrete name input)) [
      | inl missing ↦
          absurd (lookup-none String_discrete name input missing (given name (inl refl)))
      | inr (value, found) ↦
          let t = check_fields-Cons name spec fields input row value found h in
          let later = check_fields-Conforms fields input t.rest t.later (λ x m. given x (inr m)) in
          rw (← t.built)
            (refl, rw found (check_field-IsCell name spec value t.cell t.stored), later)
    ]

note_any-nil : (f : List String → Message) (xs : List String) → note_any f xs ≡ [] → xs ≡ []
unfolding note_any
note_any-nil f [] h = refl
note_any-nil f (x ∷ xs) h = cc

pub columns_given :
    (c : Contract) (raw input : Row)
    → column_errors c raw input ≡ []
    → (x : String) → In x (keys c.fields)
    → In x (keys input)
unfolding column_errors
columns_given c raw input h x m =
    let (_, named) =
      append-eq-nil (if length input == length raw then [] else duplicate_aliases ∷ []) _ h in
    let (none_missing, _) =
      append-eq-nil (note_any missing_columns (difference (keys c.fields) (keys input))) _ named in
    difference-nil (keys c.fields) (keys input) x (note_any-nil missing_columns _ none_missing) m

Passed-IsCanonical :
    (c : Contract) (source : String) (seen seen' : List (List Value)) (raw row : Row)
    (raws : List Row)
    → In raw raws
    → Passed c source seen raw row seen'
    → IsCanonical c source raws row
Passed-IsCanonical c source seen seen' raw row raws m p = record {
  raw = raw;
  supplied = m;
  conforms =
      check_fields-Conforms c.fields (normalize_columns c raw) row p.fields
        (columns_given c raw (normalize_columns c raw) p.columns);
  rules = run_rules-All c.rules row p.rules;
  from = p.from;
}

file_row-Canonical :
    (c : Contract) (b : Batch) (raw row : Row) (raws : List Row) (es : List Message)
    (v : ValidationResult)
    → ((es ≡ []) → IsCanonical c b.source (raw ∷ raws) row)
    → All (IsCanonical c b.source (raw ∷ raws)) v.accepted
    → All (IsCanonical c b.source (raw ∷ raws)) (file_row b raw row es v).accepted
unfolding file_row
file_row-Canonical c b raw row raws [] v h k = (h refl, k)
file_row-Canonical c b raw row raws (e ∷ es) v h k = k

weaken :
    (c : Contract) (source : String) (raw : Row) (raws rows : List Row)
    → All (IsCanonical c source raws) rows
    → All (IsCanonical c source (raw ∷ raws)) rows
weaken c source raw raws [] h = tt
weaken c source raw raws (row ∷ rows) h = (
  record {
    raw = h.0.raw;
    supplied = inr h.0.supplied;
    conforms = h.0.conforms;
    rules = h.0.rules;
    from = h.0.from;
  },
  weaken c source raw raws rows h.1,
)

rows-IsCanonical :
    (c : Contract) (b : Batch) (seen : List (List Value)) (raws : List Row) (v : ValidationResult)
    → validate_rows c b seen raws ≡ ok v
    → All (IsCanonical c b.source raws) v.accepted
rows-IsCanonical c b seen [] v h = rw (← validate_rows-nil c b seen v h) tt
rows-IsCanonical c b seen (raw ∷ raws) v h =
    let t = validate_rows-Turn c b seen raw raws v h in
    let passed : (t.errors ≡ []) → IsCanonical c b.source (raw ∷ raws) t.row = λ e.
      Passed-IsCanonical c b.source seen t.seen_after raw t.row (raw ∷ raws) (inl refl)
        (validate_row-Passed c b.source seen t.seen_after raw t.row (cc (t.judged, e))) in
    rw (← t.filed) (
      file_row-Canonical c b raw t.row raws t.errors t.rest passed (
        weaken c b.source raw raws t.rest.accepted
          (rows-IsCanonical c b t.seen_after raws t.rest t.others)))

-- Every row that `validate` accepts comes from a record of the batch: it has exactly the columns of
-- the contract, in their order; each cell is the normaliser's value of the record's cell under that
-- name, or a null in a nullable column; every rule passes; and the row's source is the batch's.
pub validate-IsCanonical :
    (c : Contract) (b : Batch) (records : List Row) (v : ValidationResult)
    → validate c b records ≡ ok v
    → All (IsCanonical c b.source records) v.accepted
validate-IsCanonical c b records v h =
    rows-IsCanonical c b [] records v (validate-rows c b records v h)
