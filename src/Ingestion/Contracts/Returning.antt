-- ===== src/Ingestion/Contracts/Returning.antt =====
-- The parts of `validate` (ingestion/contracts/base.py) that raise nothing for a contract that is safe.
use marketforge.Prelude.{
  ◌≡◌, refl, sym, ◌∙◌, inl, inr, true, Option, Option-cases, String, String_discrete, List, [], ◌∷◌,
  ◌++◌, ok, err, ◌>>=◌, In, All,
}
use marketforge.Prelude.Dict.{lookup, keys, lookup-none}
use marketforge.Ingestion.Values.{Value, null, Row, Raises, Exception, is_value_problem}
use marketforge.Ingestion.Contracts.{
  Contract, Field, Rule, all_hashable, Message, validate_row, normalize_columns, run_rules, pick,
  get_item, check_fields, check_field, recover, column_errors, check_row, then_source, then_unique,
  check_unique,
}
use marketforge.Ingestion.Contracts.Steps.{append-eq-nil}
use marketforge.Ingestion.Contracts.Accepted.{Conforms, check_fields-Conforms, columns_given}
use marketforge.Ingestion.Contracts.Hashable.{IsSound, AreSound, Conforms-hashable, pick-hashable}

-- What the engine relies on: the normalisers are sound, a rule raises nothing on a row of the contract,
-- and the batch key is made of columns of the contract.
pub record IsSafe (c : Contract) : Type 0 where
  pub normalizers : AreSound c.fields
  pub rules :
      (input row : Row)
      → Conforms c.fields input row
      → All (λ (rule : Rule). (m : Option String) × (rule row ≡ ok m)) c.rules
  pub key : All (λ name. In name (keys c.fields)) c.unique_by

abbrev pub Returns : {A : Type 0} → Raises A → Type 0
Returns (ok a) = Unit
Returns (err e) = ⊥

pub Returns->>= :
    {A B : Type 0} (m : Raises A) (f : A → Raises B)
    → Returns m
    → ((a : A) → m ≡ ok a → Returns (f a))
    → Returns (m >>= f)
Returns->>= (ok a) f r h = h a refl
Returns->>= (err e) f r h = absurd r

recover-Returns :
    (name : String) (r : Raises Value)
    → ((e : Exception) → r ≡ err e → is_value_problem e ≡ true)
    → Returns (recover name r)
unfolding recover
recover-Returns name (ok v) h = tt
recover-Returns name (err e) h = rw (h e refl) tt

check_field-Returns :
    (name : String) (spec : Field) (value : Value)
    → IsSound spec.normalizer
    → Returns (check_field name spec value)
unfolding check_field
check_field-Returns name spec null h = tt
check_field-Returns name spec _ h = recover-Returns name _ (h.problems _)

check_fields-Returns :
    (fields : List (String × Field)) (input : Row)
    → AreSound fields
    → Returns (check_fields fields input)
unfolding check_fields
check_fields-Returns [] input h = tt
check_fields-Returns ((name, spec) ∷ fields) input h =
    elim (Option-cases (lookup String_discrete name input)) [
      | inl missing ↦ rw (missing, check_fields) (check_fields-Returns fields input h.1)
      | inr (value, found) ↦
          rw (found, check_fields)
            (Returns->>= (check_field name spec value) _ (check_field-Returns name spec value h.0)
              λ a _.
                Returns->>= (check_fields fields input) _ (check_fields-Returns fields input h.1)
                  (λ b _. tt))
    ]

run_rules-Returns :
    (rules : List Rule) (row : Row)
    → All (λ (rule : Rule). (m : Option String) × (rule row ≡ ok m)) rules
    → Returns (run_rules rules row)
unfolding run_rules
run_rules-Returns [] row h = tt
run_rules-Returns (rule ∷ rules) row h =
    rw (h.0.1, run_rules)
      (Returns->>= (run_rules rules row) _ (run_rules-Returns rules row h.1) (λ b _. tt))

pick-Returns :
    (names : List String) (row : Row)
    → All (λ name. In name (keys row)) names
    → Returns (pick names row)
unfolding pick get_item
pick-Returns [] row h = tt
pick-Returns (name ∷ names) row h = elim (Option-cases (lookup String_discrete name row)) [
  | inl missing ↦ absurd (lookup-none String_discrete name row missing h.0)
  | inr (v, found) ↦
      rw (found, pick, get_item)
        (Returns->>= (pick names row) _ (pick-Returns names row h.1) (λ b _. tt))
]

Conforms-keys :
    (fields : List (String × Field)) (input row : Row) (x : String)
    → Conforms fields input row
    → In x (keys fields)
    → In x (keys row)
Conforms-keys ((name, spec) ∷ fields) input ((column, cell) ∷ row) x h (inl e) = inl (e ∙ sym h.0)
Conforms-keys ((name, spec) ∷ fields) input ((column, cell) ∷ row) x h (inr m) =
    inr (Conforms-keys fields input row x h.2 m)
Conforms-keys ((name, spec) ∷ fields) input [] x h m = absurd h
Conforms-keys [] input row x h m = absurd m

then_unique-Returns :
    (c : Contract) (seen : List (List Value)) (row : Row) (es : List Message)
    → Returns (pick c.unique_by row)
    → ((key : List Value) → pick c.unique_by row ≡ ok key → all_hashable key ≡ true)
    → Returns (then_unique c seen row es)
unfolding then_unique check_unique
then_unique-Returns c seen row [] h k =
    Returns->>= (pick c.unique_by row) _ h (λ key at. rw (k key at) tt)
then_unique-Returns c seen row (e ∷ es) h k = tt

check_row-Returns :
    (c : Contract) (source : String) (seen : List (List Value)) (row : Row) (found : List Message)
    → (found ≡ [] → Returns (run_rules c.rules row))
    → (found ≡ [] → Returns (pick c.unique_by row))
    → (found ≡ [] → (key : List Value) → pick c.unique_by row ≡ ok key → all_hashable key ≡ true)
    → Returns (check_row c source seen row found)
unfolding check_row
check_row-Returns c source seen row [] rules key hashed =
    Returns->>= (run_rules c.rules row) _ (rules refl) λ broken _.
      then_unique-Returns c seen row (then_source source row broken) (key refl) (hashed refl)
check_row-Returns c source seen row (e ∷ es) rules key hashed = tt

All-of_keys :
    (c : Contract) (input row : Row) (names : List String)
    → Conforms c.fields input row
    → All (λ name. In name (keys c.fields)) names
    → All (λ name. In name (keys row)) names
All-of_keys c input row [] h k = tt
All-of_keys c input row (name ∷ names) h k =
    (Conforms-keys c.fields input row name h k.0, All-of_keys c input row names h k.1)

pub validate_row-Returns :
    (c : Contract) (source : String) (seen : List (List Value)) (raw : Row)
    → IsSafe c
    → Returns (validate_row c source seen raw)
unfolding validate_row
validate_row-Returns c source seen raw safe =
    let input = normalize_columns c raw in
    let columns = column_errors c raw input in
    Returns->>= (check_fields c.fields input) _
      (check_fields-Returns c.fields input safe.normalizers)
      λ t checked.
        let conforms : columns ++ t.1 ≡ [] → Conforms c.fields input t.0 = λ e.
          let (no_columns, no_found) = append-eq-nil columns t.1 e in
          check_fields-Conforms c.fields input t.0 (cc (checked, no_found))
            (columns_given c raw input no_columns) in
        Returns->>= (check_row c source seen t.0 (columns ++ t.1)) _
          (check_row-Returns c source seen t.0 (columns ++ t.1)
            (λ e. run_rules-Returns c.rules t.0 (safe.rules input t.0 (conforms e)))
            (λ e.
              pick-Returns c.unique_by t.0
                (All-of_keys c input t.0 c.unique_by (conforms e) safe.key))
            (λ e key. pick-hashable c.unique_by t.0 key (λ name v.
              Conforms-hashable c.fields input t.0 name v safe.normalizers (conforms e))))
          (λ u _. tt)
