-- ===== src/Ingestion/Contracts/Hashable.antt =====
-- Normalisers that return hashable values, and the keys of rows of a contract (`Contract.validate` of
-- ingestion/contracts/base.py).
use marketforge.Prelude.{
  ◌≡◌, refl, sym, ap, ◌∙◌, inl, inr, true, Option, Option-cases, some, none, arith, if_pos, if_neg,
  String, String_discrete, List, [], ◌∷◌, ok, err, All,
}
use marketforge.Prelude.Dict.{lookup}
use marketforge.Ingestion.Values.{Value, null, Row, is_hashable, Exception, is_value_problem}
use marketforge.Ingestion.Contracts.{Normalizer, Field, all_hashable, pick, get_item}
use marketforge.Ingestion.Contracts.Steps.{>>=-eq-ok}
use marketforge.Ingestion.Contracts.Accepted.{Conforms, IsCell}

-- A normaliser raises TypeError, ValueError or OverflowError only, and what it returns is hashable.
pub record IsSound (n : Normalizer) : Type 0 where
  pub problems : (v : Value) (e : Exception) → n v ≡ err e → is_value_problem e ≡ true
  pub hashable : (v cell : Value) → n v ≡ ok cell → is_hashable cell ≡ true

abbrev pub AreSound : List (String × Field) → Type 0
AreSound fields = All (λ (f : String × Field). IsSound f.1.normalizer) fields

IsCell-hashable :
    (spec : Field) (o : Option Value) (cell : Value)
    → IsSound spec.normalizer
    → IsCell spec o cell
    → is_hashable cell ≡ true
IsCell-hashable spec none cell h i = absurd i
IsCell-hashable spec (some null) cell h i = rw i.0 refl
IsCell-hashable spec (some _) cell h i = h.hashable _ cell i

pub Conforms-hashable :
    (fields : List (String × Field)) (input row : Row) (name : String) (v : Value)
    → AreSound fields
    → Conforms fields input row
    → lookup String_discrete name row ≡ some v
    → is_hashable v ≡ true
unfolding lookup
Conforms-hashable ((x, spec) ∷ fields) input ((column, cell) ∷ row) name v h c e =
    elim (String_discrete column name) [
      | yes same ↦
          let is : cell ≡ v = cc (sym (if_pos (String_discrete column name) same _ _) ∙ e) in
          rw (← is) (IsCell-hashable spec _ cell h.0 c.1)
      | no differs ↦
          Conforms-hashable fields input row name v h.1 c.2
            (sym (if_neg (String_discrete column name) differs _ _) ∙ e)
    ]
Conforms-hashable ((x, spec) ∷ fields) input [] name v h c e = absurd c
Conforms-hashable [] input [] name v h c e = absurd (cc e)
Conforms-hashable [] input (cell ∷ row) name v h c e = absurd c

pub pick-hashable :
    (names : List String) (row : Row) (key : List Value)
    → ((name : String) (v : Value)
        → lookup String_discrete name row ≡ some v
        → is_hashable v ≡ true)
    → pick names row ≡ ok key
    → all_hashable key ≡ true
unfolding pick get_item all_hashable
pick-hashable [] row key h e = let is : [] ≡ key = cc e in rw (← is) refl
pick-hashable (name ∷ names) row key h e =
    let (v, at, e1) = >>=-eq-ok (get_item name row) _ key e in
    let (vs, ats, e2) = >>=-eq-ok (pick names row) _ key e1 in
    let is : v ∷ vs ≡ key = cc e2 in
    elim (Option-cases (lookup String_discrete name row)) [
      | inl missing ↦ absurd (ground arith)
      | inr (w, found) ↦
          let same : w ≡ v = ground arith in
          rw (← is, h name v (found ∙ ap some same), pick-hashable names row vs h ats) refl
    ]
