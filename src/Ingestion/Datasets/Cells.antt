-- ===== src/Ingestion/Datasets/Cells.antt =====
-- The cells of an accepted row, by the names of their columns.
use marketforge.Prelude.{
  ◌≡◌, ◌⊎◌, sym, ◌∙◌, subst, inl, inr, if_pos, if_neg, true, false, Option, none, some, String,
  String_discrete, List, [], ◌∷◌, ok,
}
use marketforge.Prelude.Dict.{lookup}
use marketforge.Ingestion.Values.{Value, null, bool, int, float, str, date, datetime, other, Row}
use marketforge.Ingestion.Contracts.{Field, Normalizer, get_item}
use marketforge.Ingestion.Contracts.Accepted.{IsCell, Conforms}

module _ {V : Type 0} (k j : String) (v : V) (d : List (String × V)) where
  lookup_here : j ≡ k → lookup String_discrete k ((j, v) ∷ d) ≡ some v
  unfolding lookup
  lookup_here e = if_pos (String_discrete j k) e _ _

  lookup_there : ¬ (j ≡ k) → lookup String_discrete k ((j, v) ∷ d) ≡ lookup String_discrete k d
  unfolding lookup
  lookup_there n = if_neg (String_discrete j k) n _ _

pub get_item_of :
    (name : String) (row : Row) (v : Value)
    → lookup String_discrete name row ≡ some v
    → get_item name row ≡ ok v
unfolding get_item
get_item_of name row v h = rw (h, get_item)

none-some : {A : Type 0} (a : A) → ¬ (◌≡◌ {A = Option A} none (some a))
none-some a e = cc

some_injective : {A : Type 0} (a b : A) → some a ≡ some b → a ≡ b
some_injective a b e = cc

-- A column of the contract has a cell in a row that conforms to it.
pub Conforms-lookup :
    (fields : List (String × Field)) (input row : Row) (name : String) (spec : Field)
    → Conforms fields input row
    → lookup String_discrete name fields ≡ some spec
    → (cell : Value) × (lookup String_discrete name row ≡ some cell)
      × IsCell spec (lookup String_discrete name input) cell
Conforms-lookup ((x, f) ∷ fields) input ((column, c) ∷ row) name spec h e =
    elim (String_discrete x name) [
      | yes same ↦
          let here = some_injective f spec (sym (lookup_here name x f fields same) ∙ e) in
          (
            c,
            lookup_here name column c row (h.0 ∙ same),
            subst (λ (g : Field). IsCell g (lookup String_discrete name input) c) here
                (subst (λ y. IsCell f (lookup String_discrete y input) c) same h.1),
          )
      | no differs ↦
          let (cell, g, i) =
            Conforms-lookup fields input row name spec h.2
              (sym (lookup_there name x f fields differs) ∙ e) in
          (cell, lookup_there name column c row (λ q. differs (sym h.0 ∙ q)) ∙ g, i)
    ]
Conforms-lookup ((x, f) ∷ fields) input [] name spec h e = absurd h
Conforms-lookup [] input row name spec h e = absurd (unfold lookup in none-some spec e)

-- A cell of a column that is not nullable is the normaliser's value of some cell of the record.
pub IsCell-given :
    (n : Normalizer) (o : Option Value) (cell : Value)
    → IsCell (record { normalizer = n; nullable = false }) o cell
    → (v : Value) × (n v ≡ ok cell)
IsCell-given n none cell h = absurd h
IsCell-given n (some null) cell h = let no = h.1 in cc no
IsCell-given n (some (bool b)) cell h = (bool b, h)
IsCell-given n (some (int z)) cell h = (int z, h)
IsCell-given n (some (float f)) cell h = (float f, h)
IsCell-given n (some (str s)) cell h = (str s, h)
IsCell-given n (some (date d)) cell h = (date d, h)
IsCell-given n (some (datetime t)) cell h = (datetime t, h)
IsCell-given n (some (other k)) cell h = (other k, h)

-- A cell of a nullable column is null or the normaliser's value of some cell of the record.
pub IsCell-nullable :
    (n : Normalizer) (o : Option Value) (cell : Value)
    → IsCell (record { normalizer = n; nullable = true }) o cell
    → (cell ≡ null) ⊎ ((v : Value) × (n v ≡ ok cell))
IsCell-nullable n none cell h = absurd h
IsCell-nullable n (some null) cell h = inl h.0
IsCell-nullable n (some (bool b)) cell h = inr (bool b, h)
IsCell-nullable n (some (int z)) cell h = inr (int z, h)
IsCell-nullable n (some (float f)) cell h = inr (float f, h)
IsCell-nullable n (some (str s)) cell h = inr (str s, h)
IsCell-nullable n (some (date d)) cell h = inr (date d, h)
IsCell-nullable n (some (datetime t)) cell h = inr (datetime t, h)
IsCell-nullable n (some (other k)) cell h = inr (other k, h)
