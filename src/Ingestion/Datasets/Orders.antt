-- ===== src/Ingestion/Datasets/Orders.antt =====
-- The rules of the datasets on rows that conform to their contracts.
use marketforge.Prelude.{
  ◌<>◌, ℕ, ◌≡◌, ◌⊎◌, inl, inr, refl, ap, ◌∙◌, true, false, Bool, Option, none, some, String,
  String_discrete, List, [], ◌∷◌, ok, ◌>>=◌, All, ltb, if◌then◌else◌,
}
use marketforge.Prelude.Dict.{lookup}
use marketforge.Prelude.Int.{ℤ, pos, leb_ℤ, ltb_ℤ}
use marketforge.Ingestion.Values.{
  finite, Value, null, int, float, date, datetime, aware, Row, Raises,
}
use marketforge.Ingestion.Contracts.{Field, get_item}
use marketforge.Ingestion.Contracts.Accepted.{Conforms}
use marketforge.Ingestion.Normalizers.{Python, iso_date, utc_datetime, scaled}
use marketforge.Ingestion.Normalizers.Shapes.{iso_date_date, utc_datetime_aware}
use marketforge.Ingestion.Ordering.{less, lt_float}
use marketforge.Ingestion.Datasets.{
  prices_contract, fundamentals_contract, macro_contract, price_ranges, period_order, release_order,
  unless, or_rest, not_positive, is_less, is_greater, highest, lowest, given_and,
}
use marketforge.Ingestion.Datasets.Cells.{
  Conforms-lookup, IsCell-given, IsCell-nullable, get_item_of,
}
use marketforge.Ingestion.Datasets.Prices.{
  float_cell, int_cell, highest-eq, lowest-eq, not_positive-cons,
}

-- The computation returns.
abbrev pub Gives : {A : Type 0} → Raises A → Type 0
Gives {A = A} m = (a : A) × (m ≡ ok a)

unless-Gives :
    (test : Raises Bool) (m : String) (rest : Raises (Option String))
    → Gives test
    → Gives rest
    → Gives (unless test m rest)
unfolding unless
unless-Gives test m rest (true, e) r = (some m, rw e)
unless-Gives test m rest (false, e) r = (r.0, rw e r.1)

or_rest-Gives :
    (found rest : Raises (Option String))
    → Gives found
    → Gives rest
    → Gives (found >>= λ m. or_rest m rest)
unfolding or_rest
or_rest-Gives found rest (none, e) r = (r.0, rw e r.1)
or_rest-Gives found rest (some m, e) r = (some m, rw e)

-- The names of finite floats in the row
abbrev AreFloats : Row → List String → Type 0
AreFloats row = All (λ name. (z : ℤ) × (get_item name row ≡ ok (float (finite z))))

not_positive-Gives :
    (names : List String) (row : Row) → AreFloats row names → Gives (not_positive names row)
not_positive-Gives [] row h = unfold not_positive in (none, refl)
not_positive-Gives (name ∷ names) row ((z, g), h) =
    let turn = not_positive-cons name names row z g in
    elim (leb_ℤ z (pos 0))
        as (λ b.
          (not_positive (name ∷ names) row ≡ (
            if b
            then ok (some (name <> ": must be greater than zero"))
            else not_positive names row))
          → Gives (not_positive (name ∷ names) row)) [
            | true ↦ λ t. (some (name <> ": must be greater than zero"), t)
            | false ↦ λ t. let (m, e) = not_positive-Gives names row h in (m, t ∙ e)
          ]
      turn

is_less-floats :
    (v w : Raises Value) (a b : ℤ)
    → v ≡ ok (float (finite a))
    → w ≡ ok (float (finite b))
    → Gives (is_less v w) × Gives (is_greater v w)
unfolding is_less is_greater less lt_float
is_less-floats v w a b ev ew = ((ltb_ℤ a b, rw (ev, ew)), (ltb_ℤ b a, rw (ev, ew)))

is_less-int : (v : Raises Value) (n : ℤ) → v ≡ ok (int n) → Gives (is_less v (ok (int (pos 0))))
unfolding is_less less lt_float
is_less-int v n e = (ltb_ℤ (scaled n) (scaled (pos 0)), rw e)

pub price_ranges-Gives :
    (p : Python) (input row : Row)
    → Conforms (prices_contract p).fields input row
    → Gives (price_ranges row)
unfolding price_ranges lookup String_discrete
price_ranges-Gives p input row h =
    let fields = (prices_contract p).fields in
    let (o, ato) = float_cell p fields input row "open" h refl in
    let (t, ath) = float_cell p fields input row "high" h refl in
    let (l, atl) = float_cell p fields input row "low" h refl in
    let (c, atc) = float_cell p fields input row "close" h refl in
    let (v, atv) = int_cell p fields input row "volume" h refl in
    or_rest-Gives _ _
      (not_positive-Gives ("open" ∷ "high" ∷ "low" ∷ "close" ∷ []) row
        ((o, ato), ((t, ath), ((l, atl), ((c, atc), tt)))))
      (unless-Gives _ _ _ (is_less-int _ v atv) (
        unless-Gives _ _ _
          (is_less-floats (get_item "high" row) (highest row) t _ ath
            (highest-eq row o l c ato atl atc)).0
          (unless-Gives _ _ _
            (is_less-floats (get_item "low" row) (lowest row) l _ atl (lowest-eq row o c ato atc)).1
            (none, refl))))

-- A cell that is null or a date, and one that is null or an aware time.
date_cell :
    (p : Python) (fields : List (String × Field)) (input row : Row) (name : String)
    → Conforms fields input row
    → lookup String_discrete name fields
      ≡ some (record { normalizer = iso_date p; nullable = true })
    → (get_item name row ≡ ok null) ⊎ ((d : ℕ) × (get_item name row ≡ ok (date d)))
date_cell p fields input row name h e =
    let (cell, found, is) = Conforms-lookup fields input row name _ h e in
    elim (IsCell-nullable (iso_date p) _ cell is) [
      | inl q ↦ inl (get_item_of name row cell found ∙ ap ok q)
      | inr (v, n) ↦
          let (d, same) = iso_date_date p v cell n in
          inr (d, get_item_of name row cell found ∙ ap ok same)
    ]

time_cell :
    (p : Python) (fields : List (String × Field)) (input row : Row) (name : String)
    → Conforms fields input row
    → lookup String_discrete name fields
      ≡ some (record { normalizer = utc_datetime p; nullable = true })
    → (get_item name row ≡ ok null)
      ⊎ ((t : ℤ) × (get_item name row ≡ ok (datetime (aware t (pos 0)))))
time_cell p fields input row name h e =
    let (cell, found, is) = Conforms-lookup fields input row name _ h e in
    elim (IsCell-nullable (utc_datetime p) _ cell is) [
      | inl q ↦ inl (get_item_of name row cell found ∙ ap ok q)
      | inr (v, n) ↦
          let (t, same) = utc_datetime_aware p v cell n in
          inr (t, get_item_of name row cell found ∙ ap ok same)
    ]

given_date :
    (p : Python) (fields : List (String × Field)) (input row : Row) (name : String)
    → Conforms fields input row
    → lookup String_discrete name fields
      ≡ some (record { normalizer = iso_date p; nullable = false })
    → (d : ℕ) × (get_item name row ≡ ok (date d))
given_date p fields input row name h e =
    let (cell, found, is) = Conforms-lookup fields input row name _ h e in
    let (v, n) = IsCell-given (iso_date p) _ cell is in
    let (d, same) = iso_date_date p v cell n in (d, get_item_of name row cell found ∙ ap ok same)

given_time :
    (p : Python) (fields : List (String × Field)) (input row : Row) (name : String)
    → Conforms fields input row
    → lookup String_discrete name fields
      ≡ some (record { normalizer = utc_datetime p; nullable = false })
    → (t : ℤ) × (get_item name row ≡ ok (datetime (aware t (pos 0))))
given_time p fields input row name h e =
    let (cell, found, is) = Conforms-lookup fields input row name _ h e in
    let (v, n) = IsCell-given (utc_datetime p) _ cell is in
    let (t, same) = utc_datetime_aware p v cell n in
    (t, get_item_of name row cell found ∙ ap ok same)

given_null :
    (name : String) (row : Row) (test : Raises Bool)
    → get_item name row ≡ ok null
    → Gives (given_and name row test)
unfolding given_and
given_null name row test e = (false, rw e)

given_time_order :
    (name other : String) (row : Row) (t u : ℤ)
    → get_item name row ≡ ok (datetime (aware t (pos 0)))
    → get_item other row ≡ ok (datetime (aware u (pos 0)))
    → Gives (given_and name row (is_greater (get_item name row) (get_item other row)))
unfolding given_and is_greater less
given_time_order name other row t u e f = (ltb_ℤ u t, rw (e, f))

given_date_order :
    (name other : String) (row : Row) (t u : ℕ)
    → get_item name row ≡ ok (date t)
    → get_item other row ≡ ok (date u)
    → Gives (given_and name row (is_less (get_item other row) (get_item name row)))
unfolding given_and is_less less
given_date_order name other row t u e f = (ltb u t, rw (e, f))

pub period_order-Gives :
    (p : Python) (input row : Row)
    → Conforms (fundamentals_contract p).fields input row
    → Gives (period_order row)
unfolding period_order lookup String_discrete
period_order-Gives p input row h =
    let fields = (fundamentals_contract p).fields in
    let (end, at_end) = given_date p fields input row "period_end" h refl in
    let (now, at_now) = given_time p fields input row "ingested_at" h refl in
    unless-Gives _ _ _
      (elim (date_cell p fields input row "period_start" h refl) [
        | inl e ↦ given_null "period_start" row _ e
        | inr (d, e) ↦ given_date_order "period_start" "period_end" row d end e at_end
      ])
      (unless-Gives _ _ _
        (elim (time_cell p fields input row "filed_at" h refl) [
          | inl e ↦ given_null "filed_at" row _ e
          | inr (t, e) ↦ given_time_order "filed_at" "ingested_at" row t now e at_now
        ])
        (none, refl))

pub release_order-Gives :
    (p : Python) (input row : Row)
    → Conforms (macro_contract p).fields input row
    → Gives (release_order row)
unfolding release_order lookup String_discrete
release_order-Gives p input row h =
    let fields = (macro_contract p).fields in
    let (now, at_now) = given_time p fields input row "ingested_at" h refl in
    unless-Gives _ _ _
      (elim (time_cell p fields input row "released_at" h refl) [
        | inl e ↦ given_null "released_at" row _ e
        | inr (t, e) ↦ given_time_order "released_at" "ingested_at" row t now e at_now
      ])
      (none, refl)
