-- ===== src/Ingestion/Datasets/Prices.antt =====
-- What a row has to be to pass `price_ranges` (ingestion/contracts/prices.py).
use marketforge.Prelude.{
  ◌<>◌, ℕ, suc, ◌*◌, ◌<◌, ◌≡◌, refl, sym, ap, ◌∙◌, true, false, Bool, Option, none, some, String,
  String_discrete, List, [], ◌∷◌, ok, err, ◌>>=◌, All, All-of_In, In-All, arith, if◌then◌else◌,
}
use marketforge.Prelude.Dict.{lookup}
use marketforge.Prelude.Int.{ℤ, pos, negsuc, ltb_ℤ, leb_ℤ, ◌≤ℤ◌, ◌<ℤ◌}
use marketforge.Ingestion.Values.{finite, Value, int, float, Row, Raises}
use marketforge.Ingestion.Contracts.{
  Field, Batch, ValidationResult, validate, get_item, normalize_columns,
}
use marketforge.Ingestion.Contracts.Accepted.{Conforms, IsCanonical, validate-IsCanonical}
use marketforge.Ingestion.Normalizers.{Python, finite_float, integer, scaled, one}
use marketforge.Ingestion.Normalizers.Shapes.{finite_float_finite, integer_int}
use marketforge.Ingestion.Ordering.{lt_float, le_float, less, at_most, max_of, min_of}
use marketforge.Ingestion.Datasets.{
  prices_contract, price_ranges, unless, or_rest, not_positive, is_less, is_greater, highest,
  lowest,
}
use marketforge.Ingestion.Datasets.Loud.{price_ranges-none}
use marketforge.Ingestion.Datasets.Cells.{Conforms-lookup, IsCell-given, get_item_of}

-- A row of prices, the four prices in multiples of 2^-1074: all positive, the volume not negative,
-- and low and high around the other two.
pub record IsPriceRow (row : Row) : Type 0 where
  pub opening : ℤ
  pub high : ℤ
  pub low : ℤ
  pub close : ℤ
  pub volume : ℤ
  pub at_open : get_item "open" row ≡ ok (float (finite opening))
  pub at_high : get_item "high" row ≡ ok (float (finite high))
  pub at_low : get_item "low" row ≡ ok (float (finite low))
  pub at_close : get_item "close" row ≡ ok (float (finite close))
  pub at_volume : get_item "volume" row ≡ ok (int volume)
  pub positive : pos 0 <ℤ low
  pub counted : pos 0 ≤ℤ volume
  pub open_between : (low ≤ℤ opening) × (opening ≤ℤ high)
  pub close_between : (low ≤ℤ close) × (close ≤ℤ high)

one_positive : 0 < one
unfolding one
one_positive = omega arith

mul_positive : (n m : ℕ) → 0 < m → 0 < suc n * m
mul_positive n m h = grind arith

scaled_sign : (n : ℤ) → ltb_ℤ (scaled n) (scaled (pos 0)) ≡ false → pos 0 ≤ℤ n
unfolding scaled
scaled_sign (pos n) h = omega arith
scaled_sign (negsuc n) h = ground (arith, mul_positive n one one_positive)

unless-none :
    (test : Raises Bool) (m : String) (rest : Raises (Option String))
    → unless test m rest ≡ ok none
    → (test ≡ ok false) × (rest ≡ ok none)
unfolding unless
unless-none (ok true) m rest h = cc
unless-none (ok false) m rest h = (refl, h)
unless-none (err e) m rest h = cc

or_rest-none :
    (found : Raises (Option String)) (rest : Raises (Option String))
    → (found >>= λ m. or_rest m rest) ≡ ok none
    → (found ≡ ok none) × (rest ≡ ok none)
unfolding or_rest
or_rest-none (ok none) rest h = (refl, h)
or_rest-none (ok (some m)) rest h = cc
or_rest-none (err e) rest h = cc

pub not_positive-cons :
    (name : String) (names : List String) (row : Row) (z : ℤ)
    → get_item name row ≡ ok (float (finite z))
    → not_positive (name ∷ names) row ≡ (
        if leb_ℤ z (pos 0)
        then ok (some (name <> ": must be greater than zero"))
        else not_positive names row)
unfolding not_positive at_most le_float
not_positive-cons name names row z g = rw (g, not_positive)

-- What the loop that found nothing says of the first name.
not_positive-none :
    (name : String) (names : List String) (row : Row) (z : ℤ)
    → get_item name row ≡ ok (float (finite z))
    → not_positive (name ∷ names) row ≡ ok none
    → (pos 0 <ℤ z) × (not_positive names row ≡ ok none)
not_positive-none name names row z g h =
    by_test (leb_ℤ z (pos 0)) refl (sym (not_positive-cons name names row z g) ∙ h)
  where
    by_test :
        (b : Bool)
        → leb_ℤ z (pos 0) ≡ b
        → ◌≡◌ {A = Raises (Option String)}
            (if b
              then ok (some (name <> ": must be greater than zero"))
              else not_positive names row)
            (ok none)
        → (pos 0 <ℤ z) × (not_positive names row ≡ ok none)
    by_test true e h = cc
    by_test false e h = (ground arith, h)

max_of-finite :
    (a b : ℤ)
    → max_of (float (finite a)) (float (finite b))
      ≡ ok (float (finite (if ltb_ℤ a b then b else a)))
unfolding max_of less lt_float
max_of-finite a b = ground arith

min_of-finite :
    (a b : ℤ)
    → min_of (float (finite a)) (float (finite b))
      ≡ ok (float (finite (if ltb_ℤ b a then b else a)))
unfolding min_of less lt_float
min_of-finite a b = ground arith

pub highest-eq :
    (row : Row) (o l c : ℤ)
    → get_item "open" row ≡ ok (float (finite o))
    → get_item "low" row ≡ ok (float (finite l))
    → get_item "close" row ≡ ok (float (finite c))
    → let top = if ltb_ℤ l o then o else l in
      highest row ≡ ok (float (finite (if ltb_ℤ top c then c else top)))
unfolding highest
highest-eq row o l c ato atl atc = rw (atl, ato, atc, max_of-finite, max_of-finite)

pub lowest-eq :
    (row : Row) (o c : ℤ)
    → get_item "open" row ≡ ok (float (finite o))
    → get_item "close" row ≡ ok (float (finite c))
    → lowest row ≡ ok (float (finite (if ltb_ℤ c o then c else o)))
unfolding lowest
lowest-eq row o c ato atc = rw (ato, atc, min_of-finite)

not_less :
    (v w : Raises Value) (a b : ℤ)
    → v ≡ ok (float (finite a))
    → w ≡ ok (float (finite b))
    → is_less v w ≡ ok false
    → b ≤ℤ a
unfolding is_less less lt_float
not_less v w a b ev ew h = ground arith

not_greater :
    (v w : Raises Value) (a b : ℤ)
    → v ≡ ok (float (finite a))
    → w ≡ ok (float (finite b))
    → is_greater v w ≡ ok false
    → a ≤ℤ b
unfolding is_greater less lt_float
not_greater v w a b ev ew h = ground arith

not_less_zero :
    (v : Raises Value) (n : ℤ)
    → v ≡ ok (int n)
    → is_less v (ok (int (pos 0))) ≡ ok false
    → pos 0 ≤ℤ n
unfolding is_less less lt_float
not_less_zero v n ev h = scaled_sign n (ground arith)

price_ranges_bounds :
    (row : Row) (o h l c v : ℤ)
    → get_item "open" row ≡ ok (float (finite o))
    → get_item "high" row ≡ ok (float (finite h))
    → get_item "low" row ≡ ok (float (finite l))
    → get_item "close" row ≡ ok (float (finite c))
    → get_item "volume" row ≡ ok (int v)
    → price_ranges row ≡ ok none
    → (pos 0 <ℤ l) × (pos 0 ≤ℤ v) × ((l ≤ℤ o) × (o ≤ℤ h)) × (l ≤ℤ c) × (c ≤ℤ h)
unfolding price_ranges
price_ranges_bounds row o h l c v ato ath atl atc atv e =
    let (loop, rest) = or_rest-none _ _ e in
    let (_, loop1) = not_positive-none "open" ("high" ∷ "low" ∷ "close" ∷ []) row o ato loop in
    let (_, loop2) = not_positive-none "high" ("low" ∷ "close" ∷ []) row h ath loop1 in
    let (low, _) = not_positive-none "low" ("close" ∷ []) row l atl loop2 in
    let (counted, rest1) = unless-none _ _ _ rest in
    let (top, rest2) = unless-none _ _ _ rest1 in
    let (bottom, _) = unless-none _ _ _ rest2 in
    let at_top = not_less _ _ h _ ath (highest-eq row o l c ato atl atc) top in
    let at_bottom = not_greater _ _ l _ atl (lowest-eq row o c ato atc) bottom in
    (low, not_less_zero _ v atv counted, (ground arith, ground arith), ground arith, ground arith)

pub float_cell :
    (p : Python) (fields : List (String × Field)) (input row : Row) (name : String)
    → Conforms fields input row
    → lookup String_discrete name fields
      ≡ some (record { normalizer = finite_float p; nullable = false })
    → (z : ℤ) × (get_item name row ≡ ok (float (finite z)))
float_cell p fields input row name h e =
    let (cell, found, is) = Conforms-lookup fields input row name _ h e in
    let (v, n) = IsCell-given (finite_float p) _ cell is in
    let (z, same) = finite_float_finite p v cell n in
    (z, get_item_of name row cell found ∙ ap ok same)

pub int_cell :
    (p : Python) (fields : List (String × Field)) (input row : Row) (name : String)
    → Conforms fields input row
    → lookup String_discrete name fields
      ≡ some (record { normalizer = integer p; nullable = false })
    → (n : ℤ) × (get_item name row ≡ ok (int n))
int_cell p fields input row name h e =
    let (cell, found, is) = Conforms-lookup fields input row name _ h e in
    let (v, n) = IsCell-given (integer p) _ cell is in
    let (z, same) = integer_int p v cell n in (z, get_item_of name row cell found ∙ ap ok same)

IsCanonical-IsPriceRow :
    (p : Python) (source : String) (records : List Row) (row : Row)
    → IsCanonical (prices_contract p) source records row
    → IsPriceRow row
unfolding lookup String_discrete
IsCanonical-IsPriceRow p source records row h =
    let fields = (prices_contract p).fields in
    let input = normalize_columns (prices_contract p) h.raw in
    let (o, ato) = float_cell p fields input row "open" h.conforms refl in
    let (t, ath) = float_cell p fields input row "high" h.conforms refl in
    let (l, atl) = float_cell p fields input row "low" h.conforms refl in
    let (c, atc) = float_cell p fields input row "close" h.conforms refl in
    let (v, atv) = int_cell p fields input row "volume" h.conforms refl in
    let (low, counted, openings, under, over) =
      price_ranges_bounds row o t l c v ato ath atl atc atv (price_ranges-none row h.rules.0) in
    record {
      opening = o;
      high = t;
      low = l;
      close = c;
      volume = v;
      at_open = ato;
      at_high = ath;
      at_low = atl;
      at_close = atc;
      at_volume = atv;
      positive = low;
      counted = counted;
      open_between = openings;
      close_between = (under, over);
    }

-- In every row of prices that is accepted, the four prices are finite and positive, the volume is a
-- whole number and not negative, and open and close lie between low and high.
pub prices-IsPriceRow :
    (p : Python) (b : Batch) (records : List Row) (v : ValidationResult)
    → validate (prices_contract p) b records ≡ ok v
    → All IsPriceRow v.accepted
prices-IsPriceRow p b records v h = All-of_In IsPriceRow v.accepted λ row m.
    IsCanonical-IsPriceRow p b.source records row (
      In-All (IsCanonical (prices_contract p) b.source records) row v.accepted
        (validate-IsCanonical (prices_contract p) b records v h) m)
