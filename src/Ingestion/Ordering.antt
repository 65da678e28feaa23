-- ===== src/Ingestion/Ordering.antt =====
-- Python's `<` and `max` on the values of a row: numbers, dates and times are ordered among
-- themselves, and a comparison of any others raises TypeError.
use marketforge.Prelude.{Bool, true, false, Option, none, some, ok, err, ◌>>=◌, ltb, if◌then◌else◌}
use marketforge.Prelude.Int.{pos, ltb_ℤ, leb_ℤ}
use marketforge.Ingestion.Values.{
  Float, finite, pos_inf, neg_inf, nan, naive, aware, Value, bool, int, float, date, datetime,
  type_error, Raises,
}
use marketforge.Ingestion.Normalizers.{scaled}

unfoldable pub lt_float : Float → Float → Bool
lt_float nan g = false
lt_float f nan = false
lt_float pos_inf g = false
lt_float f neg_inf = false
lt_float neg_inf g = true
lt_float f pos_inf = true
lt_float (finite a) (finite b) = ltb_ℤ a b

unfoldable pub le_float : Float → Float → Bool
le_float nan g = false
le_float f nan = false
le_float neg_inf g = true
le_float f pos_inf = true
le_float pos_inf g = false
le_float f neg_inf = false
le_float (finite a) (finite b) = leb_ℤ a b

-- The number that a value is, exactly
number : Value → Option Float
number (bool true) = some (finite (scaled (pos 1)))
number (bool false) = some (finite (scaled (pos 0)))
number (int n) = some (finite (scaled n))
number (float f) = some f
number v = none

not_ordered : Raises Bool
not_ordered = err (type_error "not supported between these types")

compare_numbers : (Float → Float → Bool) → Option Float → Option Float → Raises Bool
unfolding not_ordered
compare_numbers test (some f) (some g) = ok (test f g)
compare_numbers test f g = not_ordered

-- `v < w`
unfoldable pub less : Value → Value → Raises Bool
unfolding compare_numbers number not_ordered
less (date d) (date e) = ok (ltb d e)
less (datetime (naive t)) (datetime (naive u)) = ok (ltb_ℤ t u)
less (datetime (aware t o)) (datetime (aware u q)) = ok (ltb_ℤ t u)
less v w = compare_numbers lt_float (number v) (number w)

-- `v <= n` for a number n
unfoldable pub at_most : Value → Float → Raises Bool
unfolding compare_numbers number
at_most v g = compare_numbers le_float (number v) (some g)

-- `max(v, w)` and `min(v, w)`: the first where they are equal
unfoldable pub max_of : Value → Value → Raises Value
max_of v w = do larger ← less v w; ok (if larger then w else v)

unfoldable pub min_of : Value → Value → Raises Value
min_of v w = do smaller ← less w v; ok (if smaller then w else v)
