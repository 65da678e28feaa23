-- ===== src/Ingestion/Normalizers.antt =====
-- The normalisers of ingestion/contracts/base.py and `url` of ingestion/contracts/news.py. What they
-- call of Python's own is a parameter.
pub mod Shapes
pub mod Problems
use marketforge.Prelude.{
  ℕ, zero, suc, ◌-◌, ◌*◌, ◌^◌, String, String_discrete, Bool, true, false, not, ◌||◌, List, [], ◌∷◌,
  ok, err, ◌>>=◌, ◌>>◌, raise_if, contains, if◌then◌else◌,
}
use marketforge.Prelude.Int.{ℤ, pos, negsuc, eqb_ℤ}
use marketforge.Ingestion.Values.{
  Float, finite, pos_inf, neg_inf, nan, Datetime, naive, aware, astimezone, day_of, Value, null,
  bool, int, float, str, date, datetime, other, type_error, value_error, Raises,
}
use marketforge.Ingestion.Contracts.{Normalizer}

-- `str.strip`, `str.upper`, `s.replace("Z", "+00:00")`, `float`, `int`, `date.fromisoformat`,
-- `datetime.fromisoformat`, and the scheme and the network location that `urlparse` finds
pub record Python : Type 0 where
  pub strip : String → String
  pub upper : String → String
  pub replace_z : String → String
  pub float_of : Value → Raises Float
  pub int_of : Value → Raises ℤ
  pub date_of : String → Raises ℕ
  pub time_of : String → Raises Datetime
  pub urlparse : String → Raises (String × String)

-- The integer 1 as a multiple of 2^-1074
unfoldable pub one : ℕ
one = 2 ^ 1074

-- An integer as a multiple of 2^-1074
unfoldable pub scaled : ℤ → ℤ
scaled (pos n) = pos (n * one)
scaled (negsuc n) = negsuc (suc n * one - 1)

unfoldable pub is_blank : String → Bool
is_blank String.[] = true
is_blank (String.◌∷◌ c s) = false

-- `text`, as the text itself
unfoldable pub text_of : Python → Value → Raises String
unfolding is_blank
text_of p (str s) = do
  raise_if (is_blank (p.strip s)) (value_error "must not be blank")
  ok (p.strip s)
text_of p v = err (type_error "must be a string")

unfoldable pub text : Python → Normalizer
text p v = do s ← text_of p v; ok (str s)

unfoldable pub upper_text : Python → Normalizer
upper_text p v = do s ← text_of p v; ok (str (p.upper s))

-- `math.isfinite`
unfoldable pub is_finite : Float → Bool
is_finite (finite z) = true
is_finite _ = false

-- `isinstance(value, bool)`
unfoldable pub is_bool : Value → Bool
is_bool (bool b) = true
is_bool _ = false

unfoldable pub finite_float : Python → Normalizer
unfolding is_finite is_bool
finite_float p v = do
  raise_if (is_bool v) (type_error "must be numeric")
  f ← p.float_of v
  raise_if (not (is_finite f)) (value_error "must be finite")
  ok (float f)

-- `f == n` for a float and an integer
unfoldable pub is_number : ℤ → Float → Bool
is_number n (finite z) = eqb_ℤ z (scaled n)
is_number n _ = false

unfoldable pub integer : Python → Normalizer
unfolding is_number is_bool
integer p v = do
  raise_if (is_bool v) (type_error "must be an integer")
  n ← p.int_of v
  f ← p.float_of v
  raise_if (not (is_number n f)) (value_error "must be a whole number")
  ok (int n)

unfoldable pub iso_date : Python → Normalizer
iso_date p (datetime t) = ok (date (day_of t))
iso_date p (date d) = ok (date d)
iso_date p (str s) = do d ← p.date_of (p.strip s); ok (date d)
iso_date p v = err (type_error "must be an ISO date")

-- The text of a timestamp is parsed first.
unfoldable pub parse_time : Python → Value → Raises Value
parse_time p (str s) = do t ← p.time_of (p.replace_z (p.strip s)); ok (datetime t)
parse_time p v = ok v

unfoldable pub in_utc : Value → Raises Value
in_utc (datetime (naive t)) = err (value_error "timestamp must include a UTC offset")
in_utc (datetime (aware t o)) = astimezone (aware t o) >>= (λ u. ok (datetime u))
in_utc v = err (type_error "must be an ISO timestamp")

unfoldable pub utc_datetime : Python → Normalizer
unfolding parse_time in_utc
utc_datetime p v = parse_time p v >>= in_utc

-- `url` of ingestion/contracts/news.py
pub url : Python → Normalizer
unfolding is_blank
url p v = do
  s ← text_of p v
  (scheme, netloc) ← p.urlparse s
  raise_if (not (contains String_discrete scheme ("http" ∷ "https" ∷ [])) || is_blank netloc)
      (value_error "must be an absolute HTTP(S) URL")
  ok (str s)
