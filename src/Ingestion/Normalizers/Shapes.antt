-- ===== src/Ingestion/Normalizers/Shapes.antt =====
-- The values that the normalisers of ingestion/contracts/base.py return.
use marketforge.Prelude.{
  ℕ, ◌≡◌, refl, true, not, ◌||◌, raise_if, ok, arith, contains, String_discrete, [], ◌∷◌,
}
use marketforge.Prelude.Int.{ℤ, pos}
use marketforge.Ingestion.Values.{
  Float, finite, pos_inf, neg_inf, nan, Value, day_of, type_error, value_error, null, bool, int,
  float, str, date, datetime, other, naive, aware, astimezone, is_hashable,
}
use marketforge.Ingestion.Contracts.Steps.{>>=-eq-ok}
use marketforge.Ingestion.Normalizers.{
  Python, is_blank, text_of, text, upper_text, url, finite_float, integer, iso_date, utc_datetime,
  is_finite, is_bool, is_number, parse_time, in_utc,
}

finite_of : (f : Float) → is_finite f ≡ true → (z : ℤ) × (f ≡ finite z)
unfolding is_finite
finite_of (finite z) h = (z, refl)
finite_of pos_inf h = cc
finite_of neg_inf h = cc
finite_of nan h = cc

pub finite_float_finite :
    (p : Python) (v cell : Value) → finite_float p v ≡ ok cell → (z : ℤ) × (cell ≡ float (finite z))
unfolding finite_float
finite_float_finite p v cell h =
    let (_, _, h1) = >>=-eq-ok (raise_if (is_bool v) (type_error "must be numeric")) _ cell h in
    let (f, _, h2) = >>=-eq-ok (p.float_of v) _ cell h1 in
    let (_, tested, h3) =
      >>=-eq-ok (raise_if (not (is_finite f)) (value_error "must be finite")) _ cell h2 in
    let (z, e) = finite_of f (ground arith) in (z, cc (e, h3))

pub integer_int : (p : Python) (v cell : Value) → integer p v ≡ ok cell → (n : ℤ) × (cell ≡ int n)
unfolding integer
integer_int p v cell h =
    let (_, _, h1) = >>=-eq-ok (raise_if (is_bool v) (type_error "must be an integer")) _ cell h in
    let (n, _, h2) = >>=-eq-ok (p.int_of v) _ cell h1 in
    let (f, _, h3) = >>=-eq-ok (p.float_of v) _ cell h2 in
    let (_, _, h4) =
      >>=-eq-ok (raise_if (not (is_number n f)) (value_error "must be a whole number")) _ cell h3 in
    (n, cc h4)

pub iso_date_date :
    (p : Python) (v cell : Value) → iso_date p v ≡ ok cell → (d : ℕ) × (cell ≡ date d)
unfolding iso_date
iso_date_date p (datetime t) cell h = (day_of t, cc h)
iso_date_date p (date d) cell h = (d, cc h)
iso_date_date p (str s) cell h =
    let (d, _, e) = >>=-eq-ok (p.date_of (p.strip s)) _ cell h in (d, cc e)
iso_date_date p null cell h = cc
iso_date_date p (bool b) cell h = cc
iso_date_date p (int z) cell h = cc
iso_date_date p (float f) cell h = cc
iso_date_date p (other k) cell h = cc

in_utc_aware : (v cell : Value) → in_utc v ≡ ok cell → (t : ℤ) × (cell ≡ datetime (aware t (pos 0)))
unfolding in_utc astimezone
in_utc_aware (datetime (aware t o)) cell h = (t, ground arith)
in_utc_aware (datetime (naive t)) cell h = cc
in_utc_aware (date d) cell h = cc
in_utc_aware (str s) cell h = cc
in_utc_aware null cell h = cc
in_utc_aware (bool b) cell h = cc
in_utc_aware (int z) cell h = cc
in_utc_aware (float f) cell h = cc
in_utc_aware (other k) cell h = cc

pub utc_datetime_aware :
    (p : Python) (v cell : Value)
    → utc_datetime p v ≡ ok cell
    → (t : ℤ) × (cell ≡ datetime (aware t (pos 0)))
unfolding utc_datetime
utc_datetime_aware p v cell h =
    let (w, _, e) = >>=-eq-ok (parse_time p v) _ cell h in in_utc_aware w cell e

hashable_as : (cell w : Value) → is_hashable w ≡ true → cell ≡ w → is_hashable cell ≡ true
hashable_as cell w h e = rw e h

-- The values that the normalisers return are hashable.
pub text_hashable : (p : Python) (v cell : Value) → text p v ≡ ok cell → is_hashable cell ≡ true
unfolding text
text_hashable p v cell h =
    let (s, _, e) = >>=-eq-ok (text_of p v) _ cell h in hashable_as cell (str s) refl (cc e)

pub upper_text_hashable :
    (p : Python) (v cell : Value) → upper_text p v ≡ ok cell → is_hashable cell ≡ true
unfolding upper_text
upper_text_hashable p v cell h =
    let (s, _, e) = >>=-eq-ok (text_of p v) _ cell h in
    hashable_as cell (str (p.upper s)) refl (cc e)

pub url_hashable : (p : Python) (v cell : Value) → url p v ≡ ok cell → is_hashable cell ≡ true
unfolding url
url_hashable p v cell h =
    let (s, _, h1) = >>=-eq-ok (text_of p v) _ cell h in
    let (parts, _, h2) = >>=-eq-ok (p.urlparse s) _ cell h1 in
    let bad = not (contains String_discrete parts.0 ("http" ∷ "https" ∷ [])) || is_blank parts.1 in
    let (_, _, e) =
      >>=-eq-ok (raise_if bad (value_error "must be an absolute HTTP(S) URL")) _ cell h2 in
    hashable_as cell (str s) refl (cc e)

pub finite_float_hashable :
    (p : Python) (v cell : Value) → finite_float p v ≡ ok cell → is_hashable cell ≡ true
finite_float_hashable p v cell h =
    let (z, e) = finite_float_finite p v cell h in hashable_as cell _ refl e

pub integer_hashable :
    (p : Python) (v cell : Value) → integer p v ≡ ok cell → is_hashable cell ≡ true
integer_hashable p v cell h = let (n, e) = integer_int p v cell h in hashable_as cell _ refl e

pub iso_date_hashable :
    (p : Python) (v cell : Value) → iso_date p v ≡ ok cell → is_hashable cell ≡ true
iso_date_hashable p v cell h = let (d, e) = iso_date_date p v cell h in hashable_as cell _ refl e

pub utc_datetime_hashable :
    (p : Python) (v cell : Value) → utc_datetime p v ≡ ok cell → is_hashable cell ≡ true
utc_datetime_hashable p v cell h =
    let (t, e) = utc_datetime_aware p v cell h in hashable_as cell _ refl e
