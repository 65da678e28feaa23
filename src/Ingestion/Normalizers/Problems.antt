-- ===== src/Ingestion/Normalizers/Problems.antt =====
-- What the normalisers of ingestion/contracts/base.py raise.
use marketforge.Prelude.{
  ◌≡◌, inl, inr, Bool-cases, refl, true, false, Bool, not, String, ok, err, raise_if, ◌>>=◌,
}
use marketforge.Ingestion.Values.{
  Value, null, bool, int, float, str, date, datetime, other, naive, aware, astimezone, in_range,
  Exception, is_value_problem, type_error, value_error, Raises,
}
use marketforge.Ingestion.Normalizers.{
  Python, text_of, text, upper_text, is_finite, is_bool, is_number, finite_float, integer, iso_date,
  parse_time, in_utc, utc_datetime, url, is_blank,
}

-- What is raised, if anything, is a TypeError, a ValueError or an OverflowError.
pub record RaisesProblems {A : Type 0} (m : Raises A) : Type 0 where
  pub problem : (e : Exception) → m ≡ err e → is_value_problem e ≡ true

-- What Python documents of its parsers.
pub record IsPython (p : Python) : Type 0 where
  pub float_of : (v : Value) → RaisesProblems (p.float_of v)
  pub int_of : (v : Value) → RaisesProblems (p.int_of v)
  pub date_of : (s : String) → RaisesProblems (p.date_of s)
  pub time_of : (s : String) → RaisesProblems (p.time_of s)
  pub urlparse : (s : String) → RaisesProblems (p.urlparse s)

ok-RaisesProblems : {A : Type 0} (a : A) → RaisesProblems (ok a)
ok-RaisesProblems a = record { problem = λ e h. cc }

err-RaisesProblems :
    {A : Type 0} (x : Exception) → is_value_problem x ≡ true → RaisesProblems {A = A} (err x)
err-RaisesProblems x t = record { problem = λ e h. cc (h, t) }

>>=-RaisesProblems :
    {A B : Type 0} (m : Raises A) (f : A → Raises B)
    → RaisesProblems m
    → ((a : A) → RaisesProblems (f a))
    → RaisesProblems (m >>= f)
>>=-RaisesProblems (ok a) f h k = k a
>>=-RaisesProblems (err x) f h k = record { problem = λ e q. h.problem e (cc q) }

raise_if-RaisesProblems :
    (b : Bool) (x : Exception) → is_value_problem x ≡ true → RaisesProblems (raise_if b x)
raise_if-RaisesProblems true x t = err-RaisesProblems x t
raise_if-RaisesProblems false x t = ok-RaisesProblems tt

module _ (p : Python) (h : IsPython p) where
  text_of-RaisesProblems : (v : Value) → RaisesProblems (text_of p v)
  unfolding text_of
  text_of-RaisesProblems (str s) =
      >>=-RaisesProblems (raise_if (is_blank (p.strip s)) (value_error "must not be blank")) _
        (raise_if-RaisesProblems _ _ refl) (λ _. ok-RaisesProblems _)
  text_of-RaisesProblems null = err-RaisesProblems _ refl
  text_of-RaisesProblems (bool b) = err-RaisesProblems _ refl
  text_of-RaisesProblems (int n) = err-RaisesProblems _ refl
  text_of-RaisesProblems (float f) = err-RaisesProblems _ refl
  text_of-RaisesProblems (date d) = err-RaisesProblems _ refl
  text_of-RaisesProblems (datetime t) = err-RaisesProblems _ refl
  text_of-RaisesProblems (other n) = err-RaisesProblems _ refl

  pub text-RaisesProblems : (v : Value) → RaisesProblems (text p v)
  unfolding text
  text-RaisesProblems v =
      >>=-RaisesProblems (text_of p v) _ (text_of-RaisesProblems v) (λ s. ok-RaisesProblems _)

  pub upper_text-RaisesProblems : (v : Value) → RaisesProblems (upper_text p v)
  unfolding upper_text
  upper_text-RaisesProblems v =
      >>=-RaisesProblems (text_of p v) _ (text_of-RaisesProblems v) (λ s. ok-RaisesProblems _)

  pub finite_float-RaisesProblems : (v : Value) → RaisesProblems (finite_float p v)
  unfolding finite_float
  finite_float-RaisesProblems v =
      >>=-RaisesProblems (raise_if (is_bool v) (type_error "must be numeric")) _
        (raise_if-RaisesProblems _ _ refl)
        λ _. >>=-RaisesProblems (p.float_of v) _ (h.float_of v) λ f.
          >>=-RaisesProblems (raise_if (not (is_finite f)) (value_error "must be finite")) _
            (raise_if-RaisesProblems _ _ refl) λ _. ok-RaisesProblems _

  pub integer-RaisesProblems : (v : Value) → RaisesProblems (integer p v)
  unfolding integer
  integer-RaisesProblems v =
      >>=-RaisesProblems (raise_if (is_bool v) (type_error "must be an integer")) _
        (raise_if-RaisesProblems _ _ refl)
        λ _. >>=-RaisesProblems (p.int_of v) _ (h.int_of v) λ n.
          >>=-RaisesProblems (p.float_of v) _ (h.float_of v) λ f.
            >>=-RaisesProblems
              (raise_if (not (is_number n f)) (value_error "must be a whole number")) _
              (raise_if-RaisesProblems _ _ refl) λ _. ok-RaisesProblems _

  pub iso_date-RaisesProblems : (v : Value) → RaisesProblems (iso_date p v)
  unfolding iso_date
  iso_date-RaisesProblems (datetime t) = ok-RaisesProblems _
  iso_date-RaisesProblems (date d) = ok-RaisesProblems _
  iso_date-RaisesProblems (str s) =
      >>=-RaisesProblems (p.date_of (p.strip s)) _ (h.date_of _) (λ d. ok-RaisesProblems _)
  iso_date-RaisesProblems null = err-RaisesProblems _ refl
  iso_date-RaisesProblems (bool b) = err-RaisesProblems _ refl
  iso_date-RaisesProblems (int n) = err-RaisesProblems _ refl
  iso_date-RaisesProblems (float f) = err-RaisesProblems _ refl
  iso_date-RaisesProblems (other n) = err-RaisesProblems _ refl

  parse_time-RaisesProblems : (v : Value) → RaisesProblems (parse_time p v)
  unfolding parse_time
  parse_time-RaisesProblems (str s) =
      >>=-RaisesProblems (p.time_of (p.replace_z (p.strip s))) _ (h.time_of _)
        (λ t. ok-RaisesProblems _)
  parse_time-RaisesProblems (datetime t) = ok-RaisesProblems _
  parse_time-RaisesProblems (date d) = ok-RaisesProblems _
  parse_time-RaisesProblems null = ok-RaisesProblems _
  parse_time-RaisesProblems (bool b) = ok-RaisesProblems _
  parse_time-RaisesProblems (int n) = ok-RaisesProblems _
  parse_time-RaisesProblems (float f) = ok-RaisesProblems _
  parse_time-RaisesProblems (other n) = ok-RaisesProblems _

  in_utc-RaisesProblems : (v : Value) → RaisesProblems (in_utc v)
  unfolding in_utc astimezone
  in_utc-RaisesProblems (datetime (naive t)) = err-RaisesProblems _ refl
  in_utc-RaisesProblems (datetime (aware t o)) = elim (Bool-cases (in_range t)) [
    | inl fine ↦ rw fine (ok-RaisesProblems _)
    | inr far ↦ rw far (err-RaisesProblems _ refl)
  ]
  in_utc-RaisesProblems (str s) = err-RaisesProblems _ refl
  in_utc-RaisesProblems (date d) = err-RaisesProblems _ refl
  in_utc-RaisesProblems null = err-RaisesProblems _ refl
  in_utc-RaisesProblems (bool b) = err-RaisesProblems _ refl
  in_utc-RaisesProblems (int n) = err-RaisesProblems _ refl
  in_utc-RaisesProblems (float f) = err-RaisesProblems _ refl
  in_utc-RaisesProblems (other n) = err-RaisesProblems _ refl

  pub utc_datetime-RaisesProblems : (v : Value) → RaisesProblems (utc_datetime p v)
  unfolding utc_datetime
  utc_datetime-RaisesProblems v =
      >>=-RaisesProblems (parse_time p v) _ (parse_time-RaisesProblems v) in_utc-RaisesProblems

  pub url-RaisesProblems : (v : Value) → RaisesProblems (url p v)
  unfolding url
  url-RaisesProblems v = >>=-RaisesProblems (text_of p v) _ (text_of-RaisesProblems v) λ s.
      >>=-RaisesProblems (p.urlparse s) _ (h.urlparse s) λ parts.
        >>=-RaisesProblems (raise_if _ (value_error "must be an absolute HTTP(S) URL")) _
          (raise_if-RaisesProblems _ _ refl) λ _. ok-RaisesProblems _
