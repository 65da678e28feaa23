-- ===== src/Ingestion/Contracts/Total.antt =====
-- When `validate` (ingestion/contracts/base.py) raises.
use marketforge.Prelude.{
  ◌≡◌, ◌⊎◌, refl, ap, ◌≢◌, inl, inr, Bool, true, false, ◌>>◌, String, List, [], ◌∷◌, ok, err, ◌>>=◌,
}
use marketforge.Ingestion.Values.{
  Value, Row, Raises, Datetime, naive, aware, to_utc, astimezone, in_range, is_naive, value_error,
  overflow_error, missing_required_field,
}
use marketforge.Ingestion.Contracts.{
  Contract, stamp, file_row, Batch, Message, ValidationResult, validate_rows, validate,
  validate_row, is_empty, missing_from_batch,
}
use marketforge.Ingestion.Contracts.Returning.{IsSafe, Returns, Returns->>=, validate_row-Returns}

-- The time of receipt is a time in UTC too: its instant is in the years 1 to 9999.
abbrev pub fits_utc : Datetime → Bool
fits_utc (naive t) = true
fits_utc (aware t o) = in_range t

astimezone_fits : (t : Datetime) → fits_utc t ≡ true → astimezone t ≡ ok (to_utc t)
unfolding astimezone
astimezone_fits (naive t) h = refl
astimezone_fits (aware t o) h = rw h refl

astimezone_far :
    (t : Datetime)
    → is_naive t ≡ false
    → fits_utc t ≡ false
    → astimezone t ≡ err (overflow_error "date value out of range")
unfolding astimezone
astimezone_far (naive t) a h = absurd (cc h)
astimezone_far (aware t o) a h = rw h refl

stamp-fits : (b : Batch) (es : List Message) → fits_utc b.received_at ≡ true → Returns (stamp b es)
unfolding stamp
stamp-fits b [] h = tt
stamp-fits b (e ∷ es) h = rw (astimezone_fits b.received_at h) tt

validate_rows-Returns :
    (c : Contract) (b : Batch) (seen : List (List Value)) (raws : List Row)
    → IsSafe c
    → fits_utc b.received_at ≡ true
    → Returns (validate_rows c b seen raws)
unfolding validate_rows
validate_rows-Returns c b seen [] safe fits = tt
validate_rows-Returns c b seen (raw ∷ raws) safe fits =
    Returns->>= (validate_row c b.source seen raw) _ (validate_row-Returns c b.source seen raw safe)
      λ t _. Returns->>= (stamp b t.1) _ (stamp-fits b t.1 fits) λ u _.
        Returns->>= (validate_rows c b t.2 raws) _ (validate_rows-Returns c b t.2 raws safe fits)
          (λ rest _. tt)

value_of : {A : Type 0} (m : Raises A) → Returns m → (a : A) × (m ≡ ok a)
value_of (ok a) h = (a, refl)
value_of (err e) h = absurd h

is_empty-false : (xs : List String) → xs ≢ [] → is_empty xs ≡ false
is_empty-false [] h = absurd (h refl)
is_empty-false (x ∷ xs) h = refl

-- No record is rejected, or the time of receipt has no time in UTC.
abbrev Overflowing : Raises ValidationResult → Type 0
Overflowing (ok v) = v.rejected ≡ []
Overflowing (err e) = e ≡ overflow_error "date value out of range"

Overflowing-cases :
    (m : Raises ValidationResult)
    → Overflowing m
    → ((v : ValidationResult) × (m ≡ ok v) × (v.rejected ≡ []))
      ⊎ (m ≡ err (overflow_error "date value out of range"))
Overflowing-cases (ok v) h = inl (v, refl, h)
Overflowing-cases (err e) h = inr (ap err h)

filed-Overflowing :
    (b : Batch) (raw row : Row) (es : List Message) (m : Raises ValidationResult)
    → is_naive b.received_at ≡ false
    → fits_utc b.received_at ≡ false
    → Overflowing m
    → Overflowing (stamp b es >> (m >>= λ rest. ok (file_row b raw row es rest)))
unfolding stamp file_row astimezone
filed-Overflowing b raw row [] (ok v) a f h = h
filed-Overflowing b raw row [] (err e) a f h = h
filed-Overflowing b raw row (x ∷ es) m a f h = rw (astimezone_far b.received_at a f) refl

validate_rows-Overflowing :
    (c : Contract) (b : Batch) (seen : List (List Value)) (raws : List Row)
    → IsSafe c
    → is_naive b.received_at ≡ false
    → fits_utc b.received_at ≡ false
    → Overflowing (validate_rows c b seen raws)
unfolding validate_rows
validate_rows-Overflowing c b seen [] safe a f = refl
validate_rows-Overflowing c b seen (raw ∷ raws) safe a f =
    let (t, e) =
      value_of (validate_row c b.source seen raw) (validate_row-Returns c b.source seen raw safe) in
    rw (e, validate_rows)
      (filed-Overflowing b raw t.0 t.1 (validate_rows c b t.2 raws) a f
        (validate_rows-Overflowing c b t.2 raws safe a f))

-- For a contract whose normalisers raise value problems only and return hashable values, whose rules
-- raise nothing on a row of the contract and whose batch key is made of its columns, and for records
-- whose keys are texts: where the time of receipt has no UTC offset, `validate` raises ValueError;
-- otherwise, where the whole batch lacks columns of the contract, MissingRequiredFieldError with
-- these; otherwise, where the time of receipt is a time in UTC too, it returns a result, and where it
-- is none, it returns a result that rejects no record or raises OverflowError.
pub validate_outcomes :
    (c : Contract) (b : Batch) (records : List Row)
    → IsSafe c
    → (is_naive b.received_at ≡ true
        → validate c b records ≡ err (value_error "received_at must be timezone-aware"))
      × (is_naive b.received_at ≡ false
          → missing_from_batch c records ≢ []
          → validate c b records ≡ err (missing_required_field (missing_from_batch c records)))
      × (is_naive b.received_at ≡ false
          → missing_from_batch c records ≡ []
          → fits_utc b.received_at ≡ true
          → (v : ValidationResult) × (validate c b records ≡ ok v))
      × (is_naive b.received_at ≡ false
          → missing_from_batch c records ≡ []
          → fits_utc b.received_at ≡ false
          → ((v : ValidationResult) × (validate c b records ≡ ok v) × (v.rejected ≡ []))
            ⊎ (validate c b records ≡ err (overflow_error "date value out of range")))
unfolding validate
validate_outcomes c b records safe = (
  λ naive. rw naive,
  λ aware missing. rw (aware, is_empty-false (missing_from_batch c records) missing),
  λ aware given fits.
      let (v, e) =
        value_of (validate_rows c b [] records) (validate_rows-Returns c b [] records safe fits) in
      (v, rw (aware, given) e),
  λ aware given far.
      elim (Overflowing-cases (validate_rows c b [] records)
        (validate_rows-Overflowing c b [] records safe aware far)) [
          | inl (v, e, none_rejected) ↦ inl (v, rw (aware, given) e, none_rejected)
          | inr e ↦ inr (rw (aware, given) e)
        ],
)
