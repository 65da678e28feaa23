-- ===== src/Ingestion/Contracts/Accounting.antt =====
-- The accepted and the quarantined records of a batch (`validate` of ingestion/contracts/base.py).
use marketforge.Prelude.{
  ◌≡◌, refl, ◌≢◌, suc, ◌+◌, inl, inr, List, [], ◌∷◌, ok, length, arith, In, All,
}
use marketforge.Ingestion.Values.{Value, Row, to_utc}
use marketforge.Ingestion.Contracts.{
  Contract, Batch, Message, QuarantineRecord, ValidationResult, file_row, validate_rows, validate,
}
use marketforge.Ingestion.Contracts.Steps.{validate_rows-nil, validate_rows-Turn}

length-file_row :
    (b : Batch) (raw row : Row) (es : List Message) (v : ValidationResult)
    → length (file_row b raw row es v).accepted + length (file_row b raw row es v).rejected
      ≡ suc (length v.accepted + length v.rejected)
unfolding file_row
length-file_row b raw row [] v = omega arith
length-file_row b raw row (e ∷ es) v = omega arith

length-validate_rows :
    (c : Contract) (b : Batch) (seen : List (List Value)) (raws : List Row) (v : ValidationResult)
    → validate_rows c b seen raws ≡ ok v
    → length v.accepted + length v.rejected ≡ length raws
unfolding validate_rows
length-validate_rows c b seen [] v h = ground arith
length-validate_rows c b seen (raw ∷ raws) v h =
    let t = validate_rows-Turn c b seen raw raws v h in
    rw (← t.filed) (
      omega (
        arith,
        length-file_row b raw t.row t.errors t.rest,
        length-validate_rows c b t.seen_after raws t.rest t.others,
      ))

-- A validation that raises nothing has validated the rows, from no key seen.
pub validate-rows :
    (c : Contract) (b : Batch) (records : List Row) (v : ValidationResult)
    → validate c b records ≡ ok v
    → validate_rows c b [] records ≡ ok v
unfolding validate
validate-rows c b records v h = ground arith

-- Where `validate` raises nothing, the accepted rows and the quarantined records together are as
-- many as the records of the batch.
pub validate_accounting :
    (c : Contract) (b : Batch) (records : List Row) (v : ValidationResult)
    → validate c b records ≡ ok v
    → length v.accepted + length v.rejected ≡ length records
validate_accounting c b records v h =
    length-validate_rows c b [] records v (validate-rows c b records v h)

-- What a quarantine record keeps of its record and its batch.
pub record IsTraced (b : Batch) (raws : List Row) (q : QuarantineRecord) : Type 0 where
  pub payload : In q.raw_payload raws
  pub reasons : q.errors ≢ []
  pub source : q.source ≡ b.source
  pub run : q.ingestion_run_id ≡ b.ingestion_run_id
  pub received : q.received_at ≡ to_utc b.received_at

IsTraced-weaken :
    (b : Batch) (raw : Row) (raws : List Row) (qs : List QuarantineRecord)
    → All (IsTraced b raws) qs
    → All (IsTraced b (raw ∷ raws)) qs
IsTraced-weaken b raw raws [] h = tt
IsTraced-weaken b raw raws (q ∷ qs) h = (
  record {
    payload = inr h.0.payload;
    reasons = h.0.reasons;
    source = h.0.source;
    run = h.0.run;
    received = h.0.received;
  },
  IsTraced-weaken b raw raws qs h.1,
)

IsTraced-file_row :
    (b : Batch) (raw row : Row) (raws : List Row) (es : List Message) (v : ValidationResult)
    → All (IsTraced b raws) v.rejected
    → All (IsTraced b (raw ∷ raws)) (file_row b raw row es v).rejected
unfolding file_row
IsTraced-file_row b raw row raws [] v h = IsTraced-weaken b raw raws v.rejected h
IsTraced-file_row b raw row raws (e ∷ es) v h = (
  record { payload = inl refl; reasons = λ p. cc; source = refl; run = refl; received = refl },
  IsTraced-weaken b raw raws v.rejected h,
)

rows-IsTraced :
    (c : Contract) (b : Batch) (seen : List (List Value)) (raws : List Row) (v : ValidationResult)
    → validate_rows c b seen raws ≡ ok v
    → All (IsTraced b raws) v.rejected
unfolding validate_rows
rows-IsTraced c b seen [] v h = rw (← validate_rows-nil c b seen v h) tt
rows-IsTraced c b seen (raw ∷ raws) v h =
    let t = validate_rows-Turn c b seen raw raws v h in
    rw (← t.filed) (
      IsTraced-file_row b raw t.row raws t.errors t.rest
        (rows-IsTraced c b t.seen_after raws t.rest t.others))

-- Every record that `validate` quarantines holds, unchanged, one of the records of the batch, at
-- least one reason, the batch's source and run, and the time of receipt in UTC.
pub validate-IsTraced :
    (c : Contract) (b : Batch) (records : List Row) (v : ValidationResult)
    → validate c b records ≡ ok v
    → All (IsTraced b records) v.rejected
validate-IsTraced c b records v h = rows-IsTraced c b [] records v (validate-rows c b records v h)
