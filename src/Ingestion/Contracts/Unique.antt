-- ===== src/Ingestion/Contracts/Unique.antt =====
-- The batch key of a contract (`unique_by`, `seen` in `validate` of ingestion/contracts/base.py).
use marketforge.Prelude.{
  ◌≡◌, refl, subst, String, List, [], ◌∷◌, ok, In, All, Distinct, contains-false, unseen_before,
  not-In_of_unseen,
}
use marketforge.Ingestion.Values.{Value, Row}
use marketforge.Ingestion.Contracts.{
  Contract, Batch, Message, ValidationResult, file_row, validate_rows, validate, pick,
  Value_list_discrete,
}
use marketforge.Ingestion.Contracts.Steps.{
  validate_rows-nil, validate_rows-Turn, validate_row-cons, validate_row-Passed, Passed,
}
use marketforge.Ingestion.Contracts.Accounting.{validate-rows}

-- The keys of the rows, in their order.
abbrev pub Picks : List String → List Row → List (List Value) → Type 0
Picks names [] [] = Unit
Picks names (row ∷ rows) (k ∷ ks) = (pick names row ≡ ok k) × Picks names rows ks
Picks names _ _ = ⊥

pub record HasKeys (names : List String) (seen : List (List Value)) (rows : List Row) : Type 0 where
  pub keys : List (List Value)
  pub picked : Picks names rows keys
  pub distinct : Distinct keys
  pub unseen : All (λ k. ¬ In k seen) keys

HasKeys-file_row :
    (c : Contract) (b : Batch) (seen seen' : List (List Value)) (raw row : Row) (es : List Message)
    (v : ValidationResult)
    → ((es ≡ []) → Passed c b.source seen raw row seen')
    → ((e : Message) (more : List Message) → es ≡ e ∷ more → seen' ≡ seen)
    → HasKeys c.unique_by seen' v.accepted
    → HasKeys c.unique_by seen (file_row b raw row es v).accepted
unfolding file_row
HasKeys-file_row c b seen seen' raw row [] v passed failed h =
    let p = passed refl in
    let unseen = subst (λ s. All (λ k. ¬ In k s) h.keys) p.kept h.unseen in
    record {
      keys = p.key ∷ h.keys;
      picked = (p.picked, h.picked);
      distinct = (not-In_of_unseen p.key seen h.keys unseen, h.distinct);
      unseen = (
        contains-false Value_list_discrete p.key seen p.fresh,
        unseen_before p.key seen h.keys unseen,
      );
    }
HasKeys-file_row c b seen seen' raw row (e ∷ es) v passed failed h = record {
  keys = h.keys;
  picked = h.picked;
  distinct = h.distinct;
  unseen = subst (λ s. All (λ k. ¬ In k s) h.keys) (failed e es refl) h.unseen;
}

rows-HasKeys :
    (c : Contract) (b : Batch) (seen : List (List Value)) (raws : List Row) (v : ValidationResult)
    → validate_rows c b seen raws ≡ ok v
    → HasKeys c.unique_by seen v.accepted
rows-HasKeys c b seen [] v h =
    subst (λ (w : ValidationResult). HasKeys c.unique_by seen w.accepted)
      (validate_rows-nil c b seen v h)
      (record { keys = []; picked = tt; distinct = tt; unseen = tt })
rows-HasKeys c b seen (raw ∷ raws) v h =
    let t = validate_rows-Turn c b seen raw raws v h in
    subst (λ (w : ValidationResult). HasKeys c.unique_by seen w.accepted) t.filed
      (HasKeys-file_row c b seen t.seen_after raw t.row t.errors t.rest
        (λ e. validate_row-Passed c b.source seen t.seen_after raw t.row (cc (t.judged, e)))
        (λ e more p.
          validate_row-cons c b.source seen t.seen_after raw t.row e more (cc (t.judged, p)))
        (rows-HasKeys c b t.seen_after raws t.rest t.others))

-- The rows that `validate` accepts have each a key over the contract's `unique_by` columns, and no
-- two of these keys are equal.
pub validate-HasKeys :
    (c : Contract) (b : Batch) (records : List Row) (v : ValidationResult)
    → validate c b records ≡ ok v
    → HasKeys c.unique_by [] v.accepted
validate-HasKeys c b records v h = rows-HasKeys c b [] records v (validate-rows c b records v h)
