-- ===== src/Ingestion/Loaders/Dedup/Turns.antt =====
-- One turn of `deduplicate_rows` and of the reading loop (ingestion/loaders/backfill.py).
use marketforge.Prelude.{
  ◌≡◌, refl, sym, ◌∙◌, ◌⊎◌, inl, inr, none, some, List, [], ◌∷◌, ok, err, ◌>>=◌, arith,
}
use marketforge.Ingestion.Values.{Value, Row, idempotency_conflict}
use marketforge.Ingestion.Contracts.{Contract, pick}
use marketforge.Ingestion.Contracts.Steps.{>>=-eq-ok}
use marketforge.Ingestion.Loaders.Dedup.{
  Existing, Deduplicated, deduplicate_rows, read_rows, value_fields, find, note, Verdict, new, same,
  conflict, verdict, add_new, add_duplicate,
}

-- The key and the canonical values of a row.
pub record Keyed (c : Contract) (row : Row) (key values : List Value) : Type 0 where
  pub key_of : pick c.idempotency_by row ≡ ok key
  pub values_of : pick (value_fields c) row ≡ ok values

-- The two outcomes of one turn of `deduplicate_rows` that raise nothing.
pub data Turn (c : Contract) (row : Row) (rows : List Row) (ex : Existing) (d : Deduplicated)
    : Type 0 where
  fresh :
      (key values : List Value) (rest : Deduplicated)
      → Keyed c row key values
      → find key ex ≡ none
      → deduplicate_rows c rows (note key values ex) ≡ ok rest
      → add_new row rest ≡ d
      → Turn c row rows ex d
  duplicate :
      (key values : List Value) (rest : Deduplicated)
      → Keyed c row key values
      → find key ex ≡ some values
      → deduplicate_rows c rows ex ≡ ok rest
      → add_duplicate rest ≡ d
      → Turn c row rows ex d

verdict-new :
    (key values : List Value) (ex : Existing) → verdict key values ex ≡ new → find key ex ≡ none
unfolding verdict
verdict-new key values ex h = ground arith

verdict-same :
    (key values : List Value) (ex : Existing)
    → verdict key values ex ≡ same
    → find key ex ≡ some values
unfolding verdict
verdict-same key values ex h = ground arith

pub verdict_of_none :
    (key values : List Value) (ex : Existing) → find key ex ≡ none → verdict key values ex ≡ new
unfolding verdict
verdict_of_none key values ex h = ground arith

pub verdict_of_same :
    (key values : List Value) (ex : Existing)
    → find key ex ≡ some values
    → verdict key values ex ≡ same
unfolding verdict
verdict_of_same key values ex h = ground arith

module _ (c : Contract) (row : Row) (rows : List Row) (ex : Existing) (key values : List Value)
    (k : Keyed c row key values) where
  pub deduplicate_rows-new :
      verdict key values ex ≡ new
      → deduplicate_rows c (row ∷ rows) ex
        ≡ (deduplicate_rows c rows (note key values ex) >>= λ rest. ok (add_new row rest))
  unfolding deduplicate_rows
  deduplicate_rows-new e = ground arith

  pub deduplicate_rows-same :
      verdict key values ex ≡ same
      → deduplicate_rows c (row ∷ rows) ex
        ≡ (deduplicate_rows c rows ex >>= λ rest. ok (add_duplicate rest))
  unfolding deduplicate_rows
  deduplicate_rows-same e = ground arith

  deduplicate_rows-conflict :
      verdict key values ex ≡ conflict
      → deduplicate_rows c (row ∷ rows) ex ≡ err (idempotency_conflict key)
  unfolding deduplicate_rows
  deduplicate_rows-conflict e = ground arith

  pub read_rows-new :
      verdict key values ex ≡ new
      → read_rows c (row ∷ rows) ex ≡ read_rows c rows (note key values ex)
  unfolding read_rows
  read_rows-new e = ground arith

pub deduplicate_rows-nil :
    (c : Contract) (ex : Existing) (d : Deduplicated)
    → deduplicate_rows c [] ex ≡ ok d
    → record { new_rows = []; duplicate_rows = 0; existing = ex } ≡ d
unfolding deduplicate_rows
deduplicate_rows-nil c ex d h = cc

Verdict-cases : (v : Verdict) → (v ≡ new) ⊎ ((v ≡ same) ⊎ (v ≡ conflict))
Verdict-cases new = inl refl
Verdict-cases same = inr (inl refl)
Verdict-cases conflict = inr (inr refl)

pub deduplicate_rows-Turn :
    (c : Contract) (row : Row) (rows : List Row) (ex : Existing) (d : Deduplicated)
    → deduplicate_rows c (row ∷ rows) ex ≡ ok d
    → Turn c row rows ex d
unfolding deduplicate_rows
deduplicate_rows-Turn c row rows ex d h =
    let (key, p, h₁) = >>=-eq-ok (pick c.idempotency_by row) _ d h in
    let (values, q, h₂) = >>=-eq-ok (pick (value_fields c) row) _ d h₁ in
    let k : Keyed c row key values = record { key_of = p; values_of = q } in
    elim (Verdict-cases (verdict key values ex)) [
      | inl e ↦
          let (rest, r, built) =
            >>=-eq-ok (deduplicate_rows c rows (note key values ex)) _ d
              (sym (deduplicate_rows-new c row rows ex key values k e) ∙ h) in
          fresh key values rest k (verdict-new key values ex e) r (cc built)
      | inr (inl e) ↦
          let (rest, r, built) =
            >>=-eq-ok (deduplicate_rows c rows ex) _ d
              (sym (deduplicate_rows-same c row rows ex key values k e) ∙ h) in
          duplicate key values rest k (verdict-same key values ex e) r (cc built)
      | inr (inr e) ↦ absurd (cc (deduplicate_rows-conflict c row rows ex key values k e, h))
    ]
