-- ===== src/Ingestion/Loaders/Dedup/Fresh.antt =====
-- The rows that `deduplicate_rows` calls new, and reading them back (ingestion/loaders/backfill.py).
use marketforge.Prelude.{
  suc, ◌+◌, ◌≡◌, refl, ap, ◌∙◌, if_neg, subst, inl, inr, List, [], ◌∷◌, none, ok, length,
  length-append, arith, All, In, Distinct,
}
use marketforge.Prelude.Dict.{lookup-none, lookup-insert, insert_fresh}
use marketforge.Ingestion.Values.{Value, Row}
use marketforge.Ingestion.Contracts.{Contract, Value_list_discrete}
use marketforge.Ingestion.Loaders.Dedup.{
  Existing, Deduplicated, deduplicate_rows, read_rows, find, note,
}
use marketforge.Ingestion.Loaders.Dedup.Turns.{
  fresh, duplicate, Keyed, deduplicate_rows-nil, deduplicate_rows-Turn, read_rows-new,
  verdict_of_none,
}

-- The keys of the rows, in order.
abbrev pub HasKeys : Contract → List Row → List (List Value) → Type 0
HasKeys c [] [] = Unit
HasKeys c (row ∷ rows) (key ∷ ks) =
    ((values : List Value) × Keyed c row key values) × HasKeys c rows ks
HasKeys c _ _ = ⊥

-- The keys are pairwise distinct, and none is known.
pub record Unknown (ex : Existing) (ks : List (List Value)) : Type 0 where
  pub distinct : Distinct ks
  pub unknown : All (λ k. find k ex ≡ none) ks

none_before :
    (key values k : List Value) (ex : Existing)
    → find k (note key values ex) ≡ none
    → (find k ex ≡ none) × (¬ (key ≡ k))
none_before key values k ex h = ground (arith, lookup-insert Value_list_discrete key k values ex)

unknown_later :
    (key values : List Value) (ex : Existing) (ks : List (List Value))
    → find key ex ≡ none
    → All (λ k. find k (note key values ex) ≡ none) ks
    → All (λ k. find k ex ≡ none) ks × (¬ In key ks)
unknown_later key values ex [] e h = (tt, λ m. m)
unknown_later key values ex (k ∷ ks) e h =
    let (first, differs) = none_before key values k ex h.0 in
    let (rest, alone) = unknown_later key values ex ks e h.1 in
    ((first, rest), λ m. elim m [ inl p ↦ differs p | inr later ↦ alone later ])

-- Where `deduplicate_rows` raises nothing, the new rows have distinct keys, and none of these was
-- known before.
pub deduplicate_rows-Unknown :
    (c : Contract) (rows : List Row) (ex : Existing) (d : Deduplicated)
    → deduplicate_rows c rows ex ≡ ok d
    → (ks : List (List Value)) × HasKeys c d.new_rows ks × Unknown ex ks
deduplicate_rows-Unknown c [] ex d h =
    subst (λ (x : Deduplicated). (ks : List (List Value)) × HasKeys c x.new_rows ks × Unknown ex ks)
      (deduplicate_rows-nil c ex d h) ([], tt, record { distinct = tt; unknown = tt })
deduplicate_rows-Unknown c (row ∷ rows) ex d h = elim (deduplicate_rows-Turn c row rows ex d h) [
  | fresh key values rest k missing r built ↦
      let (ks, has, u) = deduplicate_rows-Unknown c rows (note key values ex) rest r in
      let (before, alone) = unknown_later key values ex ks missing u.unknown in
      subst
        (λ (x : Deduplicated). (ks : List (List Value)) × HasKeys c x.new_rows ks × Unknown ex ks)
        built
        (
          key ∷ ks,
          ((values, k), has),
          record { distinct = (alone, u.distinct); unknown = (missing, before) },
        )
  | duplicate key values rest k found r built ↦
      subst
        (λ (x : Deduplicated). (ks : List (List Value)) × HasKeys c x.new_rows ks × Unknown ex ks)
        built (deduplicate_rows-Unknown c rows ex rest r)
]

unknown_after :
    (key values : List Value) (ex : Existing) (ks : List (List Value))
    → ¬ In key ks
    → All (λ k. find k ex ≡ none) ks
    → All (λ k. find k (note key values ex) ≡ none) ks
unknown_after key values ex [] n h = tt
unknown_after key values ex (k ∷ ks) n h = (
  lookup-insert Value_list_discrete key k values ex
      ∙ if_neg (Value_list_discrete key k) (λ p. n (inl p)) _ _
      ∙ h.0,
  unknown_after key values ex ks (λ m. n (inr m)) h.1,
)

length-note :
    (key values : List Value) (ex : Existing)
    → find key ex ≡ none
    → length (note key values ex) ≡ suc (length ex)
length-note key values ex e =
    ap length
      (insert_fresh Value_list_discrete key values ex (lookup-none Value_list_discrete key ex e))
    ∙ length-append ex ((key, values) ∷ [])
    ∙ omega arith

-- Rows with distinct keys, none of them known, are read back without a conflict, and each adds
-- one key.
pub read_rows-length :
    (c : Contract) (rows : List Row) (ks : List (List Value)) (ex : Existing)
    → HasKeys c rows ks
    → Unknown ex ks
    → (ex' : Existing) × (read_rows c rows ex ≡ ok ex') × (length ex' ≡ length ex + length rows)
unfolding read_rows
read_rows-length c [] [] ex has u = (ex, refl, omega arith)
read_rows-length c (row ∷ rows) (key ∷ ks) ex has u =
    let (values, k) = has.0 in
    let (ex', e, n) = read_rows-length c rows ks (note key values ex) has.1 (record {
      distinct = u.distinct.1;
      unknown = unknown_after key values ex ks u.distinct.0 u.unknown.1;
    }) in
    (
      ex',
      read_rows-new c row rows ex key values k (verdict_of_none key values ex u.unknown.0) ∙ e,
      omega (arith, length-note key values ex u.unknown.0),
    )
read_rows-length c [] (key ∷ ks) ex has u = absurd has
read_rows-length c (row ∷ rows) [] ex has u = absurd has
