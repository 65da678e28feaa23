-- ===== src/Ingestion/Compaction/Rows/Winners.antt =====
-- The rows that a compaction keeps (the window query of ingestion/compaction.py).
use marketforge.Prelude.{◌≡◌, inl, inr, List, [], some, ok, In, Distinct}
use marketforge.Prelude.Dict.{lookup, keys}
use marketforge.Ingestion.Values.{Value, Row}
use marketforge.Ingestion.Contracts.{Contract, pick, Value_list_discrete}
use marketforge.Ingestion.Compaction.Rows.{Sql, first_ranked}
use marketforge.Ingestion.Compaction.Rows.Orders.{IsOrdered, IsNewest, not_precedes}
use marketforge.Ingestion.Compaction.Rows.Leading.{
  Leading, Leading-nil, Leading-same, first_ranked-from,
}

module _ (q : Sql) (c : Contract) where
  -- One entry for each idempotency key of the rows: the newest of the rows with the key.
  pub record Ranked (rows : List Row) (ranked : List (List Value × Row)) : Type 0 where
    pub distinct : Distinct (keys ranked)
    pub sound :
        (k : List Value) (row : Row)
        → lookup Value_list_discrete k ranked ≡ some row
        → In row rows
          × (pick c.idempotency_by row ≡ ok k)
          × ((x : Row) → In x rows → pick c.idempotency_by x ≡ ok k → IsNewest q row x)
    pub complete :
        (x : Row)
        → In x rows
        → (k : List Value) × (pick c.idempotency_by x ≡ ok k)
          × ((row : Row) × (lookup Value_list_discrete k ranked ≡ some row))

  first_ranked-Leading :
      (rows : List Row) (ranked : List (List Value × Row))
      → IsOrdered q
      → first_ranked q c rows [] ≡ ok ranked
      → Leading q c (λ x. In x rows) ranked
  first_ranked-Leading rows ranked ordered e =
      Leading-same q c _ (λ x. In x rows) ranked (λ x d. elim d [ inl b ↦ absurd b | inr m ↦ m ])
        (λ x m. inr m) (first_ranked-from q c (λ x. ⊥) rows [] ranked ordered (Leading-nil q c) e)

  -- When DuckDB orders the values of a column, the window query gives exactly one row for each
  -- idempotency key of the contract among the partition's rows. It is one of the rows with the key; no
  -- other one of them has a later `ingested_at`, and none with no earlier `ingested_at` has a greater
  -- `source_record_id`.
  pub first_ranked-Ranked :
      (rows : List Row) (ranked : List (List Value × Row))
      → IsOrdered q
      → first_ranked q c rows [] ≡ ok ranked
      → Ranked rows ranked
  first_ranked-Ranked rows ranked ordered e =
      let h = first_ranked-Leading rows ranked ordered e in
      record {
        distinct = h.distinct;
        sound = λ k row at.
            let (d, has, least) = h.sound k row at in
            (d, has, λ x m same. not_precedes q x row ordered (least x m same));
        complete = h.complete;
      }
