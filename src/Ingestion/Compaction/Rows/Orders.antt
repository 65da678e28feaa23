-- ===== src/Ingestion/Compaction/Rows/Orders.antt =====
-- The order of the window query of ingestion/compaction.py.
use marketforge.Prelude.{◌≡◌, ◌⊎◌, inl, inr, refl, true, false, Bool-cases, arith}
use marketforge.Ingestion.Values.{Value, Row}
use marketforge.Ingestion.Compaction.Rows.{Sql, cell, precedes}

module _ (q : Sql) where
  -- The order of the values of a column: irreflexive and transitive, and so is the relation of values
  -- that are not below each other.
  pub record IsOrdered : Type 0 where
    pub irreflexive : (v : Value) → q.less v v ≡ false
    pub transitive : (u v w : Value) → q.less u v ≡ true → q.less v w ≡ true → q.less u w ≡ true
    pub level : (u v w : Value) → q.less u v ≡ false → q.less v w ≡ false → q.less u w ≡ false

  -- `row` is not older than `x`, and where it is not newer its `source_record_id` is not the lesser.
  abbrev pub IsNewest : Row → Row → Type 0
  IsNewest row x =
      (q.less (cell "ingested_at" row) (cell "ingested_at" x) ≡ false)
      × ((q.less (cell "ingested_at" x) (cell "ingested_at" row) ≡ true)
          ⊎ (q.less (cell "source_record_id" row) (cell "source_record_id" x) ≡ false))

  pub precedes-irreflexive : (x : Row) → IsOrdered → precedes q x x ≡ false
  unfolding precedes
  precedes-irreflexive x h =
      rw (h.irreflexive (cell "ingested_at" x), h.irreflexive (cell "source_record_id" x)) refl

  pub not_precedes : (x row : Row) → IsOrdered → precedes q x row ≡ false → IsNewest row x
  unfolding precedes
  not_precedes x row h e =
      let at_x = cell "ingested_at" x in
      let at_row = cell "ingested_at" row in
      let id_x = cell "source_record_id" x in
      let id_row = cell "source_record_id" row in
      elim (Bool-cases (q.less at_row at_x)) [
        | inl newer ↦ absurd (ground (arith, newer, e))
        | inr not_newer ↦ elim (Bool-cases (q.less at_x at_row)) [
          | inl older ↦ (not_newer, inl older)
          | inr level ↦ (not_newer, inr ground (arith, not_newer, level, e))
        ]
      ]

  pub precedes-transitive :
      (x y z : Row)
      → IsOrdered
      → precedes q x y ≡ true
      → precedes q y z ≡ true
      → precedes q x z ≡ true
  unfolding precedes
  precedes-transitive x y z h e f =
      let at_x = cell "ingested_at" x in
      let at_y = cell "ingested_at" y in
      let at_z = cell "ingested_at" z in
      ground (
        arith,
        h.transitive at_z at_y at_x,
        h.level at_y at_z at_x,
        h.level at_z at_x at_y,
        h.level at_x at_y at_z,
        h.transitive (cell "source_record_id" z) (cell "source_record_id" y)
            (cell "source_record_id" x),
      )
