-- ===== src/Ingestion/Compaction/Rows/Leading.antt =====
-- The window query of ingestion/compaction.py, in the order of its rows.
use marketforge.Prelude.{
  ◌≡◌, ◌⊎◌, inl, inr, refl, sym, ap, ◌∙◌, subst, true, false, Bool-cases, Option-cases, none, some,
  List, [], ◌∷◌, ok, In, Distinct, if_pos, if_neg,
}
use marketforge.Prelude.Dict.{lookup, insert, keys, lookup-insert, insert-Distinct}
use marketforge.Ingestion.Values.{Value, Row}
use marketforge.Ingestion.Contracts.{Contract, pick, Value_list_discrete}
use marketforge.Ingestion.Contracts.Steps.{>>=-eq-ok}
use marketforge.Ingestion.Compaction.Rows.{Sql, precedes, note_first, first_ranked}
use marketforge.Ingestion.Compaction.Rows.Orders.{
  IsOrdered, precedes-irreflexive, precedes-transitive,
}

module _ (q : Sql) (c : Contract) where
  -- For the rows that satisfy D: one entry for each of their keys, a row that none with this key
  -- precedes.
  pub record Leading (D : Row → Type 0) (ranked : List (List Value × Row)) : Type 0 where
    pub distinct : Distinct (keys ranked)
    pub sound :
        (k : List Value) (row : Row)
        → lookup Value_list_discrete k ranked ≡ some row
        → D row
          × (pick c.idempotency_by row ≡ ok k)
          × ((x : Row) → D x → pick c.idempotency_by x ≡ ok k → precedes q x row ≡ false)
    pub complete :
        (x : Row)
        → D x
        → (k : List Value) × (pick c.idempotency_by x ≡ ok k)
          × ((row : Row) × (lookup Value_list_discrete k ranked ≡ some row))

  abbrev OrRow : (Row → Type 0) → Row → Row → Type 0
  OrRow D row x = D x ⊎ (x ≡ row)

  lookup_here :
      (k : List Value) (row : Row) (d : List (List Value × Row))
      → lookup Value_list_discrete k (insert Value_list_discrete k row d) ≡ some row
  lookup_here k row d =
      lookup-insert Value_list_discrete k k row d ∙ if_pos (Value_list_discrete k k) refl _ _

  insert-Leading :
      (D : Row → Type 0) (key : List Value) (row : Row) (ranked : List (List Value × Row))
      → IsOrdered q
      → pick c.idempotency_by row ≡ ok key
      → ((x : Row) → D x → pick c.idempotency_by x ≡ ok key → precedes q x row ≡ false)
      → Leading D ranked
      → Leading (OrRow D row) (insert Value_list_discrete key row ranked)
  insert-Leading D key row ranked ordered at_key least h = record {
    distinct = insert-Distinct Value_list_discrete key row ranked h.distinct;
    sound = λ k y e. elim (Value_list_discrete key k) [
      | yes same ↦
          let found =
            sym (
              lookup-insert Value_list_discrete key k row ranked
              ∙ if_pos (Value_list_discrete key k) same _ _)
            ∙ e in
          let is : row ≡ y = cc found in
          (
            inr (sym is),
            cc (is, same, at_key),
            λ x d at. elim d [
              | inl old ↦ cc (is, least x old (at ∙ ap ok (sym same)))
              | inr new ↦ cc (is, new, precedes-irreflexive q row ordered)
            ],
          )
      | no differs ↦
          let found =
            sym (
              lookup-insert Value_list_discrete key k row ranked
              ∙ if_neg (Value_list_discrete key k) differs _ _)
            ∙ e in
          let (d, at, first) = h.sound k y found in
          (
            inl d,
            at,
            λ x dx atx. elim dx [
              | inl old ↦ first x old atx
              | inr new ↦ let clash : key ≡ k = cc (at_key, new, atx) in absurd (differs clash)
            ],
          )
    ];
    complete = λ x d. elim d [
      | inl old ↦
          let (k, at, (y, found)) = h.complete x old in
          elim (Value_list_discrete key k) [
            | yes same ↦ (
              k,
              at,
              (
                row,
                lookup-insert Value_list_discrete key k row ranked
                    ∙ if_pos (Value_list_discrete key k) same _ _,
              ),
            )
            | no differs ↦ (
              k,
              at,
              (
                y,
                lookup-insert Value_list_discrete key k row ranked
                    ∙ if_neg (Value_list_discrete key k) differs _ _
                    ∙ found,
              ),
            )
          ]
      | inr new ↦ (key, ap (pick c.idempotency_by) new ∙ at_key, (row, lookup_here key row ranked))
    ];
  }

  keep-Leading :
      (D : Row → Type 0) (key : List Value) (row first : Row) (ranked : List (List Value × Row))
      → pick c.idempotency_by row ≡ ok key
      → lookup Value_list_discrete key ranked ≡ some first
      → precedes q row first ≡ false
      → Leading D ranked
      → Leading (OrRow D row) ranked
  keep-Leading D key row first ranked at_key there later h = record {
    distinct = h.distinct;
    sound = λ k y e.
        let (d, at, least) = h.sound k y e in
        (
          inl d,
          at,
          λ x dx atx. elim dx [
            | inl old ↦ least x old atx
            | inr new ↦
                let clash : key ≡ k = cc (at_key, new, atx) in
                let is : first ≡ y = cc (there, clash, e) in cc (new, is, later)
          ],
        );
    complete = λ x d. elim d [
      | inl old ↦ h.complete x old
      | inr new ↦ (key, ap (pick c.idempotency_by) new ∙ at_key, (first, there))
    ];
  }

  fresh_least :
      (D : Row → Type 0) (key : List Value) (row : Row) (ranked : List (List Value × Row))
      → lookup Value_list_discrete key ranked ≡ none
      → Leading D ranked
      → (x : Row) → D x
      → pick c.idempotency_by x ≡ ok key
      → precedes q x row ≡ false
  fresh_least D key row ranked missing h x d at =
      let (k, atk, (y, found)) = h.complete x d in
      let same : k ≡ key = cc (at, atk) in
      absurd
        (let no = ap (λ j. lookup Value_list_discrete j ranked) same in cc (no, found, missing))

  before_least :
      (D : Row → Type 0) (key : List Value) (row first : Row) (ranked : List (List Value × Row))
      → IsOrdered q
      → lookup Value_list_discrete key ranked ≡ some first
      → precedes q row first ≡ true
      → Leading D ranked
      → (x : Row) → D x
      → pick c.idempotency_by x ≡ ok key
      → precedes q x row ≡ false
  before_least D key row first ranked ordered there earlier h x d at =
      elim (Bool-cases (precedes q x row)) [
        | inl e ↦
            let (_, _, least) = h.sound key first there in
            absurd (
              let no = precedes-transitive q x row first ordered e earlier in cc (no, least x d at))
        | inr e ↦ e
      ]

  note_first-Leading :
      (D : Row → Type 0) (key : List Value) (row : Row) (ranked : List (List Value × Row))
      → IsOrdered q
      → pick c.idempotency_by row ≡ ok key
      → Leading D ranked
      → Leading (OrRow D row) (note_first q key row ranked)
  unfolding note_first
  note_first-Leading D key row ranked ordered at h =
      elim (Option-cases (lookup Value_list_discrete key ranked)) [
        | inl missing ↦
            rw (missing, note_first)
              (insert-Leading D key row ranked ordered at (fresh_least D key row ranked missing h)
                h)
        | inr (first, there) ↦ elim (Bool-cases (precedes q row first)) [
          | inl earlier ↦
              rw (there, note_first, earlier)
                (insert-Leading D key row ranked ordered at
                  (before_least D key row first ranked ordered there earlier h) h)
          | inr later ↦
              rw (there, note_first, later) (keep-Leading D key row first ranked at there later h)
        ]
      ]

  pub Leading-same :
      (D G : Row → Type 0) (ranked : List (List Value × Row))
      → ((x : Row) → D x → G x)
      → ((x : Row) → G x → D x)
      → Leading D ranked
      → Leading G ranked
  Leading-same D G ranked to from h = record {
    distinct = h.distinct;
    sound = λ k row e.
        let (d, at, least) = h.sound k row e in (to row d, at, λ x g. least x (from x g));
    complete = λ x g. h.complete x (from x g);
  }

  pub first_ranked-from :
      (D : Row → Type 0) (rows : List Row) (ranked out : List (List Value × Row))
      → IsOrdered q
      → Leading D ranked
      → first_ranked q c rows ranked ≡ ok out
      → Leading (λ x. D x ⊎ In x rows) out
  unfolding first_ranked
  first_ranked-from D [] ranked out ordered h e =
      let same : ranked ≡ out = cc e in
      subst (Leading (λ x. D x ⊎ ⊥)) same (
        Leading-same D (λ x. D x ⊎ ⊥) ranked (λ x d. inl d)
          (λ x d. elim d [ inl a ↦ a | inr b ↦ absurd b ]) h)
  first_ranked-from D (row ∷ rows) ranked out ordered h e =
      let (key, at, later) = >>=-eq-ok (pick c.idempotency_by row) _ out e in
      let next =
        first_ranked-from (OrRow D row) rows (note_first q key row ranked) out ordered
          (note_first-Leading D key row ranked ordered at h) later in
      Leading-same _ (λ x. D x ⊎ In x (row ∷ rows)) out
        (λ x d. elim d [ inl (inl a) ↦ inl a | inl (inr b) ↦ inr (inl b) | inr m ↦ inr (inr m) ])
        (λ x d. elim d [ inl a ↦ inl (inl a) | inr (inl b) ↦ inl (inr b) | inr (inr m) ↦ inr m ])
        next

  pub Leading-nil : Leading (λ x. ⊥) []
  unfolding lookup
  Leading-nil = record {
    distinct = tt;
    sound = λ k row e. absurd (cc e);
    complete = λ x d. absurd d;
  }
