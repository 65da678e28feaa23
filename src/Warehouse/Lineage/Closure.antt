-- ===== src/Warehouse/Lineage/Closure.antt =====
-- The loop of `ancestors` and `descendants` (warehouse/lineage.py).
use marketforge.Prelude.{
  ℕ, zero, suc, ◌≤◌, ◌<◌, ◌≡◌, refl, sym, ap, subst, ◌⊎◌, inl, inr, ◌↔◌, ◌∙◌, Bool, true, false,
  not, ◌&&◌, String, String_discrete, some, List, [], ◌∷◌, In, All, All-of_In, In-All, length,
  contains, contains→In, In→contains, Bool-cases, arith, ◌==◌, if◌then◌else◌,
}
use marketforge.Warehouse.Lineage.{Edge, sweep, grow}

module _ (start end : Edge → String) where
  -- A node from which the edges lead to one of the nodes given.
  pub data Reaches (all : List Edge) (from : List String) : String → Type 0 where
    here : (x : String) → In x from → Reaches all from x
    step : (e : Edge) → In e all → Reaches all from (end e) → Reaches all from (start e)

  -- One edge of the sweep.
  turn : Edge → List String → List String
  turn e selected =
      if contains String_discrete (end e) selected
        && not (contains String_discrete (start e) selected)
      then start e ∷ selected
      else selected

  -- How many edges have a start that is not selected.
  missing : List Edge → List String → ℕ
  missing [] selected = 0
  missing (e ∷ edges) selected =
      let rest = missing edges selected in
      if contains String_discrete (start e) selected then rest else suc rest

  missing-le : (all : List Edge) (selected : List String) → missing all selected ≤ length all
  unfolding missing
  missing-le [] selected = omega arith
  missing-le (e ∷ all) selected = ground (arith, missing-le all selected)

  contains-cons :
      (y x : String) (selected : List String)
      → contains String_discrete y selected ≡ true
      → contains String_discrete y (x ∷ selected) ≡ true
  contains-cons y x selected h =
      In→contains String_discrete y (x ∷ selected) (inr (contains→In String_discrete y selected h))

  missing-cons :
      (x : String) (all : List Edge) (selected : List String)
      → missing all (x ∷ selected) ≤ missing all selected
  unfolding missing
  missing-cons x [] selected = omega arith
  missing-cons x (e ∷ all) selected =
      ground (arith, missing-cons x all selected, contains-cons (start e) x selected)

  contains_head :
      (x : String) (selected : List String) → contains String_discrete x (x ∷ selected) ≡ true
  contains_head x selected = In→contains String_discrete x (x ∷ selected) (inl refl)

  -- Selecting the start of an edge leaves fewer edges without.
  missing-lt :
      (e : Edge) (all : List Edge) (selected : List String)
      → In e all
      → contains String_discrete (start e) selected ≡ false
      → missing all (start e ∷ selected) < missing all selected
  unfolding missing
  missing-lt e (d ∷ all) selected (inl same) h =
      subst
        (λ x.
          contains String_discrete (start e) selected ≡ false
          → missing (x ∷ all) (start e ∷ selected) < missing (x ∷ all) selected)
        same
        (λ f. ground (arith, missing-cons (start e) all selected, contains_head (start e) selected))
        h
  missing-lt e (d ∷ all) selected (inr m) h =
      ground (arith, missing-lt e all selected m h, contains-cons (start d) (start e) selected)
  missing-lt e [] selected m h = absurd m

  -- What a sweep of some of the edges does: it keeps what is selected and adds nothing that does not
  -- reach it, and either nothing changed and these edges are closed, or fewer edges are left.
  record Swept (all edges : List Edge) (from selected after : List String) : Type 0 where
    kept : (x : String) → In x selected → In x after
    sound :
        ((x : String) → In x selected → Reaches all from x)
        → (x : String) → In x after
        → Reaches all from x
    longer : length selected ≤ length after
    progress :
        ((after ≡ selected) × All (λ e. In (end e) selected → In (start e) selected) edges)
        ⊎ ((length selected < length after) × (missing all after < missing all selected))

  open_edge :
      (e : Edge) (selected : List String)
      → (contains String_discrete (end e) selected
          && not (contains String_discrete (start e) selected))
        ≡ true
      → (contains String_discrete (end e) selected ≡ true)
        × (contains String_discrete (start e) selected ≡ false)
  open_edge e selected h = (ground arith, ground arith)

  closed_edge :
      (e : Edge) (selected : List String)
      → (contains String_discrete (end e) selected
          && not (contains String_discrete (start e) selected))
        ≡ false
      → In (end e) selected
      → In (start e) selected
  closed_edge e selected h m =
      contains→In String_discrete (start e) selected
        (ground (arith, In→contains String_discrete (end e) selected m))

  -- A sweep after an edge whose start was selected.
  Swept-taken :
      (all : List Edge) (e : Edge) (edges : List Edge) (from selected after : List String)
      → In e all
      → contains String_discrete (end e) selected ≡ true
      → contains String_discrete (start e) selected ≡ false
      → Swept all edges from (start e ∷ selected) after
      → Swept all (e ∷ edges) from selected after
  Swept-taken all e edges from selected after m ended new s = record {
    kept = λ x h. s.kept x (inr h);
    sound = λ f. s.sound λ x h. elim h [
      | inl same ↦
          subst (Reaches all from) (sym same)
            (step e m (f (end e) (contains→In String_discrete (end e) selected ended)))
      | inr old ↦ f x old
    ];
    longer = omega (arith, s.longer);
    progress = inr (
      omega (arith, s.longer),
      elim s.progress [
        | inl (same, closed) ↦
            subst (λ a. missing all a < missing all selected) (sym same)
              (missing-lt e all selected m new)
        | inr (longer, fewer) ↦ omega (arith, fewer, missing-lt e all selected m new)
      ],
    );
  }

  -- A sweep after an edge that changed nothing.
  Swept-passed :
      (all : List Edge) (e : Edge) (edges : List Edge) (from selected after : List String)
      → (In (end e) selected → In (start e) selected)
      → Swept all edges from selected after
      → Swept all (e ∷ edges) from selected after
  Swept-passed all e edges from selected after closed s = record {
    kept = s.kept;
    sound = s.sound;
    longer = s.longer;
    progress = elim s.progress [
      | inl (same, others) ↦ inl (same, (closed, others))
      | inr more ↦ inr more
    ];
  }

  sweep-Swept :
      (all edges : List Edge) (from selected : List String)
      → All (λ e. In e all) edges
      → Swept all edges from selected (sweep start end edges selected)
  unfolding sweep
  sweep-Swept all [] from selected h = record {
    kept = λ x m. m;
    sound = λ f. f;
    longer = omega arith;
    progress = inl (refl, tt);
  }
  sweep-Swept all (e ∷ edges) from selected h =
      elim (Bool-cases (
        contains String_discrete (end e) selected
        && not (contains String_discrete (start e) selected))) [
          | inl taken ↦
              let (ended, new) = open_edge e selected taken in
              rw (taken, sweep)
                (Swept-taken all e edges from selected _ h.0 ended new
                  (sweep-Swept all edges from (start e ∷ selected) h.1))
          | inr passed ↦
              rw (passed, sweep)
                (Swept-passed all e edges from selected _ (closed_edge e selected passed)
                  (sweep-Swept all edges from selected h.1))
        ]

  -- A closed set that holds the nodes given holds all that reach them.
  closed-Reaches :
      (all : List Edge) (from selected : List String)
      → ((x : String) → In x from → In x selected)
      → All (λ e. In (end e) selected → In (start e) selected) all
      → (x : String) → Reaches all from x
      → In x selected
  closed-Reaches all from selected kept closed y (here x m) = kept x m
  closed-Reaches all from selected kept closed y (step e m r) =
      In-All (λ e. In (end e) selected → In (start e) selected) e all closed m
        (closed-Reaches all from selected kept closed (end e) r)

  -- What the loop returns.
  record Grown (all : List Edge) (from selected result : List String) : Type 0 where
    kept : (x : String) → In x selected → In x result
    sound :
        ((x : String) → In x selected → Reaches all from x)
        → (x : String) → In x result
        → Reaches all from x
    closed : All (λ e. In (end e) result → In (start e) result) all

  grow_turn :
      (rounds : ℕ) (all : List Edge) (selected : List String) (b : Bool)
      → (length (sweep start end all selected) == length selected) ≡ b
      → grow (suc rounds) start end all selected ≡ (
          if b
          then some (sweep start end all selected)
          else grow rounds start end all (sweep start end all selected))
  unfolding grow
  grow_turn rounds all selected true h = rw h
  grow_turn rounds all selected false h = rw h

  -- With more rounds than edges that are missing, the loop ends.
  grow-Grown :
      (rounds : ℕ) (all : List Edge) (from selected : List String)
      → missing all selected < rounds
      → (result : List String) × (grow rounds start end all selected ≡ some result)
        × Grown all from selected result
  grow-Grown zero all from selected h = absurd (omega (arith, h))
  grow-Grown (suc rounds) all from selected h =
      let after = sweep start end all selected in
      let s = sweep-Swept all all from selected (All-of_In (λ e. In e all) all (λ e m. m)) in
      elim s.progress [
        | inl (same, closed) ↦ (
          after,
          grow_turn rounds all selected true (ground (arith, ap length same)),
          record {
            kept = s.kept;
            sound = s.sound;
            closed = subst (λ a. All (λ e. In (end e) a → In (start e) a) all) (sym same) closed;
          },
        )
        | inr (longer, fewer) ↦
            let (result, e, g) = grow-Grown rounds all from after (omega (arith, h, fewer)) in
            (
              result,
              grow_turn rounds all selected false (ground arith) ∙ e,
              record {
                kept = λ x m. g.kept x (s.kept x m);
                sound = λ f. g.sound (s.sound f);
                closed = g.closed;
              },
            )
      ]

  -- One round more than there are edges is enough for the loop from any list of nodes, and what it
  -- selects is exactly the nodes from which the edges lead to one of these.
  pub grow-Reaches :
      (edges : List Edge) (from : List String)
      → (selected : List String) × (grow (suc (length edges)) start end edges from ≡ some selected)
        × ((x : String) → In x selected ↔ Reaches edges from x)
  grow-Reaches edges from =
      let (selected, e, g) =
        grow-Grown (suc (length edges)) edges from from (omega (arith, missing-le edges from)) in
      (
        selected,
        e,
        λ x. (g.sound (λ y m. here y m) x, closed-Reaches edges from selected g.kept g.closed x),
      )
