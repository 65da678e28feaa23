-- ===== src/Warehouse/Lineage/Selected.antt =====
-- The nodes that `ancestors` and `descendants` return (warehouse/lineage.py).
use marketforge.Prelude.{
  ◌≡◌, sym, subst, inl, inr, ◌↔◌, Bool, true, String, String_discrete, List, [], ◌∷◌, In, filter,
  contains, contains→In, In→contains, Bool-cases, ok, if◌then◌else◌,
}
use marketforge.Warehouse.Lineage.{
  Node, Edge, Graph, matches, Selection, selection, restrict, closure, ancestors, descendants,
}
use marketforge.Warehouse.Lineage.Closure.{Reaches, grow-Reaches}

In-filter-back :
    {A : Type 0} (p : A → Bool) (x : A) (xs : List A) → In x (filter p xs) → In x xs × (p x ≡ true)
unfolding filter
In-filter-back p x (y ∷ xs) h = elim (Bool-cases (p y)) [
  | inl kept ↦ elim (subst (λ b. In x (if b then y ∷ filter p xs else filter p xs)) kept h) [
    | inl e ↦ (inl e, subst (λ z. p z ≡ true) (sym e) kept)
    | inr m ↦ let (i, t) = In-filter-back p x xs m in (inr i, t)
  ]
  | inr dropped ↦
      let (i, t) =
        In-filter-back p x xs
          (subst (λ b. In x (if b then y ∷ filter p xs else filter p xs)) dropped h) in
      (inr i, t)
]
In-filter-back p x [] h = absurd h

In-filter :
    {A : Type 0} (p : A → Bool) (x : A) (xs : List A) → In x xs → p x ≡ true → In x (filter p xs)
unfolding filter
In-filter p x (y ∷ xs) (inl e) t = rw (subst (λ z. p z ≡ true) e t, filter) (inl e)
In-filter p x (y ∷ xs) (inr m) t = elim (Bool-cases (p y)) [
  | inl kept ↦ rw (kept, filter) (inr (In-filter p x xs m t))
  | inr dropped ↦ rw (dropped, filter) (In-filter p x xs m t)
]
In-filter p x [] m t = absurd m

-- The nodes of a selection are the nodes of the graph that reach the target.
abbrev pub Selects : (Edge → String) → (Edge → String) → Graph → String → Selection → Type 0
Selects start end g target s =
    (n : Node) → In n s.nodes ↔ (In n g.nodes × Reaches start end g.edges (target ∷ []) n.id)

closure-Selects :
    (start end : Edge → String) (g : Graph) (target : String)
    → (s : Selection) × (closure start end g (target ∷ []) ≡ ok s) × Selects start end g target s
unfolding closure selection restrict
closure-Selects start end g target =
    let (selected, e, reached) = grow-Reaches start end g.edges (target ∷ []) in
    (
      restrict g target selected,
      rw e,
      λ n. (
        λ m.
            let (i, t) =
              In-filter-back (λ (n : Node). contains String_discrete n.id selected) n g.nodes m in
            (i, (reached n.id).0 (contains→In String_discrete n.id selected t)),
        λ (i, r).
            In-filter (λ (n : Node). contains String_discrete n.id selected) n g.nodes i
              (In→contains String_discrete n.id selected ((reached n.id).1 r)),
      ),
    )

-- Where the name matches exactly one node, `ancestors` and `descendants` both return, and the nodes
-- that they return are exactly those nodes of the graph from which a chain of edges leads to that
-- node, and those to which a chain of edges leads from it.
pub ancestors-Selects :
    (g : Graph) (name target : String)
    → matches g name ≡ target ∷ []
    → ((s : Selection) × (ancestors g name ≡ ok s) × Selects (λ e. e.from) (λ e. e.to) g target s)
      × ((s : Selection) × (descendants g name ≡ ok s)
          × Selects (λ e. e.to) (λ e. e.from) g target s)
unfolding ancestors descendants
ancestors-Selects g name target h = (
  rw h (closure-Selects (λ e. e.from) (λ e. e.to) g target),
  rw h (closure-Selects (λ e. e.to) (λ e. e.from) g target),
)
