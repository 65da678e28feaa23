-- ===== src/Warehouse/Lineage.antt =====
-- warehouse/lineage.py: the part of a lineage graph that leads to a node, or that a node leads to.
-- Of a node stands here what the selection reads; the graph's other keys are passed on unread.

pub mod Closure
pub mod Selected
mod Tests
use marketforge.Prelude.{
  ℕ, zero, suc, ◌||◌, ◌&&◌, not, Bool, true, false, String, String_discrete, Option, none, some,
  List, [], ◌∷◌, map, filter, length, contains, ◌==◌, if◌then◌else◌, Result, ok, err,
}
use marketforge.Prelude.Dict.{insert}

pub record Node : Type 0 where
  pub id : String
  pub name : String

pub record Edge : Type 0 where
  pub from : String
  pub to : String

pub record Graph : Type 0 where
  pub nodes : List Node
  pub edges : List Edge

-- `{node["id"]: node for node in graph["nodes"]}`
pub by_id : List Node → List (String × Node) → List (String × Node)
by_id [] d = d
by_id (n ∷ nodes) d = by_id nodes (insert String_discrete n.id n d)

-- The identifiers of the nodes with that identifier or name.
pub matches : Graph → String → List String
matches g target =
    map (λ (e : String × Node). e.0)
      (filter
        (λ (e : String × Node).
          contains String_discrete target (e.0 ∷ [])
          || contains String_discrete target (e.1.name ∷ []))
        (by_id g.nodes []))

-- `selected.update(start of edge for edge in edges if end of edge in selected)`: the test sees what
-- the update has already added. `ancestors` goes from `to` to `from`, `descendants` the other way.
pub sweep : (Edge → String) → (Edge → String) → List Edge → List String → List String
sweep start end [] selected = selected
sweep start end (e ∷ edges) selected = sweep start end edges (
    if contains String_discrete (end e) selected
      && not (contains String_discrete (start e) selected)
    then start e ∷ selected
    else selected)

-- `while changed:` in so many rounds at most; `none` if these are not enough.
pub grow : ℕ → (Edge → String) → (Edge → String) → List Edge → List String → Option (List String)
grow zero start end edges selected = none
grow (suc rounds) start end edges selected =
    let after = sweep start end edges selected in
    let rest = grow rounds start end edges after in
    if length after == length selected then some after else rest

pub data LineageError : Type 0 where
  value_error : ℕ → LineageError
  out_of_rounds : LineageError

-- A selected part of the graph.
pub record Selection : Type 0 where
  pub target : String
  pub nodes : List Node
  pub edges : List Edge

restrict : Graph → String → List String → Selection
restrict g target selected = record {
  target = target;
  nodes = filter (λ (n : Node). contains String_discrete n.id selected) g.nodes;
  edges =
      filter
        (λ (e : Edge).
          contains String_discrete e.from selected && contains String_discrete e.to selected)
        g.edges;
}

selection : Graph → String → Option (List String) → Result LineageError Selection
selection g target none = err out_of_rounds
selection g target (some selected) = ok (restrict g target selected)

-- What both functions do once the matches are computed.
closure : (Edge → String) → (Edge → String) → Graph → List String → Result LineageError Selection
unfolding selection restrict
closure start end g (target ∷ []) =
    selection g target (grow (suc (length g.edges)) start end g.edges (target ∷ []))
closure start end g found = err (value_error (length found))

pub ancestors : Graph → String → Result LineageError Selection
unfolding closure
ancestors g target = closure (λ e. e.from) (λ e. e.to) g (matches g target)

pub descendants : Graph → String → Result LineageError Selection
unfolding closure
descendants g source = closure (λ e. e.to) (λ e. e.from) g (matches g source)
