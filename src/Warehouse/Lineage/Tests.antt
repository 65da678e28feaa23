-- ===== src/Warehouse/Lineage/Tests.antt =====
-- A graph of two models over a source, with a cycle (warehouse/lineage.py).
use marketforge.Prelude.{◌≡◌, refl, [], ◌∷◌, ok, contains, filter, String_discrete}
use marketforge.Prelude.Dict.{insert}
use marketforge.Warehouse.Lineage.{Graph, by_id, matches, Selection, ancestors, descendants}
use marketforge.Warehouse.Lineage.Selected.{Selects, ancestors-Selects}

abbrev graph : Graph
graph = record {
  nodes =
      record { id = "source.raw"; name = "raw" }
      ∷ record { id = "model.a"; name = "a" }
      ∷ record { id = "model.b"; name = "b" }
      ∷ [];
  edges =
      record { from = "source.raw"; to = "model.a" }
      ∷ record { from = "model.a"; to = "model.b" }
      ∷ record { from = "model.b"; to = "model.a" }
      ∷ [];
}

graph-matches : matches graph "a" ≡ "model.a" ∷ []
unfolding matches by_id insert filter contains String_discrete
graph-matches = refl

ancestors-Selects_example :
    ((s : Selection) × (ancestors graph "a" ≡ ok s)
      × Selects (λ e. e.from) (λ e. e.to) graph "model.a" s)
    × ((s : Selection) × (descendants graph "a" ≡ ok s)
        × Selects (λ e. e.to) (λ e. e.from) graph "model.a" s)
ancestors-Selects_example = ancestors-Selects graph "a" "model.a" graph-matches
