-- ===== src/Layout.antt =====
-- The layers of the graph's layout: the first part of `layoutGraph` (src/web/js/azkaban.layout.js),
-- which puts the nodes on layers and dummy nodes on the layers that an edge crosses. A layer that is
-- not set is empty, since a layer is set when its first node is put there.
pub mod Laws
use azkaban.Prelude.{
  ℕ, zero, suc, ◌+◌, ◌-◌, ◌≤◌, ◌<◌, String, List, [], ◌∷◌, ◌++◌, Option, none, some, Bool, true,
  false, ◌≡◌, refl, ◌&&◌, if◌then◌else◌, ltb, leb, ◌==◌, arith, ap, sym, ◌∙◌, inl, inr, Bool-cases,
}
use azkaban.Prelude.Dict.{get, put}
use azkaban.Flow.Graph.{Outcome, ok, type_error, ◌>>=◌}
use azkaban.Flow.Fetch.{Edge}

pub record LevelNode : Type 0 where
  pub id : String
  pub level : ℕ

-- A node on a layer: one of the graph, or a dummy node of an edge.
pub data LayerNode : Type 0 where
  real : String → LayerNode
  dummy : String → String → LayerNode

abbrev pub Layers : Type 0
Layers = ℕ → List LayerNode

-- `layers[j].push(n)`
abbrev pub push : ℕ → LayerNode → Layers → Layers
push j n layers = λ k. if j == k then layers k ++ n ∷ [] else layers k

-- the first loop: the layers and `nodeMap`
pub assign_layers : List LevelNode → Layers → Layers
assign_layers [] layers = layers
assign_layers (n ∷ ns) layers = assign_layers ns (push n.level (real n.id) layers)

unfoldable pub level_map : List LevelNode → List (String × ℕ) → List (String × ℕ)
level_map [] m = m
level_map (n ∷ ns) m = level_map ns (put n.id n.level m)

abbrev pub non_empty : List LayerNode → Bool
non_empty [] = false
non_empty (_ ∷ _) = true

abbrev pub is_set : Layers → ℕ → Bool
is_set layers j = non_empty (layers j)

-- The loop over the layers between an edge's ends, `rounds` times from `j`.
pub add_dummies : ℕ → ℕ → LayerNode → Layers → Outcome Layers
add_dummies zero j n layers = ok layers
add_dummies (suc rounds) j n layers =
    let rest = add_dummies rounds (suc j) n (push j n layers) in
    if is_set layers j then rest else type_error layers

-- the edge between two levels; an end that is not a node raises a TypeError
add_between : Option ℕ → Option ℕ → LayerNode → Layers → Outcome Layers
unfolding add_dummies
add_between (some src) (some dest) n layers = add_dummies (dest - suc src) (suc src) n layers
add_between _ _ n layers = type_error layers

-- the second loop
pub add_edge : List (String × ℕ) → Edge → Layers → Outcome Layers
unfolding add_between
add_edge m e layers = add_between (get e.from m) (get e.target m) (dummy e.from e.target) layers

pub add_edges : List (String × ℕ) → List Edge → Layers → Outcome Layers
add_edges m [] layers = ok layers
add_edges m (e ∷ es) layers = add_edge m e layers >>= add_edges m es

pub layer_graph : List LevelNode → List Edge → Outcome Layers
unfolding assign_layers level_map add_edges add_edge
layer_graph nodes edges = add_edges (level_map nodes []) edges (assign_layers nodes (λ _. []))
