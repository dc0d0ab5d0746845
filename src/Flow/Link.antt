-- ===== src/Flow/Link.antt =====
-- The links that the drawn graph keeps on its nodes: `inNodes` and `outNodes`, as `render` of
-- src/web/js/azkaban.svg.graph.view.js sets them. The actions on parents and children follow them.
pub mod Laws
use azkaban.Prelude.{String, List, [], ◌∷◌, none, some}
use azkaban.Prelude.Dict.{get, put}
use azkaban.Flow.Graph.{JobNode, NodeMap, Outcome, ok, type_error, ◌>>=◌}
use azkaban.Flow.Fetch.{Edge, add_key, build_node_map}

-- `inNodes[k] = this.nodes[k]` at the node `id`, after `inNodes` was made where it was missing
unfoldable pub add_in_node : String → String → NodeMap → Outcome NodeMap
add_in_node id k m = elim (get id m) [
  | none ↦ type_error m
  | some n ↦ ok (put id (record n { in_nodes = add_key k n.in_nodes }) m)
]

-- the same for `outNodes`
unfoldable pub add_out_node : String → String → NodeMap → Outcome NodeMap
add_out_node id k m = elim (get id m) [
  | none ↦ type_error m
  | some n ↦ ok (put id (record n { out_nodes = add_key k n.out_nodes }) m)
]

-- the loop over the edges
unfoldable pub link_nodes : List Edge → NodeMap → Outcome NodeMap
unfolding add_in_node add_out_node
link_nodes [] m = ok m
link_nodes (e ∷ es) m =
    add_in_node e.target e.from m >>= add_out_node e.from e.target >>= link_nodes es

-- the nodes that `render` sets in the model
unfoldable pub link_graph : List JobNode → List Edge → Outcome NodeMap
unfolding link_nodes build_node_map
link_graph nodes edges = link_nodes edges (build_node_map nodes [])
