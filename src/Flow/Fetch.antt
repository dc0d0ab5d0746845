-- ===== src/Flow/Fetch.antt =====
-- Building the node map from the fetched flow: the success handler of `fetchFlow`
-- (src/web/js/azkaban.ajax.utils.js).
pub mod Laws
use azkaban.Prelude.{
  String, List, [], ◌∷◌, ◌++◌, Option, none, some, Bool, true, false, contains, if◌then◌else◌,
}
use azkaban.Prelude.Dict.{get, put}
use azkaban.Flow.Graph.{JobNode, NodeMap, Outcome, ok, type_error, ◌>>=◌}

pub record Edge : Type 0 where
  pub from : String
  pub target : String

-- `if (!o) { o = {}; } o[k] = …`
abbrev pub add_key : String → Option (List String) → Option (List String)
add_key k none = some (k ∷ [])
add_key k (some ks) = some (if contains k ks then ks else ks ++ k ∷ [])

-- the first loop
unfoldable pub build_node_map : List JobNode → NodeMap → NodeMap
build_node_map [] m = m
build_node_map (n ∷ ns) m = build_node_map ns (put n.id n m)

-- `if (!nodeMap[id].in) { nodeMap[id].in = {}; } nodeMap[id].in[k] = nodeMap[k];`
unfoldable pub add_in : String → String → NodeMap → Outcome NodeMap
add_in id k m = elim (get id m) [
  | none ↦ type_error m
  | some n ↦ ok (put id (record n { in_keys = add_key k n.in_keys }) m)
]

-- the same for `out`
unfoldable pub add_out : String → String → NodeMap → Outcome NodeMap
add_out id k m = elim (get id m) [
  | none ↦ type_error m
  | some n ↦ ok (put id (record n { out_keys = add_key k n.out_keys }) m)
]

-- The body of the second loop. The key of the edge's source is added to the target's `in` before the
-- source is looked up.
unfoldable pub link_edge : Edge → NodeMap → Outcome NodeMap
link_edge e m = add_in e.target e.from m >>= add_out e.from e.target

unfoldable pub link_edges : List Edge → NodeMap → Outcome NodeMap
link_edges [] m = ok m
link_edges (e ∷ es) m = link_edge e m >>= link_edges es

unfoldable pub fetch_flow : List JobNode → List Edge → Outcome NodeMap
unfolding build_node_map link_edges link_edge add_in add_out
fetch_flow nodes edges = link_edges edges (build_node_map nodes [])
