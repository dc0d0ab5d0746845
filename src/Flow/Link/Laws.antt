-- ===== src/Flow/Link/Laws.antt =====
-- The links of the drawn graph (src/web/js/azkaban.svg.graph.view.js) are those that `fetchFlow` sets
-- (src/web/js/azkaban.ajax.utils.js), under other names.
use azkaban.Prelude.{
  String, List, [], ◌∷◌, Option, none, some, ◌≡◌, refl, ap, ◌∙◌, map, arith, inl, inr, Option-cases,
}
use azkaban.Prelude.Dict.{get, put}
use azkaban.Flow.Graph.{JobNode, NodeMap, Outcome, ok, type_error, stack_overflow, ◌>>=◌}
use azkaban.Flow.Fetch.{
  Edge, add_key, add_in, add_out, link_edge, link_edges, build_node_map, fetch_flow,
}
use azkaban.Flow.Link.{add_in_node, add_out_node, link_nodes, link_graph}

-- `in` for `inNodes` and `out` for `outNodes`, and the other way round
abbrev pub swap : JobNode → JobNode
swap n = record n {
  in_keys = n.in_nodes;
  out_keys = n.out_nodes;
  in_nodes = n.in_keys;
  out_nodes = n.out_keys;
}

abbrev pub swap_map : NodeMap → NodeMap
swap_map [] = []
swap_map ((k, n) ∷ m) = (k, swap n) ∷ swap_map m

abbrev pub swap_all : Outcome NodeMap → Outcome NodeMap
swap_all (ok m) = ok (swap_map m)
swap_all (type_error m) = type_error (swap_map m)
swap_all (stack_overflow m) = stack_overflow (swap_map m)

abbrev swap_found : Option JobNode → Option JobNode
swap_found none = none
swap_found (some n) = some (swap n)

get-swap_map : (k : String) (m : NodeMap) → get k (swap_map m) ≡ swap_found (get k m)
unfolding get
get-swap_map k [] = refl
get-swap_map k ((j, n) ∷ m) = ground (arith, get-swap_map k m)

put-swap_map :
    (k : String) (n : JobNode) (m : NodeMap) → put k (swap n) (swap_map m) ≡ swap_map (put k n m)
unfolding put
put-swap_map k n [] = refl
put-swap_map k n ((j, w) ∷ m) = ground (arith, put-swap_map k n m)

add_in_node-swap_map :
    (id k : String) (m : NodeMap) → add_in_node id k (swap_map m) ≡ swap_all (add_in id k m)
unfolding add_in_node add_in
add_in_node-swap_map id k m = elim (Option-cases (get id m)) [
  | inl absent ↦ ground (arith, absent, get-swap_map id m)
  | inr (n, found) ↦ ground (
    arith,
    found,
    get-swap_map id m,
    put-swap_map id (record n { in_keys = add_key k n.in_keys }) m,
  )
]

add_out_node-swap_map :
    (id k : String) (m : NodeMap) → add_out_node id k (swap_map m) ≡ swap_all (add_out id k m)
unfolding add_out_node add_out
add_out_node-swap_map id k m = elim (Option-cases (get id m)) [
  | inl absent ↦ ground (arith, absent, get-swap_map id m)
  | inr (n, found) ↦ ground (
    arith,
    found,
    get-swap_map id m,
    put-swap_map id (record n { out_keys = add_key k n.out_keys }) m,
  )
]

bind-swap_all :
    (o : Outcome NodeMap) (f g : NodeMap → Outcome NodeMap)
    → ((m : NodeMap) → f (swap_map m) ≡ swap_all (g m))
    → (swap_all o >>= f) ≡ swap_all (o >>= g)
bind-swap_all (ok m) f g h = h m
bind-swap_all (type_error m) f g h = refl
bind-swap_all (stack_overflow m) f g h = refl

build_node_map-swap :
    (nodes : List JobNode) (m : NodeMap)
    → build_node_map (map swap nodes) (swap_map m) ≡ swap_map (build_node_map nodes m)
unfolding build_node_map
build_node_map-swap [] m = refl
build_node_map-swap (n ∷ ns) m =
    ap (build_node_map (map swap ns)) (put-swap_map n.id n m)
    ∙ build_node_map-swap ns (put n.id n m)

link_nodes-swap_map :
    (es : List Edge) (m : NodeMap) → link_nodes es (swap_map m) ≡ swap_all (link_edges es m)
unfolding link_nodes link_edges link_edge
link_nodes-swap_map [] m = refl
link_nodes-swap_map (e ∷ es) m =
    ap (λ o. o >>= add_out_node e.from e.target >>= link_nodes es)
      (add_in_node-swap_map e.target e.from m)
    ∙ ap (λ o. o >>= link_nodes es)
        (bind-swap_all (add_in e.target e.from m) (add_out_node e.from e.target)
          (add_out e.from e.target) (add_out_node-swap_map e.from e.target))
    ∙ bind-swap_all (add_in e.target e.from m >>= add_out e.from e.target) (link_nodes es)
        (link_edges es) (link_nodes-swap_map es)

-- Linking the drawn graph is what `fetchFlow` does, errors included, with `inNodes` and `outNodes` in
-- place of `in` and `out`.
pub link_graph-fetch_flow :
    (nodes : List JobNode) (edges : List Edge)
    → link_graph (map swap nodes) edges ≡ swap_all (fetch_flow nodes edges)
unfolding link_graph fetch_flow
link_graph-fetch_flow nodes edges =
    ap (link_nodes edges) (build_node_map-swap nodes [])
    ∙ link_nodes-swap_map edges (build_node_map nodes [])
