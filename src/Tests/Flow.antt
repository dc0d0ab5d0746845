-- ===== src/Tests/Flow.antt =====
-- The flow graph at an example: `b` waits for `a`, and `c` stands alone.
use azkaban.Prelude.{
  ◌++◌, ◌<◌, ℕ, String, List, [], ◌∷◌, none, some, true, false, ◌≡◌, ◌↔◌, ◌⊎◌, refl, str_eq, arith,
  eq_iff, if◌then◌else◌,
}
use azkaban.Prelude.Dict.{get, put}
use azkaban.Flow.Graph.{JobNode, NodeMap, ok}
use azkaban.Flow.Fetch.{Edge, fetch_flow, build_node_map}
use azkaban.Flow.Link.{link_graph}
use azkaban.Flow.Fetch.Laws.{IsGraphOf, fetch_flow-IsGraphOf}
use azkaban.Flow.Disable.{
  Flags, is_disabled, GraphModel, set_disabled, touch_ancestors, show_execute_job,
}
use azkaban.Flow.Disable.Recurse.{Marked, IsRanked}
use azkaban.Flow.Disable.Options.{change_flow_info, change_flow_info-disabled, HasIds}
use azkaban.Flow.Disable.Laws.{Ancestor, touch_ancestors-Marked, show_execute_job-runs}
use azkaban.Layout.{LevelNode, Layers, level_map, layer_graph, is_set}
use azkaban.Layout.Laws.{nodes_on, dummies_on, AreWithin, layer_graph-layers}

abbrev plain : String → JobNode
plain id = record {
  id = id;
  status = "READY";
  in_keys = none;
  out_keys = none;
  in_nodes = none;
  out_nodes = none;
}

abbrev node_a : JobNode
node_a = record (plain "a") { out_keys = some ("b" ∷ []) }

abbrev node_b : JobNode
node_b = record (plain "b") { in_keys = some ("a" ∷ []) }

abbrev sample : NodeMap
sample = ("a", node_a) ∷ ("b", node_b) ∷ ("c", plain "c") ∷ []

abbrev model : GraphModel
model = record { nodes = sample; node_map = sample; disabled = []; changes = 0 }

abbrev in_rank : String → ℕ
in_rank id = if str_eq "b" id then 1 else 0

abbrev out_rank : String → ℕ
out_rank id = if str_eq "a" id then 1 else 0

sample-IsRanked_in : IsRanked (λ n. n.in_keys) sample in_rank
unfolding get
sample-IsRanked_in = record {
  falls = λ id k n e c. ground (arith, e, c, eq_iff "a" k, eq_iff "b" k);
  leads = λ id k n e c. (node_a, ground (arith, e, c, eq_iff "a" k));
}

sample-IsRanked_out : IsRanked (λ n. n.out_keys) sample out_rank
unfolding get
sample-IsRanked_out = record {
  falls = λ id k n e c.
      ground
        (arith, e, c, eq_iff "a" "b", eq_iff "a" id, eq_iff "b" id, eq_iff "a" k, eq_iff "b" k);
  leads = λ id k n e c. (node_b, ground (arith, e, c, eq_iff "a" "b", eq_iff "a" k, eq_iff "b" k));
}

found_b : get "b" sample ≡ some node_b
unfolding get
found_b = refl

found_a : get "a" sample ≡ some node_a
unfolding get
found_a = refl

touch_ancestors-Marked_example :
    (m : Flags) × (touch_ancestors 2 "b" true model ≡ ok (set_disabled model m))
    × Marked (Ancestor sample "b") true [] m
touch_ancestors-Marked_example =
    touch_ancestors-Marked in_rank 2 "b" true model node_b sample-IsRanked_in (omega arith) found_b

show_execute_job-runs_example :
    (g : GraphModel) × (show_execute_job 2 "b" true model ≡ ok g)
    × ((j : String) (n : JobNode)
        → get j sample ≡ some n
        → (is_disabled g.disabled j ≡ false) ↔ (("b" ≡ j) ⊎ Ancestor sample "b" j))
show_execute_job-runs_example =
    show_execute_job-runs in_rank 2 "b" model node_b sample-IsRanked_in (omega arith) found_b

abbrev nodes : List JobNode
nodes = plain "a" ∷ plain "b" ∷ plain "c" ∷ []

abbrev edges : List Edge
edges = record { from = "a"; target = "b" } ∷ []

fetch_flow-IsGraphOf_example :
    (m : NodeMap) × (fetch_flow nodes edges ≡ ok m) × IsGraphOf nodes edges m
fetch_flow-IsGraphOf_example =
    fetch_flow-IsGraphOf nodes edges (refl, refl, (refl, refl, (refl, refl, tt))) (refl, refl, tt)

fetched : fetch_flow nodes edges ≡ ok sample
unfolding fetch_flow get put
fetched = refl

sample-HasIds : HasIds sample
unfolding get
sample-HasIds k n e = ground (arith, e, eq_iff "a" k, eq_iff "b" k, eq_iff "c" k)

change_flow_info-disabled_example :
    is_disabled (change_flow_info (("a", "SUCCEEDED") ∷ ("b", "FAILED") ∷ []) sample).disabled "a"
    ≡ true
unfolding get
change_flow_info-disabled_example =
    change_flow_info-disabled (("a", "SUCCEEDED") ∷ ("b", "FAILED") ∷ []) sample "a" sample-HasIds

abbrev level_nodes : List LevelNode
level_nodes =
    record { id = "a"; level = 0 }
    ∷ record { id = "b"; level = 1 }
    ∷ record { id = "c"; level = 2 }
    ∷ []

abbrev long_edges : List Edge
long_edges = record { from = "a"; target = "c" } ∷ []

levels_are_set : (k : ℕ) → k < 2 → is_set (λ j. nodes_on j level_nodes) k ≡ true
levels_are_set k h = ground (arith, h)

long_edges-AreWithin : AreWithin (level_map level_nodes []) 2 long_edges
unfolding get level_map put
long_edges-AreWithin = ((0, 2, refl, refl, omega arith), tt)

layer_graph-layers_example :
    (layers : Layers) × (layer_graph level_nodes long_edges ≡ ok layers)
    × ((k : ℕ)
        → layers k ≡ nodes_on k level_nodes ++ dummies_on (level_map level_nodes []) k long_edges)
layer_graph-layers_example =
    layer_graph-layers level_nodes long_edges 2 levels_are_set long_edges-AreWithin

-- The drawn graph of one edge.
rendered :
    link_graph (plain "a" ∷ plain "b" ∷ []) edges
    ≡ ok (
        ("a", record (plain "a") { out_nodes = some ("b" ∷ []) })
        ∷ ("b", record (plain "b") { in_nodes = some ("a" ∷ []) })
        ∷ [])
unfolding link_graph get put
rendered = refl

unlinked_a : get "a" (build_node_map nodes []) ≡ some (plain "a")
unfolding build_node_map get put
unlinked_a = refl

unlinked_b : get "b" (build_node_map nodes []) ≡ some (plain "b")
unfolding build_node_map get put
unlinked_b = refl
