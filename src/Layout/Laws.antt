-- ===== src/Layout/Laws.antt =====
-- What stands on the layers of the graph's layout (src/web/js/azkaban.layout.js).
use azkaban.Prelude.{
  ℕ, zero, suc, ◌+◌, ◌-◌, ◌≤◌, ◌<◌, String, List, [], ◌∷◌, ◌++◌, Option, some, Bool, true, false,
  ◌≡◌, refl, ◌&&◌, if◌then◌else◌, ltb, leb, ◌==◌, arith, ap, sym, ◌∙◌, inl, inr, Bool-cases,
}
use azkaban.Prelude.Sort.{append_assoc, append_nil}
use azkaban.Prelude.Dict.{get}
use azkaban.Flow.Graph.{ok, type_error, ◌>>=◌}
use azkaban.Flow.Fetch.{Edge}
use azkaban.Layout.{
  LevelNode, LayerNode, real, dummy, Layers, push, assign_layers, level_map, non_empty, is_set,
  add_dummies, add_between, add_edge, add_edges, layer_graph,
}

-- What stands on a layer: its nodes, then a dummy node for each edge that crosses it.
abbrev pub nodes_on : ℕ → List LevelNode → List LayerNode
nodes_on k [] = []
nodes_on k (n ∷ ns) = if n.level == k then real n.id ∷ nodes_on k ns else nodes_on k ns

abbrev pub lies_between : Option ℕ → Option ℕ → ℕ → Bool
lies_between (some src) (some dest) k = ltb src k && ltb k dest
lies_between _ _ k = false

abbrev pub crosses : List (String × ℕ) → ℕ → Edge → Bool
crosses m k e = lies_between (get e.from m) (get e.target m) k

abbrev pub dummies_on : List (String × ℕ) → ℕ → List Edge → List LayerNode
dummies_on m k [] = []
dummies_on m k (e ∷ es) =
    if crosses m k e then dummy e.from e.target ∷ dummies_on m k es else dummies_on m k es

-- The ends of each edge are nodes, and the target is not below the lowest layer.
abbrev pub AreWithin : List (String × ℕ) → ℕ → List Edge → Type 0
AreWithin m top [] = Unit {0}
AreWithin m top (e ∷ es) =
    ((src : ℕ) × (dest : ℕ) × (get e.from m ≡ some src)
      × (get e.target m ≡ some dest)
      × (dest ≤ top))
    × AreWithin m top es

assign_layers_lem :
    (nodes : List LevelNode) (layers : Layers) (k : ℕ)
    → assign_layers nodes layers k ≡ layers k ++ nodes_on k nodes
unfolding assign_layers
assign_layers_lem [] layers k = sym (append_nil (layers k))
assign_layers_lem (n ∷ ns) layers k = elim (Bool-cases (n.level == k)) [
  | inl here ↦ ground (
    arith,
    here,
    assign_layers_lem ns (push n.level (real n.id) layers) k,
    append_assoc (layers k) (real n.id ∷ []) (nodes_on k ns),
  )
  | inr other ↦ ground (arith, other, assign_layers_lem ns (push n.level (real n.id) layers) k)
]

non_empty-append : (xs ys : List LayerNode) → non_empty xs ≡ true → non_empty (xs ++ ys) ≡ true
non_empty-append [] ys h = ground (arith, h)
non_empty-append (x ∷ xs) ys h = refl

then_branch : {A : Type 0} (b : Bool) (x y : A) → b ≡ true → (if b then x else y) ≡ x
then_branch true x y h = refl
then_branch false x y h = absurd (ground (arith, h))

append-if :
    (c : Bool) (xs : List LayerNode) (d : LayerNode) (ds : List LayerNode)
    → (xs ++ (if c then d ∷ [] else [])) ++ ds ≡ xs ++ (if c then d ∷ ds else ds)
append-if true xs d ds = append_assoc xs (d ∷ []) ds
append-if false xs d ds = ap (λ ys. ys ++ ds) (append_nil xs)

abbrev between : ℕ → ℕ → ℕ → LayerNode → List LayerNode
between j rounds k n = if leb j k && ltb k (j + rounds) then n ∷ [] else []

add_dummies_lem :
    (rounds j : ℕ) (n : LayerNode) (layers : Layers)
    → ((k : ℕ) → j ≤ k → k < j + rounds → is_set layers k ≡ true)
    → (layers' : Layers) × (add_dummies rounds j n layers ≡ ok layers')
      × ((k : ℕ) → layers' k ≡ layers k ++ between j rounds k n)
unfolding add_dummies
add_dummies_lem zero j n layers set = (layers, refl, λ k. ground (arith, append_nil (layers k)))
add_dummies_lem (suc rounds) j n layers set =
    let (layers', done, e) = add_dummies_lem rounds (suc j) n (push j n layers) (λ k a b.
      let here = set k (omega (arith, a)) (omega (arith, b)) in
      ground (arith, here, non_empty-append (layers k) (n ∷ []) here)) in
    (
      layers',
      then_branch (is_set layers j) (add_dummies rounds (suc j) n (push j n layers))
            (type_error layers) (set j (omega arith) (omega arith))
          ∙ done,
      λ k. e k ∙ ground (arith, append_nil (layers k ++ n ∷ [])),
    )

same_test :
    (src dest k : ℕ)
    → (leb (suc src) k && ltb k (suc src + (dest - suc src))) ≡ (ltb src k && ltb k dest)
same_test src dest k = ground arith

add_edge_lem :
    (m : List (String × ℕ)) (e : Edge) (layers : Layers) (src dest : ℕ)
    → get e.from m ≡ some src
    → get e.target m ≡ some dest
    → ((k : ℕ) → k < dest → is_set layers k ≡ true)
    → (layers' : Layers) × (add_edge m e layers ≡ ok layers')
      × ((k : ℕ)
          → layers' k ≡ layers k ++ (if crosses m k e then dummy e.from e.target ∷ [] else []))
unfolding add_edge add_between
add_edge_lem m e layers src dest from to set =
    let (layers', done, at) =
      add_dummies_lem (dest - suc src) (suc src) (dummy e.from e.target) layers
        (λ k a b. set k (omega (arith, a, b))) in
    (
      layers',
      ap (λ o. add_between o (get e.target m) (dummy e.from e.target) layers) from
          ∙ ap (λ o. add_between (some src) o (dummy e.from e.target) layers) to
          ∙ done,
      λ k.
          at k
          ∙ ap (λ c. layers k ++ (if c then dummy e.from e.target ∷ [] else []))
              (same_test src dest k
                ∙ sym (
                    ap (λ o. lies_between o (get e.target m) k) from
                    ∙ ap (λ o. lies_between (some src) o k) to)),
    )

add_edges_lem :
    (m : List (String × ℕ)) (top : ℕ) (es : List Edge) (layers : Layers)
    → ((k : ℕ) → k < top → is_set layers k ≡ true)
    → AreWithin m top es
    → (layers' : Layers) × (add_edges m es layers ≡ ok layers')
      × ((k : ℕ) → layers' k ≡ layers k ++ dummies_on m k es)
unfolding add_edges
add_edges_lem m top [] layers set h = (layers, refl, λ k. sym (append_nil (layers k)))
add_edges_lem m top (e ∷ es) layers set ((src, dest, from, to, b), h) =
    let (mid, done, at) =
      add_edge_lem m e layers src dest from to (λ k a. set k (omega (arith, a, b))) in
    let (last, all_done, at') =
      add_edges_lem m top es mid
        (λ k a.
          ap non_empty (at k)
          ∙ non_empty-append (layers k) (if crosses m k e then dummy e.from e.target ∷ [] else [])
              (set k a))
        h in
    (
      last,
      ap (λ o. o >>= add_edges m es) done ∙ all_done,
      λ k.
          at' k
          ∙ ap (λ xs. xs ++ dummies_on m k es) (at k)
          ∙ append-if (crosses m k e) (layers k) (dummy e.from e.target) (dummies_on m k es),
    )

-- Where every layer above the lowest has a node and the edges' ends are nodes of the graph, the
-- layers are set without an error, and on each stand its nodes, in order, and then a dummy node for
-- each edge from a layer above to a layer below, in order.
pub layer_graph-layers :
    (nodes : List LevelNode) (edges : List Edge) (top : ℕ)
    → ((k : ℕ) → k < top → is_set (λ j. nodes_on j nodes) k ≡ true)
    → AreWithin (level_map nodes []) top edges
    → (layers : Layers) × (layer_graph nodes edges ≡ ok layers)
      × ((k : ℕ) → layers k ≡ nodes_on k nodes ++ dummies_on (level_map nodes []) k edges)
unfolding layer_graph
layer_graph-layers nodes edges top set within =
    let (layers, done, e) =
      add_edges_lem (level_map nodes []) top edges (assign_layers nodes (λ _. []))
        (λ k b. ap non_empty (assign_layers_lem nodes (λ _. []) k) ∙ set k b) within in
    (
      layers,
      done,
      λ k.
          e k
          ∙ ap (λ xs. xs ++ dummies_on (level_map nodes []) k edges)
              (assign_layers_lem nodes (λ _. []) k),
    )
