-- ===== src/Staging/Drawing/Laws.antt =====
-- What the staging page draws of a graph (src/web/js/azkaban.staging.flow.view.js), and where it fails.
use azkaban.Prelude.{
  Option, String, List, [], ◌∷◌, ◌++◌, map, none, some, Bool, true, false, ◌≡◌, refl, sym, ◌∙◌, ap,
  ◌&&◌, all, arith, inl, inr, Bool-cases, Option-cases,
}
use azkaban.Prelude.Dict.{get}
use azkaban.Prelude.Sort.{append_assoc, append_nil}
use azkaban.Flow.Graph.{ok, type_error, ◌>>=◌}
use azkaban.Navigate.Bounds.{
  Box, unset, add_bounds, add_all, AllCovered, AreTruthy, add_all-AllCovered,
}
use azkaban.Staging.Drawing.{
  polyline, line, Node, Edge, Shape, group, Drawing, node_table, position, edge_shape, draw_edge,
  draw_edges, box_of, draw_nodes, after_edges, render,
}

module _ {A : Type 0} where
  abbrev pub is_node : List (String × Node A) → String → Bool
  is_node m id = elim (get id m) [ none ↦ false | some _ ↦ true ]

  -- Both ends of the edge are nodes.
  abbrev pub has_ends : List (String × Node A) → Edge A → Bool
  has_ends m e = is_node m e.from && is_node m e.target

  -- the points that a shape goes through, and those that an edge is led through
  abbrev pub points_of : Shape A → List (A × A)
  points_of (polyline points) = points
  points_of (line from to) = from ∷ to ∷ []
  points_of (group _ _ _) = []

  abbrev pub guides_of : Option (List (A × A)) → List (A × A)
  guides_of none = []
  guides_of (some guides) = guides

  -- The shape leads from the place of the edge's first node, through its guides, to that of its second.
  abbrev pub Draws : List (String × Node A) → Edge A → Shape A → Type 0
  Draws m e shape =
      (start : Node A) × (end : Node A) × (get e.from m ≡ some start)
      × (get e.target m ≡ some end)
      × (points_of shape ≡ (start.x, start.y) ∷ guides_of e.guides ++ (end.x, end.y) ∷ [])

  abbrev pub AreDrawn : List (String × Node A) → List (Edge A) → List (Shape A) → Type 0
  AreDrawn m [] [] = Unit {0}
  AreDrawn m [] (_ ∷ _) = ⊥
  AreDrawn m (e ∷ es) [] = ⊥
  AreDrawn m (e ∷ es) (shape ∷ shapes) = Draws m e shape × AreDrawn m es shapes

  points_of-edge_shape :
      (start end : Node A) (guides : Option (List (A × A)))
      → points_of (edge_shape start end guides)
        ≡ (start.x, start.y) ∷ guides_of guides ++ (end.x, end.y) ∷ []
  points_of-edge_shape start end none = refl
  points_of-edge_shape start end (some guides) = refl

  draw_edge-ok :
      (m : List (String × Node A)) (e : Edge A) (shapes : List (Shape A))
      → has_ends m e ≡ true
      → (shape : Shape A) × (draw_edge m e shapes ≡ ok (shapes ++ shape ∷ [])) × Draws m e shape
  unfolding draw_edge
  draw_edge-ok m e shapes h = elim (Option-cases (get e.from m)) [
    | inl gone ↦ absurd (ground (arith, h, gone))
    | inr (start, at) ↦ elim (Option-cases (get e.target m)) [
      | inl gone ↦ absurd (ground (arith, h, gone, at))
      | inr (end, to) ↦ (
        edge_shape start end e.guides,
        rw (at, draw_edge) (rw to refl),
        (start, end, at, to, points_of-edge_shape start end e.guides),
      )
    ]
  ]

  draw_edge-type_error :
      (m : List (String × Node A)) (e : Edge A) (shapes : List (Shape A))
      → has_ends m e ≡ false
      → draw_edge m e shapes ≡ type_error shapes
  unfolding draw_edge
  draw_edge-type_error m e shapes h = elim (Option-cases (get e.from m)) [
    | inl gone ↦ rw (gone, draw_edge) refl
    | inr (start, at) ↦ elim (Option-cases (get e.target m)) [
      | inl gone ↦ rw (at, draw_edge) (rw gone refl)
      | inr (end, to) ↦ absurd (ground (arith, h, at, to))
    ]
  ]

  draw_edges-ok :
      (m : List (String × Node A)) (es : List (Edge A)) (shapes : List (Shape A))
      → all (has_ends m) es ≡ true
      → (drawn : List (Shape A)) × (draw_edges m es shapes ≡ ok (shapes ++ drawn))
        × AreDrawn m es drawn
  unfolding draw_edges
  draw_edges-ok m [] shapes h = ([], ap ok (sym (append_nil shapes)), tt)
  draw_edges-ok m (e ∷ es) shapes h =
      let (shape, now, is) = draw_edge-ok m e shapes (ground (arith, h)) in
      let (drawn, later, are) = draw_edges-ok m es (shapes ++ shape ∷ []) (ground (arith, h)) in
      (
        shape ∷ drawn,
        ap (◌>>= draw_edges m es) now ∙ (later ∙ ap ok (append_assoc shapes (shape ∷ []) drawn)),
        (is, are),
      )

  draw_edges-type_error :
      (m : List (String × Node A)) (es : List (Edge A)) (shapes : List (Shape A))
      → all (has_ends m) es ≡ false
      → (left : List (Shape A)) × (draw_edges m es shapes ≡ type_error left)
  unfolding draw_edges
  draw_edges-type_error m [] shapes h = absurd (ground (arith, h))
  draw_edges-type_error m (e ∷ es) shapes h = elim (Bool-cases (has_ends m e)) [
    | inl there ↦
        let (shape, now, _) = draw_edge-ok m e shapes there in
        let (left, later) =
          draw_edges-type_error m es (shapes ++ shape ∷ []) (ground (arith, h, there)) in
        (left, ap (◌>>= draw_edges m es) now ∙ later)
    | inr missing ↦ (shapes, ap (◌>>= draw_edges m es) (draw_edge-type_error m e shapes missing))
  ]

  abbrev pub group_of : Node A → Shape A
  group_of n = group n.id n.label (position n)

  module _ (lt : A → A → Bool) (truthy : A → Bool) (less_ten more_ten : A → A) where
    abbrev pub boxes : List (Node A) → List (Box A)
    boxes ns = map (box_of lt truthy less_ten more_ten) ns

    draw_nodes-all :
        (ns : List (Node A)) (d : Drawing A)
        → draw_nodes lt truthy less_ten more_ten ns d ≡ record {
          shapes = d.shapes ++ map group_of ns;
          bounds = add_all lt truthy d.bounds (boxes ns);
        }
    unfolding draw_nodes add_all
    draw_nodes-all [] d = ap (λ s. record d { shapes = s }) (sym (append_nil d.shapes))
    draw_nodes-all (n ∷ ns) d =
        draw_nodes-all ns (record {
          shapes = d.shapes ++ group_of n ∷ [];
          bounds = add_bounds lt truthy d.bounds (box_of lt truthy less_ten more_ten n);
        })
        ∙ ap
            (λ s. record {
              shapes = s;
              bounds =
                  add_all lt truthy
                    (add_bounds lt truthy d.bounds (box_of lt truthy less_ten more_ten n))
                    (boxes ns);
            })
            (append_assoc d.shapes (group_of n ∷ []) (map group_of ns))

    -- `render` of a graph with nodes: where both ends of every edge are nodes it ends without an error,
    -- with the edges in their order, each from the place of its first node through its guides to that
    -- of its second, and above them every node in its order; if the coordinates are totally ordered and none of the nodes' boxes has one that is
    -- 0, the bounds cover the box of every node. Where an edge has another end it raises a TypeError and
    -- no node is drawn.
    pub render-AreDrawn :
        (irrefl : (a : A) → lt a a ≡ false)
        (trans : (a b c : A) → lt a b ≡ false → lt b c ≡ false → lt a c ≡ false)
        (asymm : (a b : A) → lt a b ≡ true → lt b a ≡ false) (n : Node A) (ns : List (Node A))
        (es : List (Edge A))
        → (all (has_ends (node_table (n ∷ ns) [])) es ≡ true
            → (d : Drawing A) × (drawn : List (Shape A)) × (render lt truthy less_ten more_ten
                  (n ∷ ns)
                  es
                ≡ ok d)
              × (d.shapes ≡ drawn ++ map group_of (n ∷ ns))
              × AreDrawn (node_table (n ∷ ns) []) es drawn
              × (AreTruthy lt truthy (boxes (n ∷ ns))
                  → AllCovered lt truthy d.bounds (boxes (n ∷ ns))))
          × (all (has_ends (node_table (n ∷ ns) [])) es ≡ false
              → (left : List (Shape A)) × (render lt truthy less_ten more_ten (n ∷ ns) es
                  ≡ type_error (record { shapes = left; bounds = unset })))
    unfolding render
    render-AreDrawn irrefl trans asymm n ns es = (
      λ h.
          let (drawn, e, are) = draw_edges-ok (node_table (n ∷ ns) []) es [] h in
          (
            record {
              shapes = drawn ++ map group_of (n ∷ ns);
              bounds = add_all lt truthy unset (boxes (n ∷ ns));
            },
            drawn,
            ap (after_edges lt truthy less_ten more_ten (n ∷ ns)) e
                ∙ ap ok (draw_nodes-all (n ∷ ns) (record { shapes = drawn; bounds = unset })),
            refl,
            are,
            λ t. add_all-AllCovered lt truthy irrefl trans asymm (boxes (n ∷ ns)) t,
          ),
      λ h.
          let (left, e) = draw_edges-type_error (node_table (n ∷ ns) []) es [] h in
          (left, ap (after_edges lt truthy less_ten more_ten (n ∷ ns)) e),
    )
