-- ===== src/Staging/Drawing.antt =====
-- Drawing the graph of the staging page: `render`, `drawEdge`, `drawNode` and `resetPanZoom` of
-- `SvgGraphView` (src/web/js/azkaban.staging.flow.view.js). Coordinates are floating-point numbers, as
-- `layoutGraph` leaves them: their type and what the code does with them are parameters. Widths that the
-- browser measures of a text are not modelled. `addBounds` is that of Navigate.Bounds.
pub mod Laws
use azkaban.Prelude.{
  ℕ, suc, ◌+◌, String, List, [], ◌∷◌, ◌++◌, map, Option, none, some, Bool, true, false, ◌≡◌, refl,
  sym, ◌∙◌, ap, ◌&&◌, all, length, length-append, str_eq, if◌then◌else◌, arith, inl, inr,
  Bool-cases, Option-cases,
}
use azkaban.Prelude.Dict.{get, put}
use azkaban.Flow.Graph.{Outcome, ok, type_error, stack_overflow, ◌>>=◌}
use azkaban.Navigate.Bounds.{
  Box, Bounds, unset, add_bounds, add_all, widen, AllCovered, AreTruthy, add_all-AllCovered,
}

pub record Node {ℓ} (A : Type ℓ) : Type ℓ where
  pub id : String
  pub label : String
  pub x : A
  pub y : A

pub record Edge {ℓ} (A : Type ℓ) : Type ℓ where
  pub from : String
  pub target : String
  pub guides : Option (List (A × A))

-- what is appended to the drawing: for an edge the points of its line, for a node its place and texts
pub data Shape {ℓ} (A : Type ℓ) : Type ℓ where
  polyline : List (A × A) → Shape A
  line : A × A → A × A → Shape A
  group : String → String → A × A → Shape A

pub record Drawing {ℓ} (A : Type ℓ) : Type ℓ where
  pub shapes : List (Shape A)
  pub bounds : Bounds A

module _ {A : Type 0} where
  -- `this.nodes`
  unfoldable pub node_table : List (Node A) → List (String × Node A) → List (String × Node A)
  node_table [] m = m
  node_table (n ∷ ns) m = node_table ns (put n.id n m)

  abbrev pub position : Node A → A × A
  position n = (n.x, n.y)

  abbrev pub edge_shape : Node A → Node A → Option (List (A × A)) → Shape A
  edge_shape start end none = line (position start) (position end)
  edge_shape start end (some guides) = polyline (position start ∷ guides ++ position end ∷ [])

  -- `drawEdge`; a missing end raises an error before anything is appended
  unfoldable pub draw_edge :
      List (String × Node A) → Edge A → List (Shape A) → Outcome (List (Shape A))
  draw_edge nodes e shapes = elim (get e.from nodes) [
    | none ↦ type_error shapes
    | some start ↦ elim (get e.target nodes) [
      | none ↦ type_error shapes
      | some end ↦ ok (shapes ++ edge_shape start end e.guides ∷ [])
    ]
  ]

  unfoldable pub draw_edges :
      List (String × Node A) → List (Edge A) → List (Shape A) → Outcome (List (Shape A))
  unfolding draw_edge
  draw_edges nodes [] shapes = ok shapes
  draw_edges nodes (e ∷ es) shapes = draw_edge nodes e shapes >>= draw_edges nodes es

  module _ (lt : A → A → Bool) (truthy : A → Bool) (less_ten more_ten : A → A) where
    abbrev pub box_of : Node A → Box A
    box_of n = record {
      min_x = less_ten n.x;
      min_y = less_ten n.y;
      max_x = more_ten n.x;
      max_y = more_ten n.y;
    }

    -- the loop of `drawNode`
    unfoldable pub draw_nodes : List (Node A) → Drawing A → Drawing A
    unfolding add_bounds
    draw_nodes [] d = d
    draw_nodes (n ∷ ns) d = draw_nodes ns (record {
      shapes = d.shapes ++ group n.id n.label (position n) ∷ [];
      bounds = add_bounds lt truthy d.bounds (box_of n);
    })

    abbrev pub after_edges : List (Node A) → Outcome (List (Shape A)) → Outcome (Drawing A)
    after_edges ns (ok shapes) = ok (draw_nodes ns (record { shapes = shapes; bounds = unset }))
    after_edges ns (type_error shapes) = type_error (record { shapes = shapes; bounds = unset })
    after_edges ns (stack_overflow shapes) =
        stack_overflow (record { shapes = shapes; bounds = unset })

    -- `render` up to the margin of the bounds, on an empty drawing; without nodes nothing is drawn
    unfoldable pub render : List (Node A) → List (Edge A) → Outcome (Drawing A)
    unfolding node_table draw_edges draw_nodes
    render [] es = ok (record { shapes = []; bounds = unset })
    render (n ∷ ns) es = after_edges (n ∷ ns) (draw_edges (node_table (n ∷ ns) []) es [])

    -- `graphBounds` and the box that `resetPanZoom` moves the view to: its corner, width and height
    unfoldable pub reset_pan_zoom :
        (A → A) → (A → A) → A → A → (A → A → A) → Bounds A → (A × A) × (A × A)
    unfolding widen
    reset_pan_zoom less_margin more_margin minus_margin margin minus bounds =
        let b = widen lt truthy less_margin more_margin minus_margin margin bounds in
        ((b.min_x, b.min_y), (minus b.max_x b.min_x, minus b.max_y b.min_y))
