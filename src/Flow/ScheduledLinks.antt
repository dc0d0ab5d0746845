-- ===== src/Flow/ScheduledLinks.antt =====
-- The links that `show` of `AdvancedScheduleView` (src/web/js/azkaban.schedule.options.view.js) sets on the
-- nodes, and those of the drawn graph (src/web/js/azkaban.svg.graph.view.js).
use mathlib.Core.Path.{subst}
use azkaban.Prelude.{
  String, List, [], ◌∷◌, none, some, false, ◌≡◌, refl, ap, ◌∙◌, sym, str_eq, eq_iff, arith,
  if◌then◌else◌, inl, inr, Bool-cases,
}
use azkaban.Prelude.Dict.{get, put, get-put}
use azkaban.Flow.Graph.{JobNode, NodeMap, Outcome, ok, type_error, keys_of, ◌>>=◌}
use azkaban.Flow.Fetch.{Edge, add_key}
use azkaban.Flow.Link.{add_in_node, add_out_node, link_nodes}

-- The body of the loop over the edges: both nodes are looked up, `outNodes` is made where it is missing,
-- and the key is added; then the same for `inNodes`.
pub link_edge : Edge → NodeMap → Outcome NodeMap
link_edge e m = elim (get e.from m) [
  | none ↦ type_error m
  | some f ↦ elim (get e.target m) [
    | none ↦ type_error (put e.from (record f { out_nodes = some (keys_of f.out_nodes) }) m)
    | some _ ↦ add_out_node e.from e.target m >>= add_in_node e.target e.from
  ]
]

pub link_edges : List Edge → NodeMap → Outcome NodeMap
unfolding link_edge
link_edges [] m = ok m
link_edges (e ∷ es) m = link_edge e m >>= link_edges es

put_same : (k : String) (v w : JobNode) (m : NodeMap) → put k v (put k w m) ≡ put k v m
unfolding put
put_same k v w [] = ground (arith, eq_iff k k)
put_same k v w ((i, x) ∷ m) = ground (arith, put_same k v w m)

put_other :
    (j k : String) (v w x y : JobNode) (m : NodeMap)
    → str_eq j k ≡ false
    → get j m ≡ some x
    → get k m ≡ some y
    → put j v (put k w m) ≡ put k w (put j v m)
unfolding put get
put_other j k v w x y [] ne h g = ground (arith, h)
put_other j k v w x y ((i, z) ∷ m) ne h g = elim (Bool-cases (str_eq i j)) [
  | inl ij ↦ elim (Bool-cases (str_eq i k)) [
    | inl ik ↦ absurd (ground (arith, ne, ij, ik, eq_iff i j, eq_iff i k, eq_iff j k))
    | inr ik ↦ rw (ij, ik) (rw ij refl)
  ]
  | inr ij ↦ elim (Bool-cases (str_eq i k)) [
    | inl ik ↦ rw (ij, ik) (rw ij refl)
    | inr ik ↦
        rw (ij, ik)
          (rw ij (
            ap ((i, z) ∷◌) (
              put_other j k v w x y m ne (ap (λ b. if b then some z else get j m) (sym ij) ∙ h)
                (ap (λ b. if b then some z else get k m) (sym ik) ∙ g))))
  ]
]

-- Both ends of each edge are nodes.
abbrev pub AreNodes : List Edge → NodeMap → Type 0
AreNodes [] m = Unit {0}
AreNodes (e ∷ es) m =
    ((f : JobNode) × (t : JobNode) × (get e.from m ≡ some f) × (get e.target m ≡ some t))
    × AreNodes es m

abbrev with_in : String → JobNode → JobNode
with_in k n = record n { in_nodes = add_key k n.in_nodes }

abbrev with_out : String → JobNode → JobNode
with_out k n = record n { out_nodes = add_key k n.out_nodes }

add_in_node-found :
    (id k : String) (m : NodeMap) (n : JobNode)
    → get id m ≡ some n
    → add_in_node id k m ≡ ok (put id (with_in k n) m)
unfolding add_in_node
add_in_node-found id k m n e =
    ap
      (λ o. elim o as (λ _. Outcome NodeMap) [
        | none ↦ type_error m
        | some x ↦ ok (put id (with_in k x) m)
      ])
      e

add_out_node-found :
    (id k : String) (m : NodeMap) (n : JobNode)
    → get id m ≡ some n
    → add_out_node id k m ≡ ok (put id (with_out k n) m)
unfolding add_out_node
add_out_node-found id k m n e =
    ap
      (λ o. elim o as (λ _. Outcome NodeMap) [
        | none ↦ type_error m
        | some x ↦ ok (put id (with_out k x) m)
      ])
      e

get-put_same : (k : String) (v : JobNode) (m : NodeMap) → get k (put k v m) ≡ some v
get-put_same k v m = ground (arith, get-put k k v m, eq_iff k k)

get-put_other :
    (j k : String) (v : JobNode) (m : NodeMap) → str_eq k j ≡ false → get j (put k v m) ≡ get j m
get-put_other j k v m ne = ground (arith, get-put j k v m, ne)

-- the two orders of linking an edge whose ends are nodes
link_self :
    (a : String) (m : NodeMap) (f : JobNode)
    → get a m ≡ some f
    → (add_out_node a a m >>= add_in_node a a) ≡ (add_in_node a a m >>= add_out_node a a)
link_self a m f e =
    ap (◌>>= add_in_node a a) (add_out_node-found a a m f e)
    ∙ (add_in_node-found a a (put a (with_out a f) m) (with_out a f)
          (get-put_same a (with_out a f) m)
        ∙ (ap ok (
              put_same a (with_in a (with_out a f)) (with_out a f) m
              ∙ sym (put_same a (with_out a (with_in a f)) (with_in a f) m))
            ∙ (sym (
                  add_out_node-found a a (put a (with_in a f) m) (with_in a f)
                    (get-put_same a (with_in a f) m))
                ∙ sym (ap (◌>>= add_out_node a a) (add_in_node-found a a m f e)))))

str_eq_sym : (a b : String) → str_eq a b ≡ false → str_eq b a ≡ false
str_eq_sym a b h = ground (arith, h, eq_iff a b, eq_iff b a)

link_two :
    (a b : String) (m : NodeMap) (f t : JobNode)
    → str_eq a b ≡ false
    → get a m ≡ some f
    → get b m ≡ some t
    → (add_out_node a b m >>= add_in_node b a) ≡ (add_in_node b a m >>= add_out_node a b)
link_two a b m f t ne e g =
    ap (◌>>= add_in_node b a) (add_out_node-found a b m f e)
    ∙ (add_in_node-found b a (put a (with_out b f) m) t (get-put_other b a (with_out b f) m ne ∙ g)
        ∙ (ap ok (sym (put_other a b (with_out b f) (with_in a t) f t m ne e g))
            ∙ (sym (
                  add_out_node-found a b (put b (with_in a t) m) f
                    (get-put_other a b (with_in a t) m (str_eq_sym a b ne) ∙ e))
                ∙ sym (ap (◌>>= add_out_node a b) (add_in_node-found b a m t g)))))

link_ends :
    (a b : String) (m : NodeMap) (f t : JobNode)
    → get a m ≡ some f
    → get b m ≡ some t
    → (add_out_node a b m >>= add_in_node b a) ≡ (add_in_node b a m >>= add_out_node a b)
link_ends a b m f t h g = elim (Bool-cases (str_eq a b)) [
  | inr ne ↦ link_two a b m f t ne h g
  | inl same ↦
      subst
        (λ c. (add_out_node a c m >>= add_in_node c a) ≡ (add_in_node c a m >>= add_out_node a c))
        ((eq_iff a b).0 same) (link_self a m f h)
]

link_edge-drawn :
    (e : Edge) (m : NodeMap) (f t : JobNode)
    → get e.from m ≡ some f
    → get e.target m ≡ some t
    → link_edge e m ≡ (add_in_node e.target e.from m >>= add_out_node e.from e.target)
unfolding link_edge
link_edge-drawn e m f t h g =
    ap
      (λ o. elim o as (λ _. Outcome NodeMap) [
        | none ↦ type_error m
        | some x ↦ elim (get e.target m) as (λ _. Outcome NodeMap) [
          | none ↦ type_error (put e.from (record x { out_nodes = some (keys_of x.out_nodes) }) m)
          | some _ ↦ add_out_node e.from e.target m >>= add_in_node e.target e.from
        ]
      ])
      h
    ∙ (ap
          (λ o. elim o as (λ _. Outcome NodeMap) [
            | none ↦ type_error (put e.from (record f { out_nodes = some (keys_of f.out_nodes) }) m)
            | some _ ↦ add_out_node e.from e.target m >>= add_in_node e.target e.from
          ])
          g
        ∙ link_ends e.from e.target m f t h g)

-- A node stays one.
stays :
    (j k : String) (v x : JobNode) (m : NodeMap)
    → get j m ≡ some x
    → (y : JobNode) × (get j (put k v m) ≡ some y)
stays j k v x m h = elim (Bool-cases (str_eq k j)) [
  | inl same ↦ (v, get-put j k v m ∙ ap (λ b. if b then some v else get j m) same)
  | inr other ↦ (x, get-put j k v m ∙ (ap (λ b. if b then some v else get j m) other ∙ h))
]

AreNodes-put :
    (es : List Edge) (k : String) (v : JobNode) (m : NodeMap)
    → AreNodes es m
    → AreNodes es (put k v m)
AreNodes-put [] k v m h = tt
AreNodes-put (e ∷ es) k v m ((f, t, h, g), rest) =
    let (f', h') = stays e.from k v f m h in
    let (t', g') = stays e.target k v t m g in ((f', t', h', g'), AreNodes-put es k v m rest)

-- what the two calls for an edge leave
linked :
    (e : Edge) (m : NodeMap) (f t : JobNode)
    → get e.from m ≡ some f
    → get e.target m ≡ some t
    → (x : JobNode) × ((add_in_node e.target e.from m >>= add_out_node e.from e.target)
        ≡ ok (put e.from x (put e.target (with_in e.from t) m)))
linked e m f t h g =
    let (y, at) = stays e.from e.target (with_in e.from t) f m h in
    (
      with_out e.target y,
      ap (◌>>= add_out_node e.from e.target) (add_in_node-found e.target e.from m t g)
          ∙ add_out_node-found e.from e.target (put e.target (with_in e.from t) m) y at,
    )

-- Where both ends of every edge are nodes, the scheduling dialog links the nodes as the drawn graph does.
pub link_edges-link_nodes :
    (es : List Edge) (m : NodeMap) → AreNodes es m → link_edges es m ≡ link_nodes es m
unfolding link_edges link_nodes
link_edges-link_nodes [] m h = refl
link_edges-link_nodes (e ∷ es) m ((f, t, h, g), rest) =
    let (x, drawn) = linked e m f t h g in
    let m' = put e.from x (put e.target (with_in e.from t) m) in
    let known =
      AreNodes-put es e.from x (put e.target (with_in e.from t) m)
        (AreNodes-put es e.target (with_in e.from t) m rest) in
    ap (◌>>= link_edges es) (link_edge-drawn e m f t h g ∙ drawn)
    ∙ (link_edges-link_nodes es m' known ∙ sym (ap (◌>>= link_nodes es) drawn))
