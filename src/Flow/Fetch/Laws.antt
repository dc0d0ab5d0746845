-- ===== src/Flow/Fetch/Laws.antt =====
-- What the links of the fetched graph are.
use azkaban.Prelude.{
  String, List, [], ◌∷◌, ◌++◌, Option, none, some, Bool, true, false, ◌&&◌, ◌||◌, ◌≡◌, inl, inr,
  refl, ◌∙◌, contains, any, arith, str_eq, eq_iff, Option-cases,
}
use azkaban.Prelude.Dict.{get, put, get-put}
use azkaban.Flow.Graph.{JobNode, NodeMap, keys_of, ok}
use azkaban.Flow.Fetch.{
  Edge, add_key, add_in, add_out, link_edge, link_edges, build_node_map, fetch_flow,
}

-- `k in nodeMap[id].in`
abbrev has_in : NodeMap → String → String → Bool
has_in m id k = elim (get id m) [ none ↦ false | some n ↦ contains k (keys_of n.in_keys) ]

abbrev has_out : NodeMap → String → String → Bool
has_out m id k = elim (get id m) [ none ↦ false | some n ↦ contains k (keys_of n.out_keys) ]

abbrev pub is_node : NodeMap → String → Bool
is_node m id = elim (get id m) [ none ↦ false | some _ ↦ true ]

any-append {ℓ} :
    {A : Type ℓ} (p : A → Bool) (xs ys : List A) → any p (xs ++ ys) ≡ (any p xs || any p ys)
any-append p [] ys = refl
any-append p (x ∷ xs) ys = ground (arith, any-append p xs ys)

contains-add_key :
    (k j : String) (o : Option (List String))
    → contains j (keys_of (add_key k o)) ≡ (str_eq k j || contains j (keys_of o))
contains-add_key k j none = ground arith
contains-add_key k j (some ks) =
    ground (arith, eq_iff k j, any-append (λ (i : String). str_eq i j) ks (k ∷ []))

-- the edge `f → t` is one from `k` to `id`
abbrev joins : String → String → String → String → Bool
joins f t k id = str_eq f k && str_eq t id

-- `node_map` has the same nodes as `m`, and the links of `m` with one more edge.
record AddsIn (t f : String) (m m' : NodeMap) (id k : String) : Type 0 where
  same_nodes : is_node m' id ≡ is_node m id
  ins : has_in m' id k ≡ (joins f t k id || has_in m id k)
  outs : has_out m' id k ≡ has_out m id k

record AddsOut (t f : String) (m m' : NodeMap) (id k : String) : Type 0 where
  same_nodes : is_node m' id ≡ is_node m id
  ins : has_in m' id k ≡ has_in m id k
  outs : has_out m' id k ≡ (joins t f k id || has_out m id k)

module _ (t f : String) (m : NodeMap) (m' : NodeMap) (id k : String) where
  add_in-AddsIn : add_in t f m ≡ ok m' → AddsIn t f m m' id k
  unfolding add_in
  add_in-AddsIn h = elim (Option-cases (get t m)) [
    | inl e ↦ ground (arith, e)
    | inr (n, e) ↦ ground (
      arith,
      e,
      eq_iff t id,
      get-put id t (record n { in_keys = add_key f n.in_keys }) m,
      contains-add_key f k n.in_keys,
    )
  ]

  add_out-AddsOut : add_out f t m ≡ ok m' → AddsOut t f m m' id k
  unfolding add_out
  add_out-AddsOut h = elim (Option-cases (get f m)) [
    | inl e ↦ ground (arith, e)
    | inr (n, e) ↦ ground (
      arith,
      e,
      eq_iff f id,
      get-put id f (record n { out_keys = add_key t n.out_keys }) m,
      contains-add_key t k n.out_keys,
    )
  ]

add_in-total :
    (t f : String) (m : NodeMap) → is_node m t ≡ true → (m' : NodeMap) × (add_in t f m ≡ ok m')
unfolding add_in
add_in-total t f m h = elim (Option-cases (get t m)) [
  | inl e ↦ (m, ground (arith, e))
  | inr (n, e) ↦ (put t (record n { in_keys = add_key f n.in_keys }) m, ground (arith, e))
]

add_out-total :
    (f t : String) (m : NodeMap) → is_node m f ≡ true → (m' : NodeMap) × (add_out f t m ≡ ok m')
unfolding add_out
add_out-total t f m h = elim (Option-cases (get t m)) [
  | inl e ↦ (m, ground (arith, e))
  | inr (n, e) ↦ (put t (record n { out_keys = add_key f n.out_keys }) m, ground (arith, e))
]

-- some edge of the list comes from `k` and goes to `id`
abbrev edge_in : List Edge → String → String → Bool
edge_in es id k = any (λ e. joins e.from e.target k id) es

abbrev edge_out : List Edge → String → String → Bool
edge_out es id k = any (λ e. joins e.target e.from k id) es

abbrev HasEnds : NodeMap → List Edge → Type 0
HasEnds m [] = Unit {0}
HasEnds m (e ∷ es) = (is_node m e.target ≡ true) × (is_node m e.from ≡ true) × HasEnds m es

pub record Linked (es : List Edge) (m m' : NodeMap) (id k : String) : Type 0 where
  pub same_nodes : is_node m' id ≡ is_node m id
  pub ins : has_in m' id k ≡ (edge_in es id k || has_in m id k)
  pub outs : has_out m' id k ≡ (edge_out es id k || has_out m id k)

HasEnds-mono :
    (m m' : NodeMap) (es : List Edge)
    → ((id : String) → is_node m' id ≡ is_node m id)
    → HasEnds m es
    → HasEnds m' es
HasEnds-mono m m' [] h ends = tt
HasEnds-mono m m' (e ∷ es) h (t, f, rest) =
    (h e.target ∙ t, h e.from ∙ f, HasEnds-mono m m' es h rest)

link_edge-total :
    (e : Edge) (m : NodeMap)
    → is_node m e.target ≡ true
    → is_node m e.from ≡ true
    → (m' : NodeMap) × (link_edge e m ≡ ok m') × ((id k : String) → Linked (e ∷ []) m m' id k)
unfolding link_edge
link_edge-total e m ht hf =
    let (m1, e1) = add_in-total e.target e.from m ht in
    let ins = λ (id k : String). add_in-AddsIn e.target e.from m m1 id k e1 in
    let (m2, e2) = add_out-total e.from e.target m1 ((ins e.from e.from).same_nodes ∙ hf) in
    (m2, rw e1 e2, λ id k. ground (arith, ins id k, add_out-AddsOut e.target e.from m1 m2 id k e2))

link_edges-total :
    (es : List Edge) (m : NodeMap)
    → HasEnds m es
    → (m' : NodeMap) × (link_edges es m ≡ ok m') × ((id k : String) → Linked es m m' id k)
unfolding link_edges
link_edges-total [] m ends =
    (m, refl, λ id k. record { same_nodes = refl; ins = refl; outs = refl })
link_edges-total (e ∷ es) m (t, f, rest) =
    let (m1, e1, one) = link_edge-total e m t f in
    let (m2, e2, more) =
      link_edges-total es m1 (HasEnds-mono m m1 es (λ id. (one id id).same_nodes) rest) in
    (m2, rw e1 e2, λ id k. ground (arith, one id k, more id k))

-- The nodes as they come from the server have no links.
abbrev IsFresh : List JobNode → Type 0
IsFresh [] = Unit {0}
IsFresh (n ∷ ns) = (n.in_keys ≡ none) × (n.out_keys ≡ none) × IsFresh ns

abbrev is_listed : List JobNode → String → Bool
is_listed ns id = any (λ n. str_eq n.id id) ns

record Unlinked (m : NodeMap) : Type 0 where
  ins : (id k : String) → has_in m id k ≡ false
  outs : (id k : String) → has_out m id k ≡ false

put-Unlinked :
    (n : JobNode) (m : NodeMap)
    → n.in_keys ≡ none
    → n.out_keys ≡ none
    → Unlinked m
    → Unlinked (put n.id n m)
put-Unlinked n m i o u = record {
  ins = λ id k. ground (arith, get-put id n.id n m, u.ins id k);
  outs = λ id k. ground (arith, get-put id n.id n m, u.outs id k);
}

build_node_map-Unlinked :
    (ns : List JobNode) (m : NodeMap) → IsFresh ns → Unlinked m → Unlinked (build_node_map ns m)
unfolding build_node_map
build_node_map-Unlinked [] m h u = u
build_node_map-Unlinked (n ∷ ns) m (i, o, rest) u =
    build_node_map-Unlinked ns (put n.id n m) rest (put-Unlinked n m i o u)

is_node-build_node_map :
    (ns : List JobNode) (m : NodeMap) (id : String)
    → is_node (build_node_map ns m) id ≡ (is_listed ns id || is_node m id)
unfolding build_node_map
is_node-build_node_map [] m id = refl
is_node-build_node_map (n ∷ ns) m id =
    ground (arith, is_node-build_node_map ns (put n.id n m) id, get-put id n.id n m)

abbrev EndsListed : List JobNode → List Edge → Type 0
EndsListed ns [] = Unit {0}
EndsListed ns (e ∷ es) =
    (is_listed ns e.target ≡ true) × (is_listed ns e.from ≡ true) × EndsListed ns es

EndsListed-HasEnds :
    (ns : List JobNode) (es : List Edge) → EndsListed ns es → HasEnds (build_node_map ns []) es
unfolding get
EndsListed-HasEnds ns [] h = tt
EndsListed-HasEnds ns (e ∷ es) (t, f, rest) = (
  ground (arith, is_node-build_node_map ns [] e.target),
  ground (arith, is_node-build_node_map ns [] e.from),
  EndsListed-HasEnds ns es rest,
)

-- The links that the map of a fetched flow holds.
pub record IsGraphOf (ns : List JobNode) (es : List Edge) (m : NodeMap) : Type 0 where
  pub nodes : (id : String) → is_node m id ≡ is_listed ns id
  pub ins : (id k : String) → has_in m id k ≡ edge_in es id k
  pub outs : (id k : String) → has_out m id k ≡ edge_out es id k

-- When the nodes come without links and both ends of every edge are listed, `fetchFlow` builds the
-- node map without an error: its nodes are those listed, `k` is among the `in` of `id` exactly when
-- some edge goes from `k` to `id`, and among its `out` exactly when some edge goes from `id` to `k`.
pub fetch_flow-IsGraphOf :
    (ns : List JobNode) (es : List Edge)
    → IsFresh ns
    → EndsListed ns es
    → (m : NodeMap) × (fetch_flow ns es ≡ ok m) × IsGraphOf ns es m
unfolding fetch_flow get
fetch_flow-IsGraphOf ns es fresh ends =
    let none_yet =
      build_node_map-Unlinked ns [] fresh (record { ins = λ id k. refl; outs = λ id k. refl }) in
    let (m, e, linked) =
      link_edges-total es (build_node_map ns []) (EndsListed-HasEnds ns es ends) in
    (
      m,
      e,
      record {
        nodes = λ id. ground (arith, linked id id, is_node-build_node_map ns [] id);
        ins = λ id k. ground (arith, linked id k, none_yet.ins id k);
        outs = λ id k. ground (arith, linked id k, none_yet.outs id k);
      },
    )
