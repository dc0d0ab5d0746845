-- ===== src/Flow/Disable/Laws.antt =====
-- What the actions of the context menu and of the execution dialog do to the flags.
use azkaban.Prelude.{
  ℕ, ◌<◌, String, List, [], ◌∷◌, some, Bool, true, false, ◌≡◌, ◌↔◌, refl, ◌⊎◌, inl, inr, contains,
  str_eq, arith, eq_iff, if◌then◌else◌,
}
use azkaban.Prelude.Dict.{get, put, keys, get-put}
use azkaban.Flow.Graph.{JobNode, NodeMap, keys_of, ok}
use azkaban.Flow.Disable.{
  Flags, is_disabled, GraphModel, set_disabled, recurse_all_ancestors, recurse_all_descendents,
  mark_all, touch_node, touch_parents, touch_children, enable_all, disable_all, touch_ancestors,
  touch_descendents, show_execute_job,
}
use azkaban.Flow.Disable.Recurse.{Marked, Reaches, IsRanked, recurse_all-Marked}

-- `j` is one of the jobs that must have run before `id`, or one of those that wait for it.
abbrev pub Ancestor : NodeMap → String → String → Type 0
Ancestor nodes id j = Reaches (λ n. n.in_keys) nodes id j

abbrev pub Descendent : NodeMap → String → String → Type 0
Descendent nodes id j = Reaches (λ n. n.out_keys) nodes id j

-- In a graph without cycles whose links lead to nodes, `touchAncestors` on a job gives the flag to
-- every ancestor of the job, leaves the flag of every other job, and triggers one change. A call
-- stack deeper than the job's rank is enough.
pub touch_ancestors-Marked :
    (rank : String → ℕ) (fuel : ℕ) (id : String) (disable : Bool) (g : GraphModel) (n : JobNode)
    → IsRanked (λ n. n.in_keys) g.nodes rank
    → rank id < fuel
    → get id g.nodes ≡ some n
    → (m : Flags) × (touch_ancestors fuel id disable g ≡ ok (set_disabled g m))
      × Marked (Ancestor g.nodes id) disable g.disabled m
unfolding touch_ancestors recurse_all_ancestors
touch_ancestors-Marked rank fuel id disable g n ranked h e =
    let (m, done, marked) =
      recurse_all-Marked (λ n. n.in_keys) g.nodes disable rank fuel id n ranked h e g.disabled in
    (m, rw done refl, marked)

-- In a graph without cycles whose links lead to nodes, `touchDescendents` on a job gives the flag to
-- every descendent of the job, leaves the flag of every other job, and triggers one change. A call
-- stack deeper than the job's rank is enough.
pub touch_descendents-Marked :
    (rank : String → ℕ) (fuel : ℕ) (id : String) (disable : Bool) (g : GraphModel) (n : JobNode)
    → IsRanked (λ n. n.out_keys) g.nodes rank
    → rank id < fuel
    → get id g.nodes ≡ some n
    → (m : Flags) × (touch_descendents fuel id disable g ≡ ok (set_disabled g m))
      × Marked (Descendent g.nodes id) disable g.disabled m
unfolding touch_descendents recurse_all_descendents
touch_descendents-Marked rank fuel id disable g n ranked h e =
    let (m, done, marked) =
      recurse_all-Marked (λ n. n.out_keys) g.nodes disable rank fuel id n ranked h e g.disabled in
    (m, rw done refl, marked)

pub get-mark_all :
    (d : Bool) (ks : List String) (m : Flags) (j : String)
    → get j (mark_all d ks m) ≡ (if contains j ks then some d else get j m)
unfolding mark_all
get-mark_all d [] m j = refl
get-mark_all d (k ∷ ks) m j = ground (arith, get-mark_all d ks (put k d m) j, get-put j k d m)

contains-keys {ℓ} :
    {V : Type ℓ} (j : String) (m : List (String × V)) (v : V)
    → get j m ≡ some v
    → contains j (keys m) ≡ true
unfolding get
contains-keys j [] v h = cc
contains-keys j ((k, w) ∷ m) v h = ground (arith, contains-keys j m v)

-- `disableAll` disables every node of the graph, and `enableAll` leaves no job disabled.
pub disable_all-enable_all :
    (g : GraphModel) (j : String)
    → ((n : JobNode) → get j g.nodes ≡ some n → is_disabled (disable_all g).disabled j ≡ true)
      × (is_disabled (enable_all g).disabled j ≡ false)
unfolding disable_all enable_all get
disable_all-enable_all g j = (
  λ n e.
      let listed = contains-keys j g.nodes n e in
      ground (arith, listed, get-mark_all true (keys g.nodes) g.disabled j),
  refl,
)

runs_iff :
    (g : GraphModel) (job j : String) (m' : Flags) (n' : JobNode)
    → get j g.node_map ≡ some n'
    → Marked
        (Ancestor g.node_map job)
        false
        (put job false (mark_all true (keys g.node_map) g.disabled))
        m'
    → (is_disabled m' j ≡ false) ↔ ((job ≡ j) ⊎ Ancestor g.node_map job j)
runs_iff g job j m' n' e' marked =
    let before = get-put j job false (mark_all true (keys g.node_map) g.disabled) in
    let all = get-mark_all true (keys g.node_map) g.disabled j in
    let listed = contains-keys j g.node_map n' e' in
    (
      λ runs. elim (marked.none_else j) [
        | inr (_, r) ↦ inr r
        | inl same ↦ inl (ground (arith, runs, same, before, all, listed, eq_iff job j))
      ],
      λ from. elim from [
        | inr r ↦ ground (arith, marked.all_of j r)
        | inl is_job ↦ elim (marked.none_else j) [
          | inr (flag, _) ↦ ground (arith, flag)
          | inl same ↦ ground (arith, same, before, is_job, eq_iff job j)
        ]
      ],
    )

-- After "Execute job" with dependencies, in a graph without cycles, the jobs that run, those not
-- disabled, are the job and its ancestors; every other job of the graph is disabled.
pub show_execute_job-runs :
    (rank : String → ℕ) (fuel : ℕ) (job : String) (g : GraphModel) (n : JobNode)
    → IsRanked (λ n. n.in_keys) g.node_map rank
    → rank job < fuel
    → get job g.node_map ≡ some n
    → (g' : GraphModel) × (show_execute_job fuel job true g ≡ ok g')
      × ((j : String) (n' : JobNode)
          → get j g.node_map ≡ some n'
          → (is_disabled g'.disabled j ≡ false) ↔ ((job ≡ j) ⊎ Ancestor g.node_map job j))
unfolding show_execute_job recurse_all_ancestors
show_execute_job-runs rank fuel job g n ranked h e =
    let m = put job false (mark_all true (keys g.node_map) g.disabled) in
    let (m', done, marked) =
      recurse_all-Marked (λ n. n.in_keys) g.node_map false rank fuel job n ranked h e m in
    (
      record g { disabled = m' },
      rw (done, show_execute_job) refl,
      λ j n' e'. runs_iff g job j m' n' e' marked,
    )

-- Touching a job gives the flag to it alone; touching its parents or its children, for a job of the
-- graph, gives the flag to the jobs of its `inNodes` or `outNodes`, and leaves every other flag.
pub touch_node-parents-children :
    (id : String) (disable : Bool) (g : GraphModel) (n : JobNode) (j : String)
    → get id g.nodes ≡ some n
    → (is_disabled (touch_node id disable g).disabled j
        ≡ (if str_eq id j then disable else is_disabled g.disabled j))
      × ((g' : GraphModel) × (touch_parents id disable g ≡ ok g')
          × (is_disabled g'.disabled j
              ≡ (if contains j (keys_of n.in_nodes) then disable else is_disabled g.disabled j)))
      × ((g' : GraphModel) × (touch_children id disable g ≡ ok g')
          × (is_disabled g'.disabled j
              ≡ (if contains j (keys_of n.out_nodes) then disable else is_disabled g.disabled j)))
unfolding touch_node touch_parents touch_children
touch_node-parents-children id disable g n j e =
    let flags : List String → Flags = λ ks. mark_all disable ks g.disabled in
    (
      ground (arith, get-put j id disable g.disabled),
      (
        set_disabled g (flags (keys_of n.in_nodes)),
        ground (arith, e),
        ground (arith, get-mark_all disable (keys_of n.in_nodes) g.disabled j),
      ),
      (
        set_disabled g (flags (keys_of n.out_nodes)),
        ground (arith, e),
        ground (arith, get-mark_all disable (keys_of n.out_nodes) g.disabled j),
      ),
    )
