-- ===== src/Flow/Disable.antt =====
-- Enabling and disabling jobs before a flow is run (src/web/js/azkaban.flow.execute.view.js).
-- The recursion over the graph takes fuel, the depth of the call stack.
pub mod Recurse
pub mod Options
pub mod Laws
use azkaban.Prelude.{
  ℕ, zero, suc, String, List, [], ◌∷◌, ◌++◌, Option, none, some, Bool, true, false, ◌||◌, str_eq,
  if◌then◌else◌,
}
use azkaban.Prelude.Dict.{get, put, keys}
use azkaban.Flow.Graph.{JobNode, NodeMap, keys_of, Outcome, ok, type_error, stack_overflow, ◌>>=◌}

-- `disabled`: from a job to the flag that it was given last.
abbrev pub Flags : Type 0
Flags = List (String × Bool)

-- `if (disabledMap[id])`
abbrev pub is_disabled : Flags → String → Bool
is_disabled m id = elim (get id m) [ some true ↦ true | _ ↦ false ]

-- the loop over the neighbours of one node
unfoldable pub walk : (String → Flags → Outcome Flags) → Bool → List String → Flags → Outcome Flags
walk rec disable [] m = ok m
walk rec disable (k ∷ ks) m = rec k (put k disable m) >>= walk rec disable ks

-- `recurseAllAncestors` with `next` for `in`, `recurseAllDescendents` with `next` for `out`.
unfoldable pub recurse_all :
    (JobNode → Option (List String)) → NodeMap → Bool → ℕ → String → Flags → Outcome Flags
recurse_all next nodes disable zero id m = stack_overflow m
recurse_all next nodes disable (suc fuel) id m = elim (get id nodes) [
  | none ↦ type_error m
  | some n ↦ walk (recurse_all next nodes disable fuel) disable (keys_of (next n)) m
]

unfoldable pub recurse_all_ancestors : NodeMap → Bool → ℕ → String → Flags → Outcome Flags
recurse_all_ancestors = recurse_all (λ n. n.in_keys)

unfoldable pub recurse_all_descendents : NodeMap → Bool → ℕ → String → Flags → Outcome Flags
recurse_all_descendents = recurse_all (λ n. n.out_keys)

-- The attributes of `executableGraphModel` that the menu's actions read and write. `changes` counts
-- the triggers of `change:disabled`.
pub record GraphModel : Type 0 where
  pub nodes : NodeMap
  pub node_map : NodeMap
  pub disabled : Flags
  pub changes : ℕ

-- `set({disabled: …})` with the object that is there, which triggers nothing, and
-- `trigger("change:disabled")`
abbrev pub set_disabled : GraphModel → Flags → GraphModel
set_disabled g m = record g { disabled = m; changes = suc g.changes }

-- An error leaves the map as it was changed so far, and triggers nothing.
abbrev pub finish : GraphModel → Outcome Flags → Outcome GraphModel
finish g (ok m) = ok (set_disabled g m)
finish g (type_error m) = type_error (record g { disabled = m })
finish g (stack_overflow m) = stack_overflow (record g { disabled = m })

-- `set({disabled: {}})` and `trigger("change:disabled")`. Where the map was not empty, `set` triggers the
-- change too.
abbrev pub clear_disabled : GraphModel → GraphModel
clear_disabled g = record g {
  disabled = [];
  changes = elim g.disabled [ [] ↦ suc g.changes | _ ∷ _ ↦ suc (suc g.changes) ];
}

unfoldable pub enable_all : GraphModel → GraphModel
enable_all g = clear_disabled g

-- `for (var key in …) { disabled[key] = disable; }`
unfoldable pub mark_all : Bool → List String → Flags → Flags
mark_all disable [] m = m
mark_all disable (k ∷ ks) m = mark_all disable ks (put k disable m)

unfoldable pub disable_all : GraphModel → GraphModel
unfolding mark_all
disable_all g = set_disabled g (mark_all true (keys g.nodes) g.disabled)

unfoldable pub touch_node : String → Bool → GraphModel → GraphModel
touch_node id disable g = set_disabled g (put id disable g.disabled)

abbrev pub touch_linked :
    (JobNode → Option (List String)) → String → Bool → GraphModel → Outcome GraphModel
touch_linked next id disable g = elim (get id g.nodes) [
  | none ↦ type_error g
  | some n ↦ ok (set_disabled g (mark_all disable (keys_of (next n)) g.disabled))
]

unfoldable pub touch_parents : String → Bool → GraphModel → Outcome GraphModel
unfolding mark_all
touch_parents id disable g = touch_linked (λ n. n.in_nodes) id disable g

unfoldable pub touch_children : String → Bool → GraphModel → Outcome GraphModel
unfolding mark_all
touch_children id disable g = touch_linked (λ n. n.out_nodes) id disable g

unfoldable pub touch_ancestors : ℕ → String → Bool → GraphModel → Outcome GraphModel
touch_ancestors fuel id disable g =
    finish g (recurse_all_ancestors g.nodes disable fuel id g.disabled)

unfoldable pub touch_descendents : ℕ → String → Bool → GraphModel → Outcome GraphModel
touch_descendents fuel id disable g =
    finish g (recurse_all_descendents g.nodes disable fuel id g.disabled)

-- The part of `showExecuteJob` that chooses the jobs: all are disabled, then the job and, with
-- `withDep`, its ancestors are enabled again.
pub show_execute_job : ℕ → String → Bool → GraphModel → Outcome GraphModel
unfolding mark_all
show_execute_job fuel job with_dep g =
    let m = put job false (mark_all true (keys g.node_map) g.disabled) in
    elim with_dep [
      | true ↦ elim (recurse_all_ancestors g.node_map false fuel job m) [
        | ok m' ↦ ok (record g { disabled = m' })
        | type_error m' ↦ type_error (record g { disabled = m' })
        | stack_overflow m' ↦ stack_overflow (record g { disabled = m' })
      ]
      | false ↦ ok (record g { disabled = m })
    ]
