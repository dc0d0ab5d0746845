-- ===== src/Flow/Menu.antt =====
-- The menus of a job: `handleDisableMenuClick` (src/web/js/azkaban.schedule.options.view.js) and
-- `handleJobMenuClick` with its own recursions (src/web/js/azkaban.staging.flow.view.js). `open` and
-- `openwindow` leave the page and change nothing of the model.
pub mod Laws
pub mod Triggers
use azkaban.Prelude.{
  ℕ, zero, suc, String, List, [], ◌∷◌, Option, none, some, Bool, true, false, if◌then◌else◌,
}
use azkaban.Prelude.Dict.{get, put, delete, keys}
use azkaban.Flow.Graph.{JobNode, NodeMap, keys_of, Outcome, ok, type_error, stack_overflow, ◌>>=◌}
use azkaban.Flow.Disable.{
  Flags, GraphModel, set_disabled, clear_disabled, finish, mark_all, recurse_all_ancestors,
  recurse_all_descendents,
}

pub data Action : Type 0 where
  open_job open_window disable disable_all disable_parents disable_children disable_ancestors
        disable_descendents enable enable_all enable_parents enable_children enable_ancestors
        enable_descendents :
      Action

-- `for (var key in nodes[jobid].…) { … }` with a step for each key, then `set` and `trigger`
abbrev for_linked :
    (JobNode → Option (List String))
    → (List String → Flags → Flags)
    → String
    → GraphModel
    → Outcome GraphModel
for_linked next step id g = elim (get id g.nodes) [
  | none ↦ type_error g
  | some n ↦ ok (set_disabled g (step (keys_of (next n)) g.disabled))
]

-- `handleDisableMenuClick`; the recursions are those of src/web/js/azkaban.flow.execute.view.js.
pub schedule_menu_click : ℕ → Action → String → GraphModel → Outcome GraphModel
schedule_menu_click fuel open_job id g = ok g
schedule_menu_click fuel open_window id g = ok g
schedule_menu_click fuel disable id g = ok (set_disabled g (put id true g.disabled))
schedule_menu_click fuel disable_all id g =
    ok (set_disabled g (mark_all true (keys g.nodes) g.disabled))
schedule_menu_click fuel disable_parents id g = for_linked (λ n. n.in_nodes) (mark_all true) id g
schedule_menu_click fuel disable_children id g = for_linked (λ n. n.out_nodes) (mark_all true) id g
schedule_menu_click fuel disable_ancestors id g =
    finish g (recurse_all_ancestors g.nodes true fuel id g.disabled)
schedule_menu_click fuel disable_descendents id g =
    finish g (recurse_all_descendents g.nodes true fuel id g.disabled)
schedule_menu_click fuel enable id g = ok (set_disabled g (put id false g.disabled))
schedule_menu_click fuel enable_all id g = ok (clear_disabled g)
schedule_menu_click fuel enable_parents id g = for_linked (λ n. n.in_nodes) (mark_all false) id g
schedule_menu_click fuel enable_children id g = for_linked (λ n. n.out_nodes) (mark_all false) id g
schedule_menu_click fuel enable_ancestors id g =
    finish g (recurse_all_ancestors g.nodes false fuel id g.disabled)
schedule_menu_click fuel enable_descendents id g =
    finish g (recurse_all_descendents g.nodes false fuel id g.disabled)

-- `for (var key in …) { delete disabled[key]; }`
unfoldable pub delete_all : List String → Flags → Flags
delete_all [] m = m
delete_all (k ∷ ks) m = delete_all ks (delete k m)

-- The loop of a recursion of the staging page. Its test is `if (false)`, so that it sets the flag
-- whatever `disable` is.
pub staging_walk : (String → Flags → Outcome Flags) → Bool → List String → Flags → Outcome Flags
staging_walk rec disable_them [] m = ok m
staging_walk rec disable_them (k ∷ ks) m =
    rec k (if false then delete k m else put k true m) >>= staging_walk rec disable_them ks

-- the staging page's `recurseAllAncestors` with `next` for `inNodes`, its `recurseAllDescendents` with
-- `next` for `outNodes`
pub staging_recurse_all :
    (JobNode → Option (List String)) → NodeMap → Bool → ℕ → String → Flags → Outcome Flags
unfolding staging_walk
staging_recurse_all next nodes disable_them zero id m = stack_overflow m
staging_recurse_all next nodes disable_them (suc fuel) id m = elim (get id nodes) [
  | none ↦ type_error m
  | some n ↦
      staging_walk (staging_recurse_all next nodes disable_them fuel) disable_them
        (keys_of (next n)) m
]

-- `handleJobMenuClick` of the staging page
unfoldable pub staging_menu_click : ℕ → Action → String → GraphModel → Outcome GraphModel
unfolding delete_all
staging_menu_click fuel open_job id g = ok g
staging_menu_click fuel open_window id g = ok g
staging_menu_click fuel disable id g = ok (set_disabled g (put id true g.disabled))
staging_menu_click fuel disable_all id g =
    ok (set_disabled g (mark_all true (keys g.nodes) g.disabled))
staging_menu_click fuel disable_parents id g = for_linked (λ n. n.in_nodes) (mark_all true) id g
staging_menu_click fuel disable_children id g = for_linked (λ n. n.out_nodes) (mark_all true) id g
staging_menu_click fuel disable_ancestors id g =
    finish g (staging_recurse_all (λ n. n.in_nodes) g.nodes true fuel id g.disabled)
staging_menu_click fuel disable_descendents id g =
    finish g (staging_recurse_all (λ n. n.out_nodes) g.nodes true fuel id g.disabled)
staging_menu_click fuel enable id g = ok (set_disabled g (delete id g.disabled))
staging_menu_click fuel enable_all id g = ok (clear_disabled g)
staging_menu_click fuel enable_parents id g = for_linked (λ n. n.in_nodes) delete_all id g
staging_menu_click fuel enable_children id g = for_linked (λ n. n.out_nodes) delete_all id g
staging_menu_click fuel enable_ancestors id g =
    finish g (staging_recurse_all (λ n. n.in_nodes) g.nodes false fuel id g.disabled)
staging_menu_click fuel enable_descendents id g =
    finish g (staging_recurse_all (λ n. n.out_nodes) g.nodes false fuel id g.disabled)
