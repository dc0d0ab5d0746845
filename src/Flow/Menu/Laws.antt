-- ===== src/Flow/Menu/Laws.antt =====
-- The menus do what the actions of the execution dialog do (src/web/js/azkaban.flow.execute.view.js),
-- except where the staging page enables jobs by its recursions.
use azkaban.Prelude.{
  ℕ, zero, suc, ◌<◌, String, List, [], ◌∷◌, Option, none, some, Bool, true, false, ◌≡◌, refl, ap,
  ◌∙◌, arith, if◌then◌else◌, contains,
}
use azkaban.Prelude.Dict.{get, put, delete, get-put, get-delete}
use azkaban.Flow.Graph.{JobNode, NodeMap, keys_of, Outcome, ok, type_error, stack_overflow, ◌>>=◌}
use azkaban.Flow.Disable.{
  Flags, is_disabled, GraphModel, set_disabled, mark_all, walk, recurse_all, touch_node,
  touch_parents, touch_children, touch_ancestors, touch_descendents,
}
use azkaban.Flow.Disable
use azkaban.Flow.Disable.Laws.{get-mark_all}
use azkaban.Flow.Disable.Recurse.{Marked, Reaches, IsRanked, recurse_all-Marked}
use azkaban.Flow.Menu.{
  Action, open_job, open_window, disable, disable_all, disable_parents, disable_children,
  disable_ancestors, disable_descendents, enable, enable_all, enable_parents, enable_children,
  enable_ancestors, enable_descendents, schedule_menu_click, delete_all, staging_walk,
  staging_recurse_all, staging_menu_click,
}

-- What an action of the execution dialog does.
pub touch : ℕ → Action → String → GraphModel → Outcome GraphModel
touch fuel open_job id g = ok g
touch fuel open_window id g = ok g
touch fuel disable id g = ok (touch_node id true g)
touch fuel disable_all id g = ok (Disable.disable_all g)
touch fuel disable_parents id g = touch_parents id true g
touch fuel disable_children id g = touch_children id true g
touch fuel disable_ancestors id g = touch_ancestors fuel id true g
touch fuel disable_descendents id g = touch_descendents fuel id true g
touch fuel enable id g = ok (touch_node id false g)
touch fuel enable_all id g = ok (Disable.enable_all g)
touch fuel enable_parents id g = touch_parents id false g
touch fuel enable_children id g = touch_children id false g
touch fuel enable_ancestors id g = touch_ancestors fuel id false g
touch fuel enable_descendents id g = touch_descendents fuel id false g

-- Each item of the menu of the schedule options does what the action of that name does in the
-- execution dialog, errors included.
pub schedule_menu_click-touch :
    (fuel : ℕ) (a : Action) (id : String) (g : GraphModel)
    → schedule_menu_click fuel a id g ≡ touch fuel a id g
unfolding schedule_menu_click touch touch_node touch_parents touch_children touch_ancestors
    touch_descendents Disable.disable_all Disable.enable_all
schedule_menu_click-touch fuel open_job id g = refl
schedule_menu_click-touch fuel open_window id g = refl
schedule_menu_click-touch fuel disable id g = refl
schedule_menu_click-touch fuel disable_all id g = refl
schedule_menu_click-touch fuel disable_parents id g = refl
schedule_menu_click-touch fuel disable_children id g = refl
schedule_menu_click-touch fuel disable_ancestors id g = refl
schedule_menu_click-touch fuel disable_descendents id g = refl
schedule_menu_click-touch fuel enable id g = refl
schedule_menu_click-touch fuel enable_all id g = refl
schedule_menu_click-touch fuel enable_parents id g = refl
schedule_menu_click-touch fuel enable_children id g = refl
schedule_menu_click-touch fuel enable_ancestors id g = refl
schedule_menu_click-touch fuel enable_descendents id g = refl

-- With its test `if (false)` a recursion of the staging page does the same for enabling as for
-- disabling: it is the recursion that disables.
bind-same :
    (o : Outcome Flags) (f g : Flags → Outcome Flags)
    → ((m : Flags) → f m ≡ g m)
    → (o >>= f) ≡ (o >>= g)
bind-same (ok m) f g same = same m
bind-same (type_error m) f g same = refl
bind-same (stack_overflow m) f g same = refl

staging_walk-walk :
    (rec rec' : String → Flags → Outcome Flags) (d : Bool) (ks : List String) (m : Flags)
    → ((k : String) (m : Flags) → rec k m ≡ rec' k m)
    → staging_walk rec d ks m ≡ walk rec' true ks m
unfolding staging_walk walk
staging_walk-walk rec rec' d [] m same = refl
staging_walk-walk rec rec' d (k ∷ ks) m same =
    ap (λ o. o >>= staging_walk rec d ks) (same k (put k true m))
    ∙ bind-same (rec' k (put k true m)) (staging_walk rec d ks) (walk rec' true ks)
        (λ m'. staging_walk-walk rec rec' d ks m' same)

module _ (rec rec' : String → Flags → Outcome Flags) (d : Bool) (m : Flags) where
  at_node-walk :
      (next : JobNode → Option (List String)) (o : Option JobNode)
      → ((k : String) (m : Flags) → rec k m ≡ rec' k m)
      → elim o as (λ _. Outcome Flags) [
        | none ↦ type_error m
        | some n ↦ staging_walk rec d (keys_of (next n)) m
      ]
        ≡ elim o as (λ _. Outcome Flags) [
          | none ↦ type_error m
          | some n ↦ walk rec' true (keys_of (next n)) m
        ]
  at_node-walk next none same = refl
  at_node-walk next (some n) same = staging_walk-walk rec rec' d (keys_of (next n)) m same

staging_recurse_all-recurse_all :
    (next : JobNode → Option (List String)) (nodes : NodeMap) (d : Bool) (fuel : ℕ) (id : String)
    (m : Flags)
    → staging_recurse_all next nodes d fuel id m ≡ recurse_all next nodes true fuel id m
unfolding staging_recurse_all recurse_all
staging_recurse_all-recurse_all next nodes d zero id m = refl
staging_recurse_all-recurse_all next nodes d (suc fuel) id m =
    at_node-walk (staging_recurse_all next nodes d fuel) (recurse_all next nodes true fuel) d m next
      (get id nodes) (λ k m'. staging_recurse_all-recurse_all next nodes d fuel k m')

-- On the staging page, in a graph without cycles whose `inNodes` lead to nodes, the item that is to
-- enable the ancestors of a job disables each of them, leaves the flag of every other job, and ends as
-- the item that disables them does.
pub staging_menu_click-enable_ancestors :
    (rank : String → ℕ) (fuel : ℕ) (id : String) (g : GraphModel) (n : JobNode)
    → IsRanked (λ n. n.in_nodes) g.nodes rank
    → rank id < fuel
    → get id g.nodes ≡ some n
    → (m : Flags) × (staging_menu_click fuel enable_ancestors id g ≡ ok (set_disabled g m))
      × (staging_menu_click fuel disable_ancestors id g ≡ ok (set_disabled g m))
      × Marked (Reaches (λ n. n.in_nodes) g.nodes id) true g.disabled m
unfolding staging_menu_click
staging_menu_click-enable_ancestors rank fuel id g n ranked h e =
    let (m, done, marked) =
      recurse_all-Marked (λ n. n.in_nodes) g.nodes true rank fuel id n ranked h e g.disabled in
    let same = λ (d : Bool).
      ap (Disable.finish g)
        (staging_recurse_all-recurse_all (λ n. n.in_nodes) g.nodes d fuel id g.disabled ∙ done) in
    (m, same false, same true, marked)

get-delete_all :
    (ks : List String) (m : Flags) (j : String)
    → get j (delete_all ks m) ≡ (if contains j ks then none else get j m)
unfolding delete_all
get-delete_all [] m j = refl
get-delete_all (k ∷ ks) m j = ground (arith, get-delete_all ks (delete k m) j, get-delete j k m)

-- Two results with the same disabled jobs, or the same error.
abbrev pub SameDisabled : Outcome GraphModel → Outcome GraphModel → Type 0
SameDisabled (ok g) (ok g') = (j : String) → is_disabled g.disabled j ≡ is_disabled g'.disabled j
SameDisabled (type_error g) (type_error g') = g ≡ g'
SameDisabled (stack_overflow g) (stack_overflow g') = g ≡ g'
SameDisabled _ _ = ⊥

-- The items of the staging menu that do not recurse.
abbrev pub is_direct : Action → Bool
is_direct disable_ancestors = false
is_direct disable_descendents = false
is_direct enable_ancestors = false
is_direct enable_descendents = false
is_direct _ = true

delete_all-mark_all :
    (g : GraphModel) (ks : List String) (j : String)
    → is_disabled (delete_all ks g.disabled) j ≡ is_disabled (mark_all false ks g.disabled) j
delete_all-mark_all g ks j =
    ground (arith, get-delete_all ks g.disabled j, get-mark_all false ks g.disabled j)

linked-SameDisabled :
    (next : JobNode → Option (List String)) (g : GraphModel) (o : Option JobNode)
    → SameDisabled
        (elim o as (λ _. Outcome GraphModel) [
          | none ↦ type_error g
          | some n ↦ ok (set_disabled g (delete_all (keys_of (next n)) g.disabled))
        ])
        (elim o as (λ _. Outcome GraphModel) [
          | none ↦ type_error g
          | some n ↦ ok (set_disabled g (mark_all false (keys_of (next n)) g.disabled))
        ])
linked-SameDisabled next g none = refl
linked-SameDisabled next g (some n) = delete_all-mark_all g (keys_of (next n))

same-SameDisabled : (o : Outcome GraphModel) → SameDisabled o o
same-SameDisabled (ok g) = λ j. refl
same-SameDisabled (type_error g) = refl
same-SameDisabled (stack_overflow g) = refl

-- The items of the staging menu that do not recurse leave the same jobs disabled as the actions of the
-- execution dialog, though they delete flags where those set them to false.
pub staging_menu_click-SameDisabled :
    (fuel : ℕ) (a : Action) (id : String) (g : GraphModel)
    → is_direct a ≡ true
    → SameDisabled (staging_menu_click fuel a id g) (touch fuel a id g)
unfolding staging_menu_click touch touch_node touch_parents touch_children Disable.disable_all
    Disable.enable_all
staging_menu_click-SameDisabled fuel open_job id g h = λ j. refl
staging_menu_click-SameDisabled fuel open_window id g h = λ j. refl
staging_menu_click-SameDisabled fuel disable id g h = λ j. refl
staging_menu_click-SameDisabled fuel disable_all id g h = λ j. refl
staging_menu_click-SameDisabled fuel disable_parents id g h =
    same-SameDisabled (touch_parents id true g)
staging_menu_click-SameDisabled fuel disable_children id g h =
    same-SameDisabled (touch_children id true g)
staging_menu_click-SameDisabled fuel disable_ancestors id g h = cc h
staging_menu_click-SameDisabled fuel disable_descendents id g h = cc h
staging_menu_click-SameDisabled fuel enable id g h =
    λ j. ground (arith, get-delete j id g.disabled, get-put j id false g.disabled)
staging_menu_click-SameDisabled fuel enable_all id g h = λ j. refl
staging_menu_click-SameDisabled fuel enable_parents id g h =
    linked-SameDisabled (λ n. n.in_nodes) g (get id g.nodes)
staging_menu_click-SameDisabled fuel enable_children id g h =
    linked-SameDisabled (λ n. n.out_nodes) g (get id g.nodes)
staging_menu_click-SameDisabled fuel enable_ancestors id g h = cc h
staging_menu_click-SameDisabled fuel enable_descendents id g h = cc h
