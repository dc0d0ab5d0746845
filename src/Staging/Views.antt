-- ===== src/Staging/Views.antt =====
-- The list of jobs and the drawn graph of the staging page, two views of one model: `JobListView`,
-- `SvgGraphView` and the menu (src/web/js/azkaban.staging.flow.view.js). An event is at an item or a
-- drawn node that is on the page. `hasClass`, `addClass` and `removeClass` of the page are those of Classes.
pub mod Agree
pub mod Steps
pub mod Disabled
use azkaban.Prelude.{
  ℕ, String, List, [], ◌∷◌, Option, none, some, Bool, true, false, str_eq, ◌==◌, if◌then◌else◌,
}
use azkaban.Prelude.Dict.{get, put, change}
use azkaban.Prelude.Sort.{sort_by}
use azkaban.Flow.Graph.{Outcome, ok, type_error, stack_overflow, ◌>>=◌}
use azkaban.Flow.Disable.{Flags, GraphModel, is_disabled}
use azkaban.Flow.Menu.{Action, staging_menu_click}
use azkaban.JobList.Marks.{Placed, before}

-- The classes that events change: `nodedisabled` of an item or `disabled` of a drawn node, and `selected`.
pub record Shades : Type 0 where
  pub disabled : Bool
  pub selected : Bool

-- `listNodes`, and the drawn nodes by their ids
abbrev pub Elements : Type 0
Elements = List (String × Shades)

-- `zoomed` is the node that the drawing was moved to last.
pub record Page : Type 0 where
  pub model : GraphModel
  pub selected : Option String
  pub items : Elements
  pub drawn : Elements
  pub zoomed : Option String

-- `if (id)`
abbrev pub truthy : Option String → Option String
truthy none = none
truthy (some id) = if str_eq id "" then none else some id

abbrev pub set_selected : Bool → Shades → Shades
set_selected b s = record s { selected = b }

-- a change of the item of a job; `$(undefined)` is no element
abbrev pub mark_item : Bool → Option String → Elements → Elements
mark_item b none items = items
mark_item b (some id) items = change id (set_selected b) items

-- `handleSelectionChange`
unfoldable pub handle_selection_change : Option String → Option String → Elements → Elements
handle_selection_change previous current items =
    mark_item true (truthy current) (mark_item false (truthy previous) items)

-- `addClass(g, "selected")` or `removeClass(g, "selected")` for the element with an id, which is null where
-- there is none
abbrev pub mark_drawn : Bool → Option String → Elements → Outcome Elements
mark_drawn b none drawn = ok drawn
mark_drawn b (some id) drawn = elim (get id drawn) [
  | none ↦ type_error drawn
  | some _ ↦ ok (change id (set_selected b) drawn)
]

-- `changeSelected`: the marks
unfoldable pub change_selected : Option String → Option String → Elements → Outcome Elements
change_selected previous current drawn =
    mark_drawn false (truthy previous) drawn >>= mark_drawn true (truthy current)

abbrev pub same_id : Option String → Option String → Bool
same_id none none = true
same_id none (some _) = false
same_id (some _) none = false
same_id (some a) (some b) = str_eq a b

-- The views after `change:selected`; that of the graph is bound first.
abbrev pub show_selected : Option String → Page → Outcome Elements → Outcome Page
show_selected current p (ok drawn) = ok (record p {
  selected = current;
  drawn = drawn;
  items = handle_selection_change p.selected current p.items;
  zoomed = elim (truthy current) [ none ↦ p.zoomed | some id ↦ some id ];
})
show_selected current p (type_error drawn) =
    type_error (record p { selected = current; drawn = drawn })
show_selected current p (stack_overflow drawn) =
    stack_overflow (record p { selected = current; drawn = drawn })

-- `set({"selected": …})` or `unset("selected")`, which trigger a change where there is one
unfoldable pub select : Option String → Page → Outcome Page
unfolding change_selected handle_selection_change
select current p =
    if same_id p.selected current
    then ok p
    else show_selected current p (change_selected p.selected current p.drawn)

-- `handleJobClick`
unfoldable pub handle_job_click : String → Page → Outcome Page
unfolding select
handle_job_click id p =
    if str_eq id ""
    then ok p
    else if same_id p.selected (some id)
    then select none p
    else select (some id) p

-- `clickGraph`
unfoldable pub click_graph : String → Page → Outcome Page
unfolding select
click_graph id p = if str_eq id "" then ok p else select (some id) p

-- `handleDisabledChange` of both views: the loops over `listNodes` and over the nodes
unfoldable pub handle_disabled_change : Flags → Elements → Elements
handle_disabled_change flags [] = []
handle_disabled_change flags ((id, s) ∷ m) =
    (id, record s { disabled = is_disabled flags id }) ∷ handle_disabled_change flags m

-- The views after a menu's action, where it triggered `change:disabled`.
unfoldable pub show_disabled : GraphModel → Page → Page
unfolding handle_disabled_change
show_disabled g p = if g.changes == p.model.changes then record p { model = g } else record p {
  model = g;
  items = handle_disabled_change g.disabled p.items;
  drawn = handle_disabled_change g.disabled p.drawn;
}

-- `handleJobMenuClick`, with the depth of the call stack
unfoldable pub handle_job_menu_click : ℕ → Action → String → Page → Outcome Page
unfolding staging_menu_click show_disabled
handle_job_menu_click fuel action id p = elim (staging_menu_click fuel action id p.model) [
  | ok g ↦ ok (show_disabled g p)
  | type_error g ↦ type_error (record p { model = g })
  | stack_overflow g ↦ stack_overflow (record p { model = g })
]

-- `render` of both views
unfoldable pub new_elements : List String → Elements → Elements
new_elements [] m = m
new_elements (id ∷ ids) m =
    new_elements ids (put id (record { disabled = false; selected = false }) m)

module _ {A : Type 0} (lt : A → A → Bool) where
  abbrev pub ids_of : List (Placed A) → List String
  ids_of [] = []
  ids_of (n ∷ ns) = n.id ∷ ids_of ns

  -- the list in the order of the layout, the drawing in that of the nodes
  unfoldable pub render : List (Placed A) → GraphModel → Page
  unfolding new_elements
  render nodes g = record {
    model = g;
    selected = none;
    items = new_elements (ids_of (sort_by (before lt) nodes)) [];
    drawn = new_elements (ids_of nodes) [];
    zoomed = none;
  }

pub data Event : Type 0 where
  click_item : String → Event
  click_node : String → Event
  menu_action : Action → String → Event

abbrev pub if_there : String → Elements → Outcome Page → Page → Outcome Page
if_there id m happens p = elim (get id m) [ none ↦ ok p | some _ ↦ happens ]

unfoldable pub step : ℕ → Event → Page → Outcome Page
unfolding handle_job_click click_graph handle_job_menu_click
step fuel (click_item id) p = if_there id p.items (handle_job_click id p) p
step fuel (click_node id) p = if_there id p.drawn (click_graph id p) p
step fuel (menu_action action id) p = if_there id p.drawn (handle_job_menu_click fuel action id p) p

-- An error ends its handler only.
abbrev pub left_by : Outcome Page → Page
left_by (ok p) = p
left_by (type_error p) = p
left_by (stack_overflow p) = p

unfoldable pub run : ℕ → List Event → Page → Page
unfolding step
run fuel [] p = p
run fuel (e ∷ es) p = run fuel es (left_by (step fuel e p))

-- Events of which none raises an error.
unfoldable pub steps : ℕ → List Event → Page → Outcome Page
unfolding step
steps fuel [] p = ok p
steps fuel (e ∷ es) p = step fuel e p >>= steps fuel es
