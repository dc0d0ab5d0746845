-- ===== src/Execution/Status.antt =====
-- The statuses, the classes that show them (src/web/js/azkaban.job.status.utils.js,
-- `handleRemoveAllStatus` in src/web/js/azkaban.svg.graph.view.js), and the buttons and tabs of the
-- page (`FlowTabView` in src/web/js/azkaban.exflow.view.js).
use azkaban.Prelude.{
  ℕ, String, List, [], ◌∷◌, Option, none, some, Bool, true, false, not, ◌≡◌, refl, ◌∙◌, ap, ◌&&◌,
  ◌||◌, any, arith, ◌==◌, if◌then◌else◌,
}

-- The texts that a status can be; `other` is any text besides.
pub data Status : Type 0 where
  failed failed_finishing succeeded running waiting killed disabled ready unknown paused skipped
        preparing queued other :
      Status

unfoldable pub code : Status → ℕ
code failed = 0
code failed_finishing = 1
code succeeded = 2
code running = 3
code waiting = 4
code killed = 5
code disabled = 6
code ready = 7
code unknown = 8
code paused = 9
code skipped = 10
code preparing = 11
code queued = 12
code other = 13

abbrev pub same : Status → Status → Bool
same a b = code a == code b

-- `statusList`
abbrev pub status_list : List Status
status_list =
    failed ∷ failed_finishing ∷ succeeded ∷ running ∷ waiting ∷ killed ∷ disabled ∷ ready ∷ unknown
    ∷ paused ∷ skipped ∷ []

-- `statusStringMap`
unfoldable pub status_string : Status → Option String
status_string skipped = some "Skipped"
status_string preparing = some "Preparing"
status_string failed = some "Failed"
status_string succeeded = some "Success"
status_string failed_finishing = some "Running w/Failure"
status_string running = some "Running"
status_string waiting = some "Waiting"
status_string killed = some "Killed"
status_string disabled = some "Disabled"
status_string ready = some "Ready"
status_string unknown = some "Unknown"
status_string paused = some "Paused"
status_string _ = none

-- The status classes that an element has. `removeClass`, `addClass` and `hasClass` act on these as
-- on a list of names.
abbrev pub has_class : Status → List Status → Bool
has_class s classes = any (same s) classes

remove_class : Status → List Status → List Status
remove_class s [] = []
remove_class s (c ∷ cs) = if same s c then remove_class s cs else c ∷ remove_class s cs

add_class : Status → List Status → List Status
add_class s cs = if has_class s cs then cs else s ∷ cs

-- the loop of `handleRemoveAllStatus`
remove_all_status : List Status → List Status → List Status
unfolding remove_class
remove_all_status [] cs = cs
remove_all_status (s ∷ ss) cs = remove_all_status ss (remove_class s cs)

-- `handleStatusUpdate` for one node
pub show_status : Status → List Status → List Status
show_status s cs = add_class s (remove_all_status status_list cs)

has_class-remove_class :
    (s t : Status) (cs : List Status)
    → has_class t (remove_class s cs) ≡ (not (same s t) && has_class t cs)
unfolding remove_class
has_class-remove_class s t [] = ground arith
has_class-remove_class s t (c ∷ cs) = ground (arith, has_class-remove_class s t cs)

has_class-remove_all_status :
    (ss cs : List Status) (t : Status)
    → has_class t (remove_all_status ss cs) ≡ (not (has_class t ss) && has_class t cs)
unfolding remove_all_status
has_class-remove_all_status [] cs t = refl
has_class-remove_all_status (s ∷ ss) cs t =
    ground
      (arith, has_class-remove_all_status ss (remove_class s cs) t, has_class-remove_class s t cs)

has_class-same :
    (s t : Status) (cs : List Status) → code s ≡ code t → has_class s cs ≡ has_class t cs
has_class-same s t [] e = refl
has_class-same s t (c ∷ cs) e = ground (arith, e, has_class-same s t cs e)

has_class-add_class :
    (s t : Status) (cs : List Status) → has_class t (add_class s cs) ≡ (same t s || has_class t cs)
unfolding add_class
has_class-add_class s t cs = ground (arith, has_class-same t s cs)

-- After an update the element has the class of the new status, and of the classes that it had before
-- exactly those that are not in `statusList`: of the statuses, PREPARING and QUEUED are not.
pub show_status-has_class :
    (s t : Status) (cs : List Status)
    → has_class t (show_status s cs)
      ≡ (same t s || (not (has_class t status_list) && has_class t cs))
unfolding show_status
show_status-has_class s t cs =
    has_class-add_class s t (remove_all_status status_list cs)
    ∙ ap (same t s ||◌) (has_class-remove_all_status status_list cs t)

-- The buttons of the page, whether each is shown.
pub record Buttons : Type 0 where
  pub cancel : Bool
  pub execute : Bool
  pub pause : Bool
  pub resume : Bool
  pub retry : Bool

abbrev pub hidden : Buttons
hidden = record { cancel = false; execute = false; pause = false; resume = false; retry = false }

-- `handleFlowStatusChange`
unfoldable pub handle_flow_status_change : Status → Buttons
handle_flow_status_change succeeded = record hidden { execute = true }
handle_flow_status_change failed = record hidden { execute = true }
handle_flow_status_change failed_finishing = record hidden {
  cancel = true;
  execute = false;
  retry = true;
}
handle_flow_status_change running = record hidden { cancel = true; pause = true }
handle_flow_status_change paused = record hidden { cancel = true; resume = true }
handle_flow_status_change waiting = record hidden { cancel = true }
handle_flow_status_change killed = record hidden { execute = true }
handle_flow_status_change _ = hidden

-- The tabs: which link is selected, and which view is shown.
pub data Tab : Type 0 where
  graph jobs_list flow_log : Tab

pub record Tabs : Type 0 where
  pub graph_selected : Bool
  pub jobs_selected : Bool
  pub log_selected : Bool
  pub graph_shown : Bool
  pub jobs_shown : Bool
  pub log_shown : Bool

-- `handleGraphLinkClick`, `handleJobslistLinkClick` and `handleLogLinkClick`
unfoldable pub click_tab : Tab → Tabs → Tabs
click_tab graph t = record t {
  jobs_selected = false;
  graph_selected = true;
  log_selected = false;
  jobs_shown = false;
  graph_shown = true;
  log_shown = false;
}
click_tab jobs_list t = record t {
  graph_selected = false;
  jobs_selected = true;
  log_selected = false;
  graph_shown = false;
  jobs_shown = true;
  log_shown = false;
}
click_tab flow_log t = record t {
  graph_selected = false;
  jobs_selected = false;
  log_selected = true;
  graph_shown = false;
  jobs_shown = false;
  log_shown = true;
}
