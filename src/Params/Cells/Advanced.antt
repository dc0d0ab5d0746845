-- ===== src/Params/Cells/Advanced.antt =====
-- The table of `AdvancedScheduleView` (src/web/js/azkaban.schedule.options.view.js): its events, the rows
-- that `show` loads, and the request of `handleAdvSchedule`. A click runs the handlers of the elements
-- inside first, and that of the view, which closes the edited cell, at last; a handler that raises an
-- error ends the event.
pub mod Laws
pub mod Loaded
use azkaban.Prelude.{
  ℕ, zero, suc, String, List, [], ◌∷◌, ◌++◌, Option, none, some, Bool, true, false, not, ◌≡◌, refl,
  ap, sym, ◌∙◌, ◌||◌, if◌then◌else◌, ltb, length, modify, inl, inr, Bool-cases,
}
use azkaban.Flow.Graph.{Outcome, ok, type_error, ◌>>=◌}
use azkaban.Params.{Row, Params, edit_row, read_rows, disabled_jobs}
use azkaban.Params.Load.{append}
use azkaban.Params.Cells.{
  Child, icon, span, bare, input, Cell, EditRow, Place, same_place, is_at, text_of, change_cell,
  change_row, open_cell, close_cell, new_row, detach, type_into, Spot, on_cell, on_icon, on_span,
  on_input, Table, close_editing_target, open_place,
}

pub data Event : Type 0 where
  add : Event
  click : Spot → Place → Event
  elsewhere : Event
  type_in : String → Event

-- `handleEditColumn`. It calls `closeEditingTarget` without an event, which then reads `evt.target` of
-- nothing where a cell is being edited.
unfoldable pub handle_edit_column : Place → Table → Outcome Table
handle_edit_column p t =
    if is_at t.editing_target p
    then ok t
    else elim t.editing_target [ none ↦ ok (open_place p t) | some _ ↦ type_error t ]

-- Where `evt.target` is inside of the cell: its parent is the cell still, or nothing if the cell was
-- emptied.
abbrev parent_after : Place → Table → Option Place
parent_after p t = if is_at t.editing_target p then some p else none

unfoldable pub click_cell : Spot → Place → Table → Outcome Table
unfolding handle_edit_column
click_cell on_cell p t = handle_edit_column p t >>= λ t'. ok (close_editing_target (some p) none t')
click_cell on_icon p t = handle_edit_column p (record t { rows = detach p.row t.rows }) >>= λ t'.
    ok (close_editing_target none (parent_after p t) t')
click_cell on_span p t =
    handle_edit_column p t >>= λ t'. ok (close_editing_target none (parent_after p t) t')
click_cell on_input p t =
    handle_edit_column p t >>= λ t'. ok (close_editing_target none (parent_after p t) t')

-- A click at a row that was never made is none; the text typed goes into the box of the edited cell.
unfoldable pub step : Event → Table → Outcome Table
unfolding click_cell
step add t = ok (close_editing_target none none (record t { rows = t.rows ++ new_row "" "" ∷ [] }))
step (click spot p) t = if ltb p.row (length t.rows) then click_cell spot p t else ok t
step elsewhere t = ok (close_editing_target none none t)
step (type_in text) t =
    ok (elim t.editing_target [ none ↦ t | some p ↦ record t { rows = type_into p text t.rows } ])

-- `row = handleAddRow()`, and `text` at its two cells, which replaces what is in them
abbrev pub loaded_row : String → String → EditRow
loaded_row key value =
    let r = new_row "" "" in
    record r {
      name = record (r.name) { children = bare key ∷ [] };
      value = record (r.value) { children = bare value ∷ [] };
    }

-- the loop over `flowParam` in `show`
abbrev pub load_rows : Params → List EditRow → List EditRow
load_rows [] rows = rows
load_rows ((key, value) ∷ ps) rows = load_rows ps (rows ++ loaded_row key value ∷ [])

-- the texts that the loop in `handleAdvSchedule` takes of the rows on the page
abbrev pub read_texts : List EditRow → List Row
read_texts [] = []
read_texts (r ∷ rs) =
    let rest = read_texts rs in
    if r.attached
    then record { name = text_of r.name.children; value = text_of r.value.children } ∷ rest
    else rest

-- the other elements of the dialog
pub record AdvancedForm : Type 0 where
  pub hour : String
  pub minutes : String
  pub am_pm : String
  pub timezone : String
  pub date : String
  pub is_recurring : String
  pub period : String
  pub period_units : String
  pub failure_action : String
  pub failure_emails : String
  pub success_emails : String
  pub notify_failure_first : Bool
  pub notify_failure_last : Bool
  pub executing_job_option : Option String

-- `scheduleData`; `disabled` lists the jobs that the text `disabledJobs` names, each after a comma there.
pub record ScheduleData : Type 0 where
  pub schedule_time : String
  pub schedule_date : String
  pub is_recurring : String
  pub period : String
  pub disabled : List String
  pub failure_action : String
  pub failure_emails : String
  pub success_emails : String
  pub notify_failure_first : Bool
  pub notify_failure_last : Bool
  pub executing_job_option : Option String
  pub flow_override : Params

-- `handleAdvSchedule`
unfoldable pub handle_adv_schedule : AdvancedForm → List (String × Bool) → Table → ScheduleData
handle_adv_schedule f disabled t = record {
  schedule_time =
      append f.hour
        (append "," (append f.minutes (append "," (append f.am_pm (append "," f.timezone)))));
  schedule_date = f.date;
  is_recurring = f.is_recurring;
  period = append f.period f.period_units;
  disabled = disabled_jobs disabled;
  failure_action = f.failure_action;
  failure_emails = f.failure_emails;
  success_emails = f.success_emails;
  notify_failure_first = f.notify_failure_first;
  notify_failure_last = f.notify_failure_last;
  executing_job_option = f.executing_job_option;
  flow_override = read_rows (read_texts t.rows) [];
}
