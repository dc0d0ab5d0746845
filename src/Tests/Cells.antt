-- ===== src/Tests/Cells.antt =====
-- The editable tables at examples.
use azkaban.Prelude.{List, [], ◌∷◌, none, some, true, false, ◌≡◌, refl}
use azkaban.Flow.Graph.{type_error}
use azkaban.Params.{Row, Params, read_rows}
use azkaban.Params.Laws.{Sends}
use azkaban.Params.Cells.{Place, on_cell, on_span}
use azkaban.Params.Cells.Draft.{Draft, draft_row, render, edit}
use azkaban.Params.Cells.Job
use azkaban.Params.Cells.Job.{handle_set_click, draft_steps, shown, handle_set_click-steps}
use azkaban.Params.Cells.Advanced
use azkaban.Params.Cells.Advanced.{AdvancedForm, click_cell, load_rows, handle_adv_schedule}
use azkaban.Params.Cells.Advanced.Laws.{clicked, click_cell-render, handle_adv_schedule-render}

abbrev the_value : Place
the_value = record { row = 0; is_name = false }

abbrev the_name : Place
the_name = record { row = 0; is_name = true }

abbrev draft : Draft
draft = record { rows = draft_row "retries" "3" ∷ []; editing = none }

abbrev job_events : List Job.Event
job_events = Job.click on_span the_value ∷ Job.type_in "5" ∷ []

abbrev typed : List Row
typed = shown (draft_steps job_events draft).rows

handle_set_click-steps_example :
    Sends typed
      (("type", "command") ∷ [])
      (handle_set_click (("type", "command") ∷ []) (Job.steps job_events (render draft)))
handle_set_click-steps_example =
    handle_set_click-steps job_events draft (("type", "command") ∷ []) tt

the_typed_text_counts :
    shown (draft_steps job_events draft).rows ≡ record { name = "retries"; value = "5" } ∷ []
the_typed_text_counts = refl

abbrev open_draft : Draft
open_draft = record draft { editing = some the_value }

click_cell-render_example :
    (click_cell on_cell the_name (render open_draft) ≡ clicked (some the_name) the_name open_draft)
    × (click_cell on_span the_name (render open_draft) ≡ clicked none the_name open_draft)
click_cell-render_example = click_cell-render the_name open_draft

another_cell_is_an_error :
    Advanced.step (Advanced.click on_cell the_name) (render open_draft)
    ≡ type_error (render open_draft)
unfolding Advanced.step click_cell Advanced.handle_edit_column
another_cell_is_an_error = refl

abbrev form : AdvancedForm
form = record {
  hour = "12";
  minutes = "00";
  am_pm = "pm";
  timezone = "PDT";
  date = "11/26/2013";
  is_recurring = "on";
  period = "1";
  period_units = "d";
  failure_action = "finishCurrent";
  failure_emails = "";
  success_emails = "";
  notify_failure_first = true;
  notify_failure_last = false;
  executing_job_option = none;
}

handle_adv_schedule-render_example :
    (handle_adv_schedule form [] (render open_draft)).flow_override
    ≡ read_rows (shown (edit the_value "" open_draft.rows)) []
handle_adv_schedule-render_example = handle_adv_schedule-render form [] open_draft

abbrev loaded : Params
loaded = ("retries", "3") ∷ []
