-- ===== src/Params.antt =====
-- The tables in which a user edits parameters: of a flow before it is run (`EditTableView` and
-- `getExecutionOptionData`, src/web/js/azkaban.flow.execute.view.js), and of a job (`JobEditView`,
-- src/web/js/azkaban.jobedit.view.js). A table is the list of its `editRow`s, each with the texts of
-- its two cells.
pub mod Laws
pub mod Load
pub mod Cells
pub mod Side
use azkaban.Prelude.{
  ℕ, zero, suc, String, List, [], ◌∷◌, ◌++◌, Option, none, some, Bool, true, false, not, ◌&&◌, ◌||◌,
  str_eq, contains, if◌then◌else◌,
}
use azkaban.Prelude.Dict.{get, put, keys}

pub record Row : Type 0 where
  pub name : String
  pub value : String

abbrev pub Params : Type 0
Params = List (String × String)

-- `handleAddRow` of `EditTableView`: a missing or empty text gives an empty cell, and the row stands
-- before the button, so below the others.
pub add_row : Option String → Option String → List Row → List Row
add_row paramkey paramvalue rows =
    rows
    ++ record {
      name = elim paramkey [ none ↦ "" | some k ↦ k ];
      value = elim paramvalue [ none ↦ "" | some v ↦ v ];
    }
      ∷ []

-- the loop over `flowParams` in `changeFlowInfo`
pub add_params : Params → List Row → List Row
unfolding add_row
add_params [] rows = rows
add_params ((k, v) ∷ ps) rows = add_params ps (add_row (some k) (some v) rows)

-- The loop over the rows in `getExecutionOptionData` and `handleSet`: a row with an empty name is
-- left out, and a later row overrides an earlier one.
pub read_rows : List Row → Params → Params
read_rows [] m = m
read_rows (r ∷ rs) m = read_rows rs (if str_eq r.name "" then m else put r.name r.value m)

-- `handleRemoveColumn`: the row at a position goes.
pub remove_row : ℕ → List Row → List Row
remove_row i [] = []
remove_row zero (r ∷ rs) = rs
remove_row (suc i) (r ∷ rs) = r ∷ remove_row i rs

-- `closeEditingTarget`: the edited text goes into the cell, a name cell or a value cell.
unfoldable pub edit_row : ℕ → Bool → String → List Row → List Row
edit_row i is_name text [] = []
edit_row zero is_name text (r ∷ rs) =
    (if is_name then record r { name = text } else record r { value = text }) ∷ rs
edit_row (suc i) is_name text (r ∷ rs) = r ∷ edit_row i is_name text rs

pub is_hidden : String → Bool
is_hidden k = str_eq k "type" || str_eq k "dependencies"

-- The rows that `JobEditView.show` makes of a job's overridden properties.
pub show_rows : Params → List Row
show_rows [] = []
show_rows ((k, v) ∷ ps) =
    let rest = show_rows ps in if is_hidden k then rest else record { name = k; value = v } ∷ rest

-- An object whose properties may be `undefined`: a value of `none`.
abbrev pub Overrides : Type 0
Overrides = List (String × Option String)

abbrev pub set_values : Params → Overrides
set_values [] = []
set_values ((k, v) ∷ ps) = (k, some v) ∷ set_values ps

-- `if ('dependencies' in overrideParams) { ... }`
pub set_dependencies : Params → Overrides → Overrides
set_dependencies override_params m = elim (get "dependencies" override_params) [
  | none ↦ m
  | some v ↦ put "dependencies" (some v) m
]

-- `jobOverride` in `handleSet`. The property `type` is assigned in any case.
pub handle_set : List Row → Params → Overrides
unfolding read_rows set_dependencies
handle_set rows override_params =
    set_dependencies override_params
      (put "type" (get "type" override_params) (set_values (read_rows rows [])))

-- The form of the execution dialog.
pub record Form : Type 0 where
  pub rows : List Row
  pub failure_action : String
  pub failure_emails : String
  pub success_emails : String
  pub notify_failure_first : Bool
  pub notify_failure_last : Bool
  pub failure_emails_override : Bool
  pub success_emails_override : Bool
  pub concurrent_option : String
  pub pipeline_level : String
  pub queue_level : String

-- The data of the request `executeFlow`. `disabled` lists the jobs that the text of the request
-- names, each followed by a comma there.
pub record ExecutingData : Type 0 where
  pub disabled : List String
  pub failure_action : String
  pub failure_emails : String
  pub success_emails : String
  pub notify_failure_first : Bool
  pub notify_failure_last : Bool
  pub failure_emails_override : Bool
  pub success_emails_override : Bool
  pub flow_override : Params
  pub concurrent_option : String
  pub pipeline_level : Option String
  pub queue_level : Option String

pub disabled_jobs : List (String × Bool) → List String
disabled_jobs [] = []
disabled_jobs ((k, true) ∷ m) = k ∷ disabled_jobs m
disabled_jobs ((k, false) ∷ m) = disabled_jobs m

pub execution_option_data : Form → List (String × Bool) → ExecutingData
unfolding read_rows disabled_jobs
execution_option_data f disabled = record {
  disabled = disabled_jobs disabled;
  failure_action = f.failure_action;
  failure_emails = f.failure_emails;
  success_emails = f.success_emails;
  notify_failure_first = f.notify_failure_first;
  notify_failure_last = f.notify_failure_last;
  failure_emails_override = f.failure_emails_override;
  success_emails_override = f.success_emails_override;
  flow_override = read_rows f.rows [];
  concurrent_option = f.concurrent_option;
  pipeline_level = if str_eq f.concurrent_option "pipeline" then some f.pipeline_level else none;
  queue_level =
      if str_eq f.concurrent_option "pipeline"
      then none
      else if str_eq f.concurrent_option "queue"
      then some f.queue_level
      else none;
}
