-- ===== src/Deadlines.antt =====
-- The table of the deadlines of a schedule: `ChangeSlaView` (src/web/js/azkaban.scheduled.view.js). A
-- duration comes as minutes with a letter behind them, which the code cuts off; here it is the number.
-- A text box holds what the user typed, or the hours and minutes that were put there.
pub mod Laws
use azkaban.Prelude.{
  ℕ, zero, suc, ◌+◌, ◌*◌, ◌/◌, ◌%◌, String, List, [], ◌∷◌, ◌++◌, Bool, true, false, ◌||◌, str_eq,
  if◌then◌else◌, contains,
}

-- `data.settings`
pub record Setting : Type 0 where
  pub id : String
  pub rule : String
  pub duration : ℕ
  pub actions : List String

pub data DurationBox : Type 0 where
  typed : String → DurationBox
  hours_minutes : ℕ → ℕ → DurationBox

-- A row: what is chosen in the two lists, the text box and the two check boxes.
pub record Rule : Type 0 where
  pub id : String
  pub rule : String
  pub duration : DurationBox
  pub email : Bool
  pub kill : Bool

-- `indexToName`: the flow has the empty name, then the jobs
abbrev pub names_of : List String → List String
names_of all_job_names = "" ∷ all_job_names

abbrev pub rule_box_options : List String
rule_box_options = "SUCCESS" ∷ "FINISH" ∷ []

-- The value of a list whose options are made in turn, each selected if it is the wanted one; before one
-- is, the first option is chosen.
abbrev pub choose : String → String → List String → String
choose wanted chosen [] = chosen
choose wanted chosen (o ∷ os) = choose wanted (if str_eq o wanted then o else chosen) os

abbrev pub first_or_empty : List String → String
first_or_empty [] = ""
first_or_empty (o ∷ _) = o

abbrev pub select_option : String → List String → String
select_option wanted options = choose wanted (first_or_empty options) options

-- whether an action is among those of a setting
abbrev pub has_action : String → List String → Bool
has_action action [] = false
has_action action (a ∷ rest) = str_eq a action || has_action action rest

-- the row that `initFromSched` makes of a setting
pub rule_of : List String → Setting → Rule
rule_of all_job_names s = record {
  id = select_option s.id (names_of all_job_names);
  rule = select_option s.rule rule_box_options;
  duration = hours_minutes (s.duration / 60) (s.duration % 60);
  email = has_action "EMAIL" s.actions;
  kill = has_action "KILL" s.actions;
}

-- The loop over the settings: `insertRow(0)` puts each row above the others.
pub init_from_sched : List String → List Setting → List Rule → List Rule
unfolding rule_of
init_from_sched all_job_names [] rows = rows
init_from_sched all_job_names (s ∷ ss) rows =
    init_from_sched all_job_names ss (rule_of all_job_names s ∷ rows)

-- `handleAddRow`: a row above the button, so below the others
unfoldable pub add_rule : List String → List Rule → List Rule
add_rule all_job_names rows =
    rows
    ++ record {
      id = first_or_empty (names_of all_job_names);
      rule = first_or_empty rule_box_options;
      duration = typed "";
      email = false;
      kill = false;
    }
      ∷ []

-- `for (i < n) deleteRow(0)`
abbrev pub delete_rows : ℕ → List Rule → List Rule
delete_rows zero rows = rows
delete_rows (suc n) [] = []
delete_rows (suc n) (r ∷ rows) = delete_rows n rows

abbrev pub count_rules : List Rule → ℕ
count_rules [] = 0
count_rules (r ∷ rows) = suc (count_rules rows)

-- `handleSlaCancel`: every row but that of the button goes.
pub cancel : List Rule → List Rule
cancel rows = delete_rows (count_rules rows) rows

-- `settings` in `handleSetSla`, by row number; the texts that join a row's fields are left as the fields.
pub handle_set_sla : ℕ → List Rule → List (ℕ × Rule)
handle_set_sla row [] = []
handle_set_sla row (r ∷ rows) = (row, r) ∷ handle_set_sla (suc row) rows
