-- ===== src/Tests/Table.antt =====
-- The table of the jobs of an execution, and class attributes, at examples.
use azkaban.Prelude.{◌+◌, max, [], ◌∷◌, none, some, ◌≡◌, refl, if◌then◌else◌}
use azkaban.Texts.{Text}
use azkaban.Execution.Status.{running}
use azkaban.Execution.Rows.{Node, escape_id, update_job_row}
use azkaban.Execution.Rows.Laws.{
  count_rows, any_started, update_times, count-update_job_row, count-update_times,
}

abbrev node : Text → Node
node id = record {
  id = id;
  start_time = some 7;
  end_time = none;
  status = running;
  past_attempts = [];
}

abbrev plain_id : Text
plain_id = 97 ∷ 98 ∷ []

abbrev dotted_id : Text
dotted_id = 97 ∷ 46 ∷ 98 ∷ []

count-update_job_row_example : count_rows plain_id (update_job_row 9 (node plain_id ∷ []) []) ≡ (
    if any_started plain_id (node plain_id ∷ [])
    then max 1 (count_rows plain_id [])
    else count_rows plain_id [])
count-update_job_row_example = count-update_job_row 9 (node plain_id ∷ []) [] plain_id refl

escaped : escape_id dotted_id ≡ 97 ∷ 92 ∷ 92 ∷ 46 ∷ 98 ∷ []
unfolding escape_id
escaped = refl

count-update_times_example :
    count_rows dotted_id (update_times 3 9 (node dotted_id ∷ []) []) ≡ count_rows dotted_id [] + 3
count-update_times_example = count-update_times 3 9 (node dotted_id) [] refl refl refl

abbrev attribute : Text
attribute = 97 ∷ 32 ∷ 98 ∷ 98 ∷ []
