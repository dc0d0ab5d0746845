-- ===== src/Execution/Rows.antt =====
-- The table of the jobs of an execution: `updateJobRow` and `addNodeRow` of `ExecutionListView`, and
-- `StatusView` (src/web/js/azkaban.exflow.view.js). A time of -1 is `none`. An element is found by an
-- id that is spelled the same; job ids are made of letters, digits, `-`, `_` and dots.
pub mod Laws
use azkaban.Prelude.{
  ℕ, zero, suc, ◌+◌, ◌≤◌, max, String, List, [], ◌∷◌, ◌++◌, map, Option, none, some, Bool, true,
  false, not, ◌≡◌, refl, ◌&&◌, ◌||◌, any, all, if◌then◌else◌, ltb, ◌==◌, arith, ap, sym, ◌∙◌, inl,
  inr, Bool-cases,
}
use azkaban.Prelude.Sort.{sort_by, any-sort_by, count, count-sort_by, count-append}
use azkaban.Texts.{Text, text_eq, text_eq_iff}
use azkaban.Duration.{DurationText, get_duration}
use azkaban.Execution.Status.{Status, status_list, status_string, has_class, show_status}

pub record Node : Type 0 where
  pub id : Text
  pub start_time : Option ℕ
  pub end_time : Option ℕ
  pub status : Status
  pub past_attempts : List Status

-- A row: the element's id without its ending, the texts, and the boxes of the past attempts, which
-- stand before the progress bar.
pub record Row : Type 0 where
  pub row_id : Text
  pub status_text : Option String
  pub status_class : Option Status
  pub start_text : Option ℕ
  pub end_text : Option ℕ
  pub elapsed : Option DurationText
  pub bar : List Status
  pub attempts : List Status

-- `node.id.replace(".", "\\\\.")`: two backslashes before the first dot
unfoldable pub escape_id : Text → Text
escape_id [] = []
escape_id (c ∷ t) = if c == 46 then 92 ∷ 92 ∷ 46 ∷ t else c ∷ escape_id t

-- the row that `addNodeRow` makes, at the end of the table
abbrev pub new_row : Node → Row
new_row n = record {
  row_id = n.id;
  status_text = none;
  status_class = none;
  start_text = none;
  end_text = none;
  elapsed = none;
  bar = [];
  attempts = [];
}

abbrev pub add_node_row : Node → List Row → List Row
add_node_row n rows = rows ++ new_row n ∷ []

-- the boxes that the loop over the past attempts adds: those without a box yet
pub new_attempts : List Status → List Status → List Status
new_attempts [] past = past
new_attempts (b ∷ boxes) [] = []
new_attempts (b ∷ boxes) (p ∷ past) = new_attempts boxes past

-- what `updateJobRow` sets in a row at the time `now`
pub fill_row : ℕ → Node → Row → Row
unfolding new_attempts
fill_row now n r = record r {
  status_text = status_string n.status;
  status_class = some n.status;
  start_text = n.start_time;
  end_text = n.end_time;
  elapsed = get_duration n.start_time (elim n.end_time [ none ↦ some now | some t ↦ some t ]);
  bar = if has_class n.status r.bar then r.bar else show_status n.status r.bar;
  attempts = r.attempts ++ new_attempts r.attempts n.past_attempts;
}

abbrev pub has_row : Text → List Row → Bool
has_row id = any (λ r. text_eq r.row_id id)

abbrev pub fill_rows : ℕ → Node → List Row → List Row
fill_rows now n [] = []
fill_rows now n (r ∷ rows) =
    (if text_eq r.row_id (escape_id n.id) then fill_row now n r else r) ∷ fill_rows now n rows

abbrev pub is_started : Node → Bool
is_started n = elim n.start_time [ none ↦ false | some _ ↦ true ]

-- The body of the loop. The row is looked up by the id with the backslashes, and made with the id
-- itself.
pub update_row : ℕ → Node → List Row → List Row
unfolding escape_id fill_row
update_row now n rows =
    if is_started n
    then fill_rows now n (if has_row (escape_id n.id) rows then rows else add_node_row n rows)
    else rows

pub update_rows : ℕ → List Node → List Row → List Row
unfolding update_row
update_rows now [] rows = rows
update_rows now (n ∷ ns) rows = update_rows now ns (update_row now n rows)

-- `a.startTime - b.startTime` below 0
abbrev pub starts_before : Node → Node → Bool
starts_before a b = elim b.start_time [
  | none ↦ false
  | some t ↦ elim a.start_time [ none ↦ true | some s ↦ ltb s t ]
]

-- `updateJobRow`
pub update_job_row : ℕ → List Node → List Row → List Row
unfolding update_rows
update_job_row now nodes rows = update_rows now (sort_by starts_before nodes) rows
