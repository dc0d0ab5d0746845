-- ===== src/Tests/Jobs.antt =====
-- The list of jobs and the sortable tables at examples.
use azkaban.Prelude.{
  Option, get_elem?, ℕ, ◌≤◌, arith, List, [], ◌∷◌, none, some, false, true, ◌≡◌, refl, Bool,
}
use azkaban.Texts.{Text}
use azkaban.JobList.{Entry, JobList, plain}
use azkaban.Prelude.Sort.{count}
use azkaban.TableSort.{Row, initialize, sort, Mark, unmarked, asc, desc, Sorter, handle_clicks}
use azkaban.TableSort.Clicks.{handle_clicks-IsOrdered}
use azkaban.TableSort.Groups.{Group, group, rows_of, times}
use azkaban.TableSort.Rows.{IsOrdered, IsAscending, IsDescending, sort-IsOrdered}

abbrev entry : Text → Entry
entry id = record { job_id = id; link = plain id; visible = true; is_selected = false }

abbrev jobs : JobList
jobs = record {
  filter = none;
  selected = none;
  entries = entry (97 ∷ 98 ∷ 97 ∷ []) ∷ entry (99 ∷ []) ∷ [];
}

-- a row with a child row, and another row
abbrev rows : List Row
rows =
    record { id = 0; cells = (98 ∷ []) ∷ []; is_child = false }
    ∷ record { id = 1; cells = []; is_child = true }
    ∷ record { id = 2; cells = (97 ∷ []) ∷ []; is_child = false }
    ∷ []

rows_are_apart : (i : ℕ) → times i rows ≤ 1
rows_are_apart i = ground arith

sort-IsOrdered_example :
    (groups : List Group) × (sort (λ c. c ∷ []) 0 false (initialize rows)
      ≡ some (record (initialize rows) { rows = rows_of groups }))
    × IsOrdered (λ c. c ∷ []) 0 false groups
    × ((p : Group → Bool) → count p groups ≡ count p (group rows))
    × (rows_of (group rows) ≡ rows)
sort-IsOrdered_example = sort-IsOrdered (λ c. c ∷ []) 0 false rows rows_are_apart refl refl

abbrev marks : List Mark
marks = unmarked ∷ asc ∷ []

-- up by the first column, and then down by it
abbrev clicked : Option Sorter
clicked =
    handle_clicks (λ c. c ∷ []) (0 ∷ 0 ∷ [])
      (record { marks = unmarked ∷ asc ∷ []; table = initialize rows })

handle_clicks-IsOrdered_example :
    (s : Sorter) × (groups : List Group) × (clicked ≡ some s)
    × (s.table.rows ≡ rows_of groups)
    × ((p : Group → Bool) → count p groups ≡ count p (group rows))
    × (rows_of (group rows) ≡ rows)
    × (get_elem? s.marks 0 ≡ some asc → IsAscending (λ c. c ∷ []) 0 groups)
    × (get_elem? s.marks 0 ≡ some desc → IsDescending (λ c. c ∷ []) 0 groups)
handle_clicks-IsOrdered_example =
    handle_clicks-IsOrdered (λ c. c ∷ []) (0 ∷ []) 0 (unmarked ∷ asc ∷ []) rows rows_are_apart refl
      (refl, (refl, tt))
