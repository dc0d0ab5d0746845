-- ===== src/Tests/Staging.antt =====
-- The staging page at examples.
use azkaban.Prelude.{
  if◌then◌else◌, none, false, Bool, ℕ, String, List, [], ◌∷◌, some, true, ◌≡◌, refl, inl, ltb, ◌+◌,
  ◌-◌, ◌≤◌, ◌++◌, map, not, all, ◌==◌, arith,
}
use azkaban.Dates.{Date}
use azkaban.Duration.{Shows}
use azkaban.Staging.Rows.{Execution, row_of, row_of-elapsed}
use azkaban.Texts.{Text, is_empty, trim}
use azkaban.Staging.Filter.{ids, staging_filter_jobs, staging_filter_jobs-AllShownBy}
use azkaban.JobList.{JobList, plain, AllShownBy}
use azkaban.Navigate.Bounds.{Box, AllCovered, AreTruthy, unset}
use azkaban.Staging.Drawing.{Node, Edge, Shape, Drawing, node_table, render as render_graph}
use azkaban.Staging.Drawing.Laws.{boxes, has_ends, group_of, AreDrawn, render-AreDrawn}
use azkaban.Prelude.Dict.{get, put, change}
use azkaban.Prelude.Int.{ℤ, pos, negsuc}
use azkaban.Flow.Graph.{Outcome, ok, type_error}
use azkaban.Flow.Disable.{GraphModel, is_disabled}
use azkaban.Flow.Menu.{disable}
use azkaban.JobList.Marks.{Placed}
use azkaban.Staging.Views.{
  Shades, Page, Event, click_item, click_node, menu_action, render, run, steps, left_by,
}
use azkaban.Staging.Views.Agree.{is_job}
use azkaban.Staging.Views.Steps.{run-views}
use azkaban.Staging.Views.Disabled.{steps-disabled}
use azkaban.Staging.Executions
use azkaban.Staging.Executions.{
  PageNumber, number, same_page, handle_execution_link_click, open_hash, made, show_answer, Step,
  click_executions, arrive, Reach, here, next, ArriveInOrder,
}
use azkaban.Staging.Executions.Order.{Reach-rows, Reach-stale}
use azkaban.Staging.Executions.Address.{link_to, at_page, open_hash-link_to}

abbrev placed : String → ℕ → Placed ℕ
placed id y = record { id = id; status = "READY"; x = 0; y = y }

abbrev nodes : List (Placed ℕ)
nodes = placed "b" 2 ∷ placed "a" 1 ∷ []

abbrev model : GraphModel
model = record { nodes = []; node_map = []; disabled = []; changes = 0 }

abbrev start : Page
start = render ltb nodes model

abbrev events : List Event
events = click_item "a" ∷ menu_action disable "b" ∷ click_node "b" ∷ []

abbrev both : Shades
both = record { disabled = true; selected = true }

the_second_job_is_chosen : get "b" (run 3 events start).items ≡ some both
unfolding get run render put change
the_second_job_is_chosen = refl

abbrev final : Page
final = left_by (steps 3 events start)

no_error : steps 3 events start ≡ ok final
unfolding steps render get put change
no_error = refl

item_b : get "b" final.items ≡ some both
unfolding steps render get put change
item_b = refl

-- the rows are named after their page
abbrev rows_of : PageNumber → PageNumber
rows_of n = n

abbrev seen : Executions.Page PageNumber
seen = handle_execution_link_click made

abbrev loaded : Executions.Page PageNumber
loaded = show_answer rows_of 0 (number (pos 1)) seen

loading : Reach rows_of made loaded
unfolding handle_execution_link_click
loading = next (next here (click_executions made)) (arrive 0 (number (pos 1)) seen refl)

in_order : ArriveInOrder rows_of loading
unfolding loading
in_order = ((tt, tt), tt)

nothing_under_way : loaded.requests ≡ []
unfolding show_answer handle_execution_link_click
nothing_under_way = refl

executions_seen : loaded.tabs.executions_visible ≡ true
unfolding show_answer handle_execution_link_click
executions_seen = refl

abbrev third : Executions.Page PageNumber
third = open_hash (link_to 3) made

run-views_example :
    (get "b" (run 3 events start).items ≡ get "b" (run 3 events start).drawn)
    × ((s : Shades)
        → get "b" (run 3 events start).drawn ≡ some s
        → s.selected ≡ is_job (run 3 events start).selected "b")
run-views_example = run-views ltb nodes model 3 events "b"

steps-disabled_example : true ≡ is_disabled final.model.disabled "b"
steps-disabled_example =
    steps-disabled ltb nodes model 3 events final refl no_error "b" both (inl item_b)

Reach-rows_example : loaded.rows ≡ some (rows_of loaded.page)
Reach-rows_example = Reach-rows rows_of loaded loading in_order executions_seen nothing_under_way

abbrev late_second : Executions.Page PageNumber
late_second =
    show_answer rows_of 0 (number (pos 1))
      (show_answer rows_of 1 (number (pos 2)) (open_hash (link_to 2) made))

Reach-stale_example :
    Reach rows_of made late_second
    × (late_second.tabs.executions_visible ≡ true)
    × (late_second.requests ≡ [])
    × (late_second.page ≡ number (pos 2))
    × (late_second.rows ≡ some (rows_of (number (pos 1))))
Reach-stale_example = Reach-stale rows_of 2 refl

open_hash-link_to_example : third ≡ at_page 3
open_hash-link_to_example = open_hash-link_to 3

abbrev running : Execution
running = record {
  exec_id = 7;
  submit_user = "joe";
  start_time = pos 1000;
  end_time = negsuc 0;
  status = "PAUSED";
}

abbrev no_date : ℤ → Date
no_date _ = record { full_year = 2013; month = 0; date = 1; hours = 0; minutes = 0; seconds = 0 }

row_of-elapsed_example :
    (pos 1000 ≡ pos 1000
      → 1 ≤ 1000
      → (negsuc 0 ≡ pos 2000 → 1000 ≤ 2000 → Shows (row_of no_date 9000 running).elapsed 1000)
        × (negsuc 0 ≡ negsuc 0 → 1000 ≤ 9000 → Shows (row_of no_date 9000 running).elapsed 8000))
    × (pos 1000 ≡ negsuc 0
        → (negsuc 0 ≡ negsuc 0 → Shows (row_of no_date 9000 running).elapsed 9001)
          × (negsuc 0 ≡ pos 2000 → Shows (row_of no_date 9000 running).elapsed 2001))
row_of-elapsed_example = row_of-elapsed no_date 9000 1000 2000 running

paused_has_no_text : (row_of no_date 9000 running).status_text ≡ none
unfolding row_of get
paused_has_no_text = refl

abbrev list_of_jobs : JobList
list_of_jobs = record {
  filter = none;
  selected = none;
  entries =
      record {
        job_id = 97 ∷ 98 ∷ [];
        link = plain (97 ∷ 98 ∷ []);
        visible = true;
        is_selected = false;
      }
      ∷ record { job_id = 99 ∷ []; link = plain (99 ∷ []); visible = true; is_selected = false }
      ∷ [];
}

-- "b" between blanks
abbrev typed_text : Text
typed_text = 32 ∷ 98 ∷ 32 ∷ []

staging_filter_jobs-AllShownBy_example :
    ((staging_filter_jobs typed_text list_of_jobs).filter
      ≡ (if is_empty (trim typed_text) then none else some (trim typed_text)))
    × (ids (staging_filter_jobs typed_text list_of_jobs).entries ≡ ids list_of_jobs.entries)
    × AllShownBy
        (staging_filter_jobs typed_text list_of_jobs).filter
        (staging_filter_jobs typed_text list_of_jobs).entries
staging_filter_jobs-AllShownBy_example =
    staging_filter_jobs-AllShownBy typed_text list_of_jobs ((refl, refl), ((refl, refl), tt))

abbrev at : String → ℕ → Node ℕ
at id x = record { id = id; label = id; x = x; y = x }

abbrev edge : Edge ℕ
edge = record { from = "b"; target = "a"; guides = some ((25, 25) ∷ []) }

abbrev is_set : ℕ → Bool
is_set n = not (n == 0)

abbrev less_ten : ℕ → ℕ
less_ten n = n - 10

abbrev more_ten : ℕ → ℕ
more_ten n = n + 10

abbrev table : List (String × Node ℕ)
table = node_table (at "a" 20 ∷ at "b" 30 ∷ []) []

abbrev all_boxes : List (Box ℕ)
all_boxes = boxes ltb is_set less_ten more_ten (at "a" 20 ∷ at "b" 30 ∷ [])

abbrev drawing : Outcome (Drawing ℕ)
drawing = render_graph ltb is_set less_ten more_ten (at "a" 20 ∷ at "b" 30 ∷ []) (edge ∷ [])

render-AreDrawn_example :
    (all (has_ends table) (edge ∷ []) ≡ true
      → (d : Drawing ℕ) × (drawn : List (Shape ℕ)) × (drawing ≡ ok d)
        × (d.shapes ≡ drawn ++ map group_of (at "a" 20 ∷ at "b" 30 ∷ []))
        × AreDrawn table (edge ∷ []) drawn
        × (AreTruthy ltb is_set all_boxes → AllCovered ltb is_set d.bounds all_boxes))
    × (all (has_ends table) (edge ∷ []) ≡ false
        → (left : List (Shape ℕ)) × (drawing
            ≡ type_error (record { shapes = left; bounds = unset })))
render-AreDrawn_example =
    render-AreDrawn ltb is_set less_ten more_ten (λ a. ground arith)
      (λ a b c h k. ground (arith, h, k)) (λ a b h. ground (arith, h)) (at "a" 20) (at "b" 30 ∷ [])
      (edge ∷ [])

both_ends_are_nodes : all (has_ends table) (edge ∷ []) ≡ true
unfolding node_table get put
both_ends_are_nodes = refl
