-- ===== src/Tests/Lists.antt =====
-- The list of projects, the deadlines, the menu at the side, the summary and the marks of jobs at
-- examples.
use azkaban.Prelude.{◌⊎◌, some, ℕ, String, List, [], ◌∷◌, none, Bool, true, false, ◌≡◌, refl, ltb}
use azkaban.Prelude.Dict.{get, put, change}
use azkaban.Texts.{Text}
use azkaban.Folding.{here, next, click_row}
use azkaban.Deadlines.{Setting, typed, add_rule}
use azkaban.Params.Side.{Header, Menu, element, IsAt, initialize, select_all, initialize-IsAt}
use azkaban.Flow.Graph.{JobNode}
use azkaban.JobList.Marks
use azkaban.Params.Load.{append}
use azkaban.Execution.Status.{Tabs, click_tab}
use azkaban.Execution.Start.{open_hash}
use azkaban.FlowTable.{Job, Link, create_job_list_table, run_job, run_with_dep, execute_flow}
use azkaban.FlowTable.Expand
use azkaban.FlowTable.Expand.{FlowRow, expand_flow_project, Reach-unfolds}

abbrev first_letter : Text → Text → Bool
first_letter [] [] = false
first_letter [] (_ ∷ _) = true
first_letter (_ ∷ _) [] = false
first_letter (a ∷ _) (b ∷ _) = ltb a b

abbrev flows : List Text
flows = (99 ∷ []) ∷ (97 ∷ []) ∷ []

abbrev setting : Setting
setting = record { id = "a"; rule = "FINISH"; duration = 90; actions = "KILL" ∷ [] }

a_new_rule_is_for_the_flow :
    add_rule ("a" ∷ []) []
    ≡ record { id = ""; rule = "SUCCESS"; duration = typed ""; email = false; kill = false } ∷ []
unfolding add_rule
a_new_rule_is_for_the_flow = refl

abbrev header : String → String → Header
header id panel = record { id = id; view_panel = panel; selected = false; content_shown = true }

abbrev menu : Menu
menu = record {
  headers = header "flowOption" "flowPanel" ∷ header "paramOption" "paramPanel" ∷ [];
  panels =
      record { panel_id = "flowPanel"; shown = true }
      ∷ record { panel_id = "paramPanel"; shown = true }
      ∷ [];
}

initialize-IsAt_example :
    IsAt "paramOption"
      (select_all (element "flowOption" ∷ element "paramOption" ∷ []) (initialize menu))
initialize-IsAt_example =
    initialize-IsAt (element "flowOption" ∷ element "paramOption" ∷ []) menu refl

abbrev nodes : List JobNode
nodes =
    record {
      id = "a";
      status = "SKIPPED";
      in_keys = none;
      out_keys = none;
      in_nodes = none;
      out_nodes = none;
    }
    ∷ []

abbrev placed : List (Marks.Placed ℕ)
placed =
    record { id = "b"; status = "READY"; x = 1; y = 2 }
    ∷ record { id = "a"; status = "RUNNING"; x = 5; y = 1 }
    ∷ []

abbrev items : Marks.Items
items =
    ("a", record { status = "RUNNING" ∷ []; node_disabled = false; selected = false })
    ∷ ("b", record { status = "READY" ∷ []; node_disabled = true; selected = false })
    ∷ []

the_list_goes_from_top_to_bottom :
    Marks.render ltb (("b", true) ∷ []) ("a" ∷ "b" ∷ []) placed ≡ items
unfolding Marks.render Marks.assign_initial_status Marks.handle_disabled_change change get put
the_list_goes_from_top_to_bottom = refl

abbrev jobs : List Job
jobs =
    record { id = "a"; level = 0; dependents = "b" ∷ []; dependencies = [] }
    ∷ record { id = "b"; level = 1; dependents = []; dependencies = "a" ∷ [] }
    ∷ []

abbrev link_of_b : Link
link_of_b = record {
  text = "b";
  margin_left = 20;
  flow_id = "f";
  dependents = [];
  dependencies = "a" ∷ [];
  can_run = true;
}

the_second_job_is_indented :
    get "f-b" (create_job_list_table true "f" jobs [])
    ≡ some (record { link = link_of_b; marks = record { dependent = false; dependency = false } })
unfolding create_job_list_table append get
the_second_job_is_indented = refl

the_buttons_differ_in_the_dependencies :
    record (run_job "f" "a") { with_dep = true } ≡ run_with_dep "f" "a"
unfolding run_job run_with_dep
the_buttons_differ_in_the_dependencies = refl

the_flow_is_run_without_a_job : (execute_flow "f").job ≡ none
unfolding execute_flow
the_flow_is_run_without_a_job = refl

abbrev tabs : Tabs
tabs = record {
  graph_selected = true;
  jobs_selected = false;
  log_selected = false;
  graph_shown = true;
  jobs_shown = false;
  log_shown = false;
}

the_address_names_a_tab : (open_hash "#log" tabs).log_shown ≡ true
unfolding open_hash click_tab
the_address_names_a_tab = refl

abbrev one_job : List Job
one_job = record { id = "a"; level = 0; dependents = []; dependencies = [] } ∷ []

abbrev asked : FlowRow
asked = Expand.waiting true "f" one_job

asked_once : Expand.Reach true "f" one_job (Expand.fresh true "f" one_job) asked
unfolding expand_flow_project
asked_once = next here (click_row true (Expand.fresh true "f" one_job))

Reach-unfolds_example :
    ((asked ≡ Expand.fresh true "f" one_job)
      ⊎ ((asked ≡ Expand.waiting true "f" one_job)
          ⊎ ((shown : Bool) × (asked ≡ Expand.unfolded true "f" one_job shown))))
    × Expand.Reach true "f" one_job asked (Expand.unfolded true "f" one_job true)
Reach-unfolds_example = Reach-unfolds true "f" one_job asked asked_once
