-- ===== src/Tests/Run.antt =====
-- The page of a running execution, and the graph's navigation, at examples.
use azkaban.Prelude.{
  sym, ap, inr, ◌≢◌, ◌==◌, if◌then◌else◌, ℕ, ◌≤◌, String, List, [], ◌∷◌, none, some, true, false,
  ◌≡◌, ◌⊎◌, refl, arith, length,
}
use mathlib.Core.Path.{subst}
use azkaban.Prelude.Dict.{get}
use azkaban.Prelude.Int.{pos}
use azkaban.Flow.Graph.{ok}
use azkaban.Execution.Status.{
  Status, succeeded, paused, running, failed, preparing, status_string, queued, Tabs, graph,
  flow_log, click_tab,
}
use azkaban.Execution.Poll
use azkaban.Execution.Poll.{here, next, tick, answer, opened, run_updater, Polls, Reach-Polls}
use azkaban.Execution.Update.{
  ExecNode, ExecNodes, update_nodes, merge_node, IsUpdated, update_nodes-merged,
}
use azkaban.Execution.Log.{
  Char, Log, Answer, error, chunk, empty, bytes, IsPart, Serves, IsPrefixOf, job_update,
  job_update-IsPrefixOf,
}
use azkaban.Navigate.Drag.{Target}

-- a character of two bytes, and one of one
abbrev first_char : Char
first_char = record { code = 233; more = 1 }

abbrev second_char : Char
second_char = record { code = 10; more = 0 }

abbrev log : List Char
log = first_char ∷ second_char ∷ []

-- One character for an answer.
abbrev serve : ℕ → ℕ → Answer
serve offset len =
    if offset == 0
    then chunk 0 2 (first_char ∷ [])
    else if offset == 2
    then chunk 2 1 (second_char ∷ [])
    else chunk offset 0 []

abbrev rest_of : List Char → List Char
rest_of [] = []
rest_of (x ∷ xs) = xs

abbrev first_of : List Char → Char
first_of [] = first_char
first_of (x ∷ xs) = x

IsServed : List Char → List Char → Type 0
IsServed before after =
    (serve (bytes before) 50000 ≡ error) ⊎ IsPart before after (serve (bytes before) 50000)

serve_second : (after : List Char) → second_char ∷ [] ≡ after → IsServed (first_char ∷ []) after
unfolding IsServed
serve_second after e =
    inr (second_char ∷ [], [], sym e, refl, λ h. absurd (ground (arith, ap length h)))

serve_none : (after : List Char) → [] ≡ after → IsServed log after
unfolding IsServed
serve_none after e = inr ([], [], sym e, refl, λ _. sym e)

serve-Serves : Serves log serve
unfolding IsServed
serve-Serves [] after e =
    inr (first_char ∷ [], second_char ∷ [], sym e, refl, λ h. absurd (ground (arith, ap length h)))
serve-Serves (x ∷ []) after e =
    subst (λ c. IsServed (c ∷ []) after) (ap first_of e) (serve_second after (ap rest_of e))
serve-Serves (x ∷ y ∷ []) after e =
    subst (λ c. IsServed (c ∷ y ∷ []) after) (ap first_of e)
      (subst (λ c. IsServed (first_char ∷ c ∷ []) after) (ap (λ l. first_of (rest_of l)) e)
        (serve_none after (ap (λ l. rest_of (rest_of l)) e)))
serve-Serves (x ∷ y ∷ z ∷ zs) after e = absurd (omega (arith, ap length e))

empty-IsPrefixOf : IsPrefixOf log empty log
empty-IsPrefixOf = record { text = refl; offset = refl }

job_update-IsPrefixOf_example :
    (l : Log) × (later : List Char) × (job_update serve (λ k. 5) 4 empty ≡ some l)
    × IsPrefixOf log l later
    × (((k : ℕ) → 5 ≤ 10000) → ((offset : ℕ) → serve offset 50000 ≢ error) → later ≡ [])
job_update-IsPrefixOf_example =
    job_update-IsPrefixOf log serve serve-Serves (λ k. 5) 4 empty log empty-IsPrefixOf (omega arith)

abbrev node : String → Status → ExecNode
node id s = record {
  id = id;
  start_time = some 7;
  update_time = some 8;
  end_time = none;
  status = s;
  attempt = 0;
  past_attempts = [];
}

abbrev page_nodes : ExecNodes
page_nodes = ("a", node "a" running) ∷ ("b", node "b" preparing) ∷ []

known : get "a" page_nodes ≡ some (node "a" running)
unfolding get
known = refl

-- the second attempt of a job, and then an update of its start without one
abbrev updates : List ExecNode
updates =
    record (node "a" failed) { attempt = 1; past_attempts = failed ∷ [] } ∷ node "a" running ∷ []

update_nodes-merged_example :
    (m : ExecNodes) × (update_nodes updates page_nodes ≡ ok m)
    × ((j : String) → get j page_nodes ≡ none → get j m ≡ none)
    × ((j : String) (old : ExecNode)
        → get j page_nodes ≡ some old
        → (new : ExecNode) × (get j m ≡ some new) × IsUpdated updates j old new)
update_nodes-merged_example =
    update_nodes-merged updates page_nodes
      ((node "a" running, known), ((node "a" running, known), tt))

-- the flow is paused when the page opens; then a poll, its answer, and the next poll, which ends it
abbrev polled : Poll.Page
polled = run_updater (opened paused)

abbrev answered : Poll.Page
answered = record polled { status = succeeded; requests = 1 }

polling : Poll.Reach (opened paused) (run_updater answered)
unfolding opened run_updater
polling =
    next (next (next here (tick (opened paused) refl)) (answer polled succeeded 1 refl))
      (tick answered refl)

Reach-Polls_example : Polls (run_updater answered)
Reach-Polls_example = Reach-Polls paused (run_updater answered) polling

abbrev target : Target
target = record {
  mx = pos 0;
  my = pos 0;
  m_down = false;
  translate_x = pos 10;
  translate_y = pos 20;
}

-- A queued job has no text to show.
queued_has_no_string : status_string queued ≡ none
unfolding status_string
queued_has_no_string = refl

abbrev tabs : Tabs
tabs = record {
  graph_selected = false;
  jobs_selected = true;
  log_selected = false;
  graph_shown = false;
  jobs_shown = true;
  log_shown = false;
}

the_last_tab_stays : click_tab graph (click_tab flow_log tabs) ≡ click_tab graph tabs
unfolding click_tab
the_last_tab_stays = refl

an_update_keeps_the_id : (merge_node (node "a" failed) (node "b" running)).id ≡ "b"
unfolding merge_node
an_update_keeps_the_id = refl
