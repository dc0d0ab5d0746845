-- ===== src/Tests/Menus.antt =====
-- The menus, the loading of options and the bounds of a drawn graph at examples.
use azkaban.Prelude.{
  ℕ, String, List, [], ◌∷◌, none, some, Bool, true, false, not, ◌≡◌, refl, str_eq, arith, eq_iff,
  if◌then◌else◌, ltb, ◌==◌,
}
use azkaban.Prelude.Dict.{get, delete}
use azkaban.Flow.Graph.{JobNode, NodeMap, ok}
use azkaban.Flow.Disable.{Flags, GraphModel, set_disabled}
use azkaban.Flow.Disable.Recurse.{Marked, Reaches, IsRanked}
use azkaban.Flow.Menu.{enable, enable_ancestors, disable_ancestors, staging_menu_click}
use azkaban.Flow.Menu.Laws.{staging_menu_click-enable_ancestors}
use azkaban.Params.{Form}
use azkaban.Params.Load.{
  FlowInfo, Panel, click_override_success, click_override_failure, join, append,
}
use azkaban.Navigate.Bounds.{Box, unset, add_all, widen}

abbrev plain : String → JobNode
plain id = record {
  id = id;
  status = "READY";
  in_keys = none;
  out_keys = none;
  in_nodes = none;
  out_nodes = none;
}

abbrev last_job : JobNode
last_job = record (plain "b") { in_nodes = some ("a" ∷ []) }

abbrev sample : NodeMap
sample = ("a", plain "a") ∷ ("b", last_job) ∷ []

abbrev model : GraphModel
model = record { nodes = sample; node_map = sample; disabled = ("b", true) ∷ []; changes = 0 }

abbrev rank : String → ℕ
rank id = if str_eq "b" id then 1 else 0

sample-IsRanked : IsRanked (λ n. n.in_nodes) sample rank
unfolding get
sample-IsRanked = record {
  falls = λ id k n e c. ground (arith, e, c, eq_iff "a" k, eq_iff "b" k);
  leads = λ id k n e c. (plain "a", ground (arith, e, c, eq_iff "a" k));
}

found : get "b" sample ≡ some last_job
unfolding get
found = refl

staging_menu_click-enable_ancestors_example :
    (m : Flags) × (staging_menu_click 2 enable_ancestors "b" model ≡ ok (set_disabled model m))
    × (staging_menu_click 2 disable_ancestors "b" model ≡ ok (set_disabled model m))
    × Marked (Reaches (λ n. n.in_nodes) sample "b") true model.disabled m
staging_menu_click-enable_ancestors_example =
    staging_menu_click-enable_ancestors rank 2 "b" model last_job sample-IsRanked (omega arith)
      found

the_flag_is_deleted : staging_menu_click 2 enable "b" model ≡ ok (set_disabled model [])
unfolding staging_menu_click delete
the_flag_is_deleted = refl

abbrev form : Form
form = record {
  rows = record { name = "k"; value = "1" } ∷ [];
  failure_action = "finishCurrent";
  failure_emails = "";
  success_emails = "";
  notify_failure_first = true;
  notify_failure_last = false;
  failure_emails_override = false;
  success_emails_override = false;
  concurrent_option = "queue";
  pipeline_level = "1";
  queue_level = "2";
}

abbrev panel : Panel
panel = record { form = form; success_disabled = false; failure_disabled = false }

abbrev options : FlowInfo
options = record {
  success_emails = some ("a" ∷ "b" ∷ []);
  failure_emails = none;
  failure_action = some "cancelImmediately";
  notify_first = false;
  notify_last = true;
  flow_params = some (("k", "2") ∷ []);
  concurrent_option = none;
  pipeline_level = none;
  queue_level = none;
  override_success_emails = false;
  override_failure_emails = false;
}

emails_are_joined : join ("a" ∷ "b" ∷ []) ≡ "a,b"
unfolding join append
emails_are_joined = refl

a_box_opens_and_closes :
    click_override_success false (click_override_success true panel)
    ≡ record panel { success_disabled = true }
unfolding click_override_success
a_box_opens_and_closes = refl

the_boxes_are_apart : (click_override_failure true panel).success_disabled ≡ panel.success_disabled
unfolding click_override_failure
the_boxes_are_apart = refl

abbrev boxes : List (Box ℕ)
boxes =
    record { min_x = 3; min_y = 4; max_x = 5; max_y = 6 }
    ∷ record { min_x = 1; min_y = 7; max_x = 2; max_y = 9 }
    ∷ []

abbrev truthy : ℕ → Bool
truthy a = not (a == 0)

abbrev at_zero : Box ℕ
at_zero = record { min_x = 0; min_y = 4; max_x = 5; max_y = 6 }

abbrev right_of_it : Box ℕ
right_of_it = record { min_x = 8; min_y = 4; max_x = 9; max_y = 6 }

the_margin :
    widen ltb truthy (λ a. a) (λ a. a) 0 30 (add_all ltb truthy unset boxes)
    ≡ record { min_x = 1; min_y = 4; max_x = 5; max_y = 9 }
unfolding widen add_all
the_margin = refl
