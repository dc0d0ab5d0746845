-- ===== src/Tests/Forms.antt =====
-- The forms at examples.
use azkaban.Prelude.{String, [], ◌∷◌, true, false, ◌≡◌, ◌≢◌, refl, arith, eq_iff}
use azkaban.Params.{Params, Form}
use azkaban.Permission.{Permission, View, commit, IsShown, sent_permission}

abbrev job : Params
job = ("type", "command") ∷ ("retries", "3") ∷ ("dependencies", "start") ∷ []

retries-ne_empty : ◌≢◌ {A = String} "retries" ""
retries-ne_empty e = ground (arith, e, eq_iff "retries" "")

abbrev form : Form
form = record {
  rows = record { name = "k"; value = "1" } ∷ record { name = "k"; value = "2" } ∷ [];
  failure_action = "finishCurrent";
  failure_emails = "";
  success_emails = "";
  notify_failure_first = true;
  notify_failure_last = false;
  failure_emails_override = false;
  success_emails_override = false;
  concurrent_option = "queue";
  pipeline_level = "1";
  queue_level = "2";
}

abbrev reader : Permission
reader = record { admin = false; read = true; write = false; execute = false; schedule = false }

abbrev admin : Permission
admin = record { admin = true; read = true; write = true; execute = true; schedule = true }

abbrev closed : Permission → View
closed p = record {
  permission = p;
  new_perm = false;
  do_proxy = false;
  dialog = record { checked = p; fixed = p.admin; label = commit; greyed = false; enabled = true };
}

closed-IsShown : IsShown (closed reader)
closed-IsShown = record {
  boxes = refl;
  locked = refl;
  removes = λ e f. ground (arith, e);
  commits = λ e. refl;
}

closed_admin-IsShown : IsShown (closed admin)
closed_admin-IsShown = record {
  boxes = refl;
  locked = refl;
  removes = λ e f. ground (arith, e);
  commits = λ e. refl;
}

sent_closed : (p : Permission) → (closed p).dialog.checked ≡ sent_permission (closed p)
unfolding sent_permission
sent_closed p = refl
