-- ===== src/Params/Load.antt =====
-- Loading the options of a flow into the execution dialog: `fetchFlowInfo`
-- (src/web/js/azkaban.ajax.utils.js), `initialize` and the first part of `changeFlowInfo`
-- (src/web/js/azkaban.flow.execute.view.js). The radio buttons and selects have every option that the
-- server sends.
pub mod Laws
use Prim.Native.String
use azkaban.Prelude.{
  ℕ, String, List, [], ◌∷◌, ◌++◌, Option, none, some, Bool, true, false, not, ◌≡◌, ◌≢◌, refl, ◌||◌,
  ◌∙◌, ap, arith, str_eq, eq_iff, contains, if◌then◌else◌,
}
use azkaban.Prelude.Dict.{get, keys}
use azkaban.Params.{
  Row, Params, Form, add_row, add_params, read_rows, ExecutingData, execution_option_data,
}
use azkaban.Params.Laws.{
  IsObject, last_value, or_else, get-read_rows, last_value-append, get-none_of_absent,
}

-- The attributes that `changeFlowInfo` reads; `none` is one that is missing or empty.
pub record FlowInfo : Type 0 where
  pub success_emails : Option (List String)
  pub failure_emails : Option (List String)
  pub failure_action : Option String
  pub notify_first : Bool
  pub notify_last : Bool
  pub flow_params : Option Params
  pub concurrent_option : Option String
  pub pipeline_level : Option String
  pub queue_level : Option String
  pub override_success_emails : Bool
  pub override_failure_emails : Bool

-- What the server answers: an error, or the options. It has no word on the overrides.
pub data Answer : Type 0 where
  error : Answer
  info : FlowInfo → Answer

-- `fetchFlowInfo`: the two attributes for the overrides are not set.
pub fetch_flow_info : Answer → FlowInfo → FlowInfo
fetch_flow_info error attributes = attributes
fetch_flow_info (info data') attributes = record data' {
  override_success_emails = attributes.override_success_emails;
  override_failure_emails = attributes.override_failure_emails;
}

-- The form, and whether the two boxes for emails are disabled.
pub record Panel : Type 0 where
  pub form : Form
  pub success_disabled : Bool
  pub failure_disabled : Bool

-- the click handlers that `initialize` binds
unfoldable pub click_override_success : Bool → Panel → Panel
click_override_success checked p = record p {
  form = record (p.form) { success_emails_override = checked };
  success_disabled = not checked;
}

unfoldable pub click_override_failure : Bool → Panel → Panel
click_override_failure checked p = record p {
  form = record (p.form) { failure_emails_override = checked };
  failure_disabled = not checked;
}

unfoldable pub append : String → String → String
append String.[] t = t
append (String.◌∷◌ c s) t = String.◌∷◌ c (append s t)

-- `join()`
unfoldable pub join : List String → String
unfolding append
join [] = ""
join (s ∷ ss) = elim ss [ [] ↦ s | _ ∷ _ ↦ append s (append "," (join ss)) ]

abbrev pub set_or_keep {ℓ κ} : {A : Type ℓ} {B : Type κ} → (A → B) → Option A → B → B
set_or_keep f none old = old
set_or_keep f (some v) old = f v

-- `changeFlowInfo` up to the part on the node statuses, and its last part
pub change_options : FlowInfo → Panel → Panel
unfolding add_params join
change_options i p =
    let f = p.form in
    record {
      form = record {
        rows = elim i.flow_params [ none ↦ f.rows | some ps ↦ add_params ps f.rows ];
        failure_action = set_or_keep (λ v. v) i.failure_action f.failure_action;
        failure_emails = set_or_keep join i.failure_emails f.failure_emails;
        success_emails = set_or_keep join i.success_emails f.success_emails;
        notify_failure_first = i.notify_first || f.notify_failure_first;
        notify_failure_last = i.notify_last || f.notify_failure_last;
        failure_emails_override = i.override_failure_emails || f.failure_emails_override;
        success_emails_override = i.override_success_emails || f.success_emails_override;
        concurrent_option = set_or_keep (λ v. v) i.concurrent_option f.concurrent_option;
        pipeline_level = set_or_keep (λ v. v) i.pipeline_level f.pipeline_level;
        queue_level = set_or_keep (λ v. v) i.queue_level f.queue_level;
      };
      success_disabled = not i.override_success_emails || p.success_disabled;
      failure_disabled = not i.override_failure_emails || p.failure_disabled;
    }
