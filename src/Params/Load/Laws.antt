-- ===== src/Params/Load/Laws.antt =====
-- What the request sends of the options that were loaded (src/web/js/azkaban.flow.execute.view.js).
use azkaban.Prelude.{
  String, List, [], Option, none, some, Bool, ◌≡◌, ◌≢◌, refl, ap, sym, ◌||◌, ◌∙◌, arith,
}
use azkaban.Prelude.Dict.{get}
use azkaban.Params.{Row, Params, add_params, ExecutingData, execution_option_data}
use azkaban.Params.Laws.{IsObject, last_value, or_else, get-read_rows, last_value-add_params}
use azkaban.Params.Load.{FlowInfo, info, fetch_flow_info, Panel, join, set_or_keep, change_options}

-- the parameters of the information, none if there are not any
abbrev pub params_of : FlowInfo → Params
params_of i = elim i.flow_params [ none ↦ [] | some ps ↦ ps ]

-- The request after the information `i` was loaded.
abbrev pub sent : FlowInfo → FlowInfo → Panel → List (String × Bool) → ExecutingData
sent i attributes p m =
    execution_option_data (change_options (fetch_flow_info (info i) attributes) p).form m

last_value-params :
    (o : Option Params) (rows : List Row) (k : String)
    → IsObject (elim o as (λ _. Params) [ none ↦ [] | some ps ↦ ps ])
    → last_value (elim o as (λ _. List Row) [ none ↦ rows | some ps ↦ add_params ps rows ]) k
      ≡ or_else (get k (elim o as (λ _. Params) [ none ↦ [] | some ps ↦ ps ])) (last_value rows k)
unfolding get
last_value-params none rows k h = refl
last_value-params (some ps) rows k h = last_value-add_params ps rows k h

or_else_twice : (a b : Option String) → or_else a (or_else a b) ≡ or_else a b
or_else_twice none b = refl
or_else_twice (some v) b = refl

or_else-none : (a : Option String) → or_else a none ≡ a
or_else-none none = refl
or_else-none (some v) = refl

module _ (i attributes : FlowInfo) (p : Panel) (m : List (String × Bool)) where
  -- What is sent after the information on a flow was loaded: each parameter of the flow with its
  -- value, and the others of the table with theirs; each option that the server gave, and those that
  -- were in the form for the others. Whether the emails override those of the flow is not among what
  -- the server gives: it is as it was.
  pub change_options-sent :
      IsObject (params_of i)
      → ((k : String)
          → k ≢ ""
          → get k (sent i attributes p m).flow_override
            ≡ or_else (get k (params_of i)) (last_value p.form.rows k))
        × ((sent i attributes p m).failure_action
            ≡ set_or_keep (λ v. v) i.failure_action p.form.failure_action)
        × ((sent i attributes p m).failure_emails
            ≡ set_or_keep join i.failure_emails p.form.failure_emails)
        × ((sent i attributes p m).success_emails
            ≡ set_or_keep join i.success_emails p.form.success_emails)
        × ((sent i attributes p m).concurrent_option
            ≡ set_or_keep (λ v. v) i.concurrent_option p.form.concurrent_option)
        × ((sent i attributes p m).failure_emails_override
            ≡ (attributes.override_failure_emails || p.form.failure_emails_override))
        × ((sent i attributes p m).success_emails_override
            ≡ (attributes.override_success_emails || p.form.success_emails_override))
  unfolding change_options fetch_flow_info execution_option_data get
  change_options-sent h = (
    λ k ne.
        get-read_rows
          (elim i.flow_params as (λ _. List Row) [
            | none ↦ p.form.rows
            | some ps ↦ add_params ps p.form.rows
          ])
          [] k ne
        ∙ or_else-none _
        ∙ last_value-params i.flow_params p.form.rows k h,
    refl,
    refl,
    refl,
    refl,
    refl,
    refl,
  )

keep_twice :
    {A : Type 0} (f : A → String) (o : Option A) (b : String)
    → set_or_keep f o (set_or_keep f o b) ≡ set_or_keep f o b
keep_twice f none b = refl
keep_twice f (some v) b = refl

or_twice : (a b : Bool) → (a || (a || b)) ≡ (a || b)
or_twice a b = ground arith

abbrev pub reload : FlowInfo → FlowInfo → Panel → Panel
reload i attributes p = change_options (fetch_flow_info (info i) attributes) p

rows_of_change_options :
    (i attributes : FlowInfo) (p : Panel) (k : String)
    → IsObject (params_of i)
    → last_value (reload i attributes p).form.rows k
      ≡ or_else (get k (params_of i)) (last_value p.form.rows k)
unfolding change_options fetch_flow_info
rows_of_change_options i attributes p k h = last_value-params i.flow_params p.form.rows k h

-- Loading the same information into the form twice, as reopening the dialog does, adds its rows
-- again and sends the same request: the same value for each parameter and the same options.
pub change_options_twice :
    (i attributes : FlowInfo) (p : Panel) (m : List (String × Bool))
    → IsObject (params_of i)
    → ((k : String)
        → k ≢ ""
        → get k (sent i attributes (reload i attributes p) m).flow_override
          ≡ get k (sent i attributes p m).flow_override)
      × (record (sent i attributes (reload i attributes p) m) { flow_override = [] }
          ≡ record (sent i attributes p m) { flow_override = [] })
unfolding change_options fetch_flow_info execution_option_data
change_options_twice i attributes p m h = (
  λ k ne.
      (change_options-sent i attributes (reload i attributes p) m h).0 k ne
      ∙ ap (or_else (get k (params_of i))) (rows_of_change_options i attributes p k h)
      ∙ or_else_twice (get k (params_of i)) (last_value p.form.rows k)
      ∙ sym ((change_options-sent i attributes p m h).0 k ne),
  simp (keep_twice, or_twice),
)
