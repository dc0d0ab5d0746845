-- ===== src/Staging/Views/Steps.antt =====
-- Events and the two views of the staging page (src/web/js/azkaban.staging.flow.view.js).
use azkaban.Prelude.{
  ℕ, String, List, [], ◌∷◌, Option, none, some, Bool, true, false, ◌≡◌, refl, sym, ◌∙◌, ap, ◌||◌,
  any, contains, str_eq, ◌==◌, if◌then◌else◌, arith, inl, inr, Bool-cases, Option-cases,
}
use mathlib.Core.Path.{subst}
use azkaban.Prelude.Dict.{get}
use azkaban.Prelude.Sort.{sort_by, any-sort_by}
use azkaban.Flow.Graph.{Outcome, ok, type_error, stack_overflow}
use azkaban.Flow.Disable.{GraphModel}
use azkaban.Flow.Menu.{Action, staging_menu_click}
use azkaban.JobList.Marks.{Placed, before}
use azkaban.Staging.Views.{
  Shades, Elements, Page, handle_job_click, click_graph, show_disabled, handle_job_menu_click,
  ids_of, render, Event, click_item, click_node, menu_action, if_there, step, left_by, run,
}
use azkaban.Staging.Views.Agree.{
  is_job, has, Agree, Ends, toggled, picked, unmarked, handle_job_click-Ends, click_graph-Ends,
  show_disabled-Agree, remodel-Agree, get-new_elements,
}

-- The page is in agreement after a handler, and the given job selected.
abbrev Leaves : Option String → Outcome Page → Type 0
Leaves current o = Agree (left_by o) × ((left_by o).selected ≡ current)

Ends-Leaves : (current : Option String) (o : Outcome Page) → Ends current o → Leaves current o
Ends-Leaves current o (q, e, a, h) = (
  subst (λ x. Agree (left_by x)) (sym e) a,
  ap (λ (x : Outcome Page). (left_by x).selected) e ∙ h,
)

show_disabled-selected : (g : GraphModel) (p : Page) → (show_disabled g p).selected ≡ p.selected
unfolding show_disabled
show_disabled-selected g p = elim (Bool-cases (g.changes == p.model.changes)) [
  | inl same ↦ rw same refl
  | inr other ↦ rw other refl
]

handle_job_menu_click-Leaves :
    (fuel : ℕ) (action : Action) (id : String) (p : Page)
    → Agree p
    → Leaves p.selected (handle_job_menu_click fuel action id p)
unfolding handle_job_menu_click
handle_job_menu_click-Leaves fuel action id p a =
    elim (staging_menu_click fuel action id p.model)
      as (λ o. Leaves p.selected (elim o as (λ _. Outcome Page) [
        | ok g ↦ ok (show_disabled g p)
        | type_error g ↦ type_error (record p { model = g })
        | stack_overflow g ↦ stack_overflow (record p { model = g })
      ])) [
        | ok g ↦ (show_disabled-Agree g p a, show_disabled-selected g p)
        | type_error g ↦ (remodel-Agree g p a, refl)
        | stack_overflow g ↦ (remodel-Agree g p a, refl)
      ]

-- the selected job that an event asks for
abbrev pub selected_after : Page → Event → Option String
selected_after p (click_item id) = if has id p.drawn then toggled id p.selected else p.selected
selected_after p (click_node id) = if has id p.drawn then picked id p.selected else p.selected
selected_after p (menu_action action id) = p.selected

if_there-Leaves :
    (id : String) (m : Elements) (o : Outcome Page) (p : Page) (current : Option String)
    → Agree p
    → (has id m ≡ true → Leaves current o)
    → Leaves (if has id m then current else p.selected) (if_there id m o p)
if_there-Leaves id m o p current a h = elim (Option-cases (get id m)) [
  | inl gone ↦ rw (gone, if_there, has) (a, refl)
  | inr (s, e) ↦ rw (e, if_there, has) (h (rw (e, has) refl))
]

same_either : (b : Bool) (o : Option String) → (if b then o else o) ≡ o
same_either true o = refl
same_either false o = refl

-- Where the two views of the staging page have the same elements with the same marks and only the
-- selected job is marked as selected, they do after every event, whether its handler raises an error or
-- not. A click at an item selects its job or, where it was selected, none; a click at a drawn node
-- selects its job; a menu's action keeps the selection.
pub step-Agree :
    (fuel : ℕ) (e : Event) (p : Page)
    → Agree p
    → Agree (left_by (step fuel e p)) × ((left_by (step fuel e p)).selected ≡ selected_after p e)
unfolding step
step-Agree fuel (click_item id) p a =
    let there = ap (λ o. elim o as (λ _. Bool) [ none ↦ false | some _ ↦ true ]) (a.views id) in
    let (agree, chosen) =
      if_there-Leaves id p.items (handle_job_click id p) p (toggled id p.selected) a (λ h.
        Ends-Leaves (toggled id p.selected) (handle_job_click id p)
          (handle_job_click-Ends id p a (sym there ∙ h))) in
    (agree, chosen ∙ ap (λ b. if b then toggled id p.selected else p.selected) there)
step-Agree fuel (click_node id) p a =
    if_there-Leaves id p.drawn (click_graph id p) p (picked id p.selected) a
      (λ h. Ends-Leaves (picked id p.selected) (click_graph id p) (click_graph-Ends id p a h))
step-Agree fuel (menu_action action id) p a =
    let (agree, chosen) =
      if_there-Leaves id p.drawn (handle_job_menu_click fuel action id p) p p.selected a
        (λ _. handle_job_menu_click-Leaves fuel action id p a) in
    (agree, chosen ∙ same_either (has id p.drawn) p.selected)

any-ids_of :
    {A : Type 0} (lt : A → A → Bool) (ns : List (Placed A)) (j : String)
    → contains j (ids_of lt ns) ≡ any (λ n. str_eq n.id j) ns
any-ids_of lt [] j = refl
any-ids_of lt (n ∷ ns) j = ap (str_eq n.id j ||◌) (any-ids_of lt ns j)

module _ {A : Type 0} (lt : A → A → Bool) where
  ids-sorted :
      (ns : List (Placed A)) (j : String)
      → contains j (ids_of lt (sort_by (before lt) ns)) ≡ contains j (ids_of lt ns)
  ids-sorted ns j =
      any-ids_of lt (sort_by (before lt) ns) j
      ∙ (any-sort_by (before lt) (λ n. str_eq n.id j) ns ∙ sym (any-ids_of lt ns j))

  pub render-Agree : (ns : List (Placed A)) (g : GraphModel) → Agree (render lt ns g)
  unfolding render get
  render-Agree ns g = record {
    views = λ j.
        get-new_elements (ids_of lt (sort_by (before lt) ns)) [] j
        ∙ (ap (λ b. if b then some unmarked else none) (ids-sorted ns j)
            ∙ sym (get-new_elements (ids_of lt ns) [] j));
    marks = λ j s e. ground (arith, e, get-new_elements (ids_of lt ns) [] j);
    there = tt;
    named = refl;
  }

  run-Agree : (fuel : ℕ) (es : List Event) (p : Page) → Agree p → Agree (run fuel es p)
  unfolding run
  run-Agree fuel [] p a = a
  run-Agree fuel (e ∷ es) p a =
      run-Agree fuel es (left_by (step fuel e p)) (step-Agree fuel e p a).0

  -- From the page as it is rendered, after any events, errors included, the list and the graph have the
  -- same elements with the same marks, and an element is marked as selected exactly if it is that of the
  -- selected job.
  pub run-views :
      (ns : List (Placed A)) (g : GraphModel) (fuel : ℕ) (es : List Event) (j : String)
      → (get j (run fuel es (render lt ns g)).items ≡ get j (run fuel es (render lt ns g)).drawn)
        × ((s : Shades)
            → get j (run fuel es (render lt ns g)).drawn ≡ some s
            → s.selected ≡ is_job (run fuel es (render lt ns g)).selected j)
  run-views ns g fuel es j =
      let a = run-Agree fuel es (render lt ns g) (render-Agree ns g) in (a.views j, a.marks j)
