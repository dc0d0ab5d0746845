-- ===== src/Staging/Views/Disabled.antt =====
-- The marks of disabled jobs in the views of the staging page
-- (src/web/js/azkaban.staging.flow.view.js).
use azkaban.Prelude.{
  ℕ, String, List, [], ◌∷◌, Option, none, some, Bool, true, false, ◌≡◌, ◌⊎◌, refl, sym, ◌∙◌, ap,
  str_eq, ◌==◌, if◌then◌else◌, arith, inl, inr, Bool-cases, Option-cases,
}
use mathlib.Core.Path.{subst}
use azkaban.Prelude.Dict.{get, changed}
use azkaban.Flow.Graph.{Outcome, ok, type_error, stack_overflow, ◌>>=◌}
use azkaban.Flow.Disable.{GraphModel, is_disabled}
use azkaban.Flow.Menu.{staging_menu_click}
use azkaban.Flow.Menu.Triggers.{Triggers, ok_injective, staging_menu_click-Triggers}
use azkaban.JobList.Marks.{Placed}
use azkaban.Staging.Views.{
  Shades, Elements, Page, truthy, same_id, select, handle_job_click, click_graph, show_disabled,
  handle_job_menu_click, ids_of, render, Event, click_item, click_node, menu_action, step, left_by,
  steps, if_there,
}
use azkaban.Staging.Views.Agree.{
  select-cases, disabling, selecting, IsThere, named_id, has, Agree, reselected,
  get-handle_selection_change, get-handle_disabled_change, get-new_elements,
}
use azkaban.Staging.Views.Steps.{step-Agree, render-Agree}

-- The elements are marked as disabled whose jobs the model has as disabled.
abbrev pub IsUpToDate : Page → Type 0
IsUpToDate p =
    (j : String) (s : Shades) → get j p.drawn ≡ some s → s.disabled ≡ is_disabled p.model.disabled j

reselected-disabled :
    (previous current : Option String) (j : String) (flag : Bool) (o : Option Shades) (s : Shades)
    → ((t : Shades) → o ≡ some t → t.disabled ≡ flag)
    → reselected previous current j o ≡ some s
    → s.disabled ≡ flag
reselected-disabled previous current j flag none s h e = absurd (ground (arith, e))
reselected-disabled previous current j flag (some t) s h e =
    let before : t.disabled ≡ flag = h t refl in ground (arith, e, before)

abbrev KeepsUpToDate : Outcome Page → Type 0
KeepsUpToDate o = (q : Page) → o ≡ ok q → IsUpToDate q

page-KeepsUpToDate : (p : Page) → IsUpToDate p → KeepsUpToDate (ok p)
page-KeepsUpToDate p u q e = subst IsUpToDate (sym (ok_injective e)) u

click_if :
    (b : Bool) (o o' : Outcome Page)
    → KeepsUpToDate o
    → KeepsUpToDate o'
    → KeepsUpToDate (if b then o else o')
click_if true o o' h k = h
click_if false o o' h k = k

selecting-IsUpToDate :
    (current : Option String) (p : Page) → IsUpToDate p → IsUpToDate (selecting current p)
selecting-IsUpToDate current p u j s e =
    reselected-disabled (truthy p.selected) (truthy current) j (is_disabled p.model.disabled j)
      (get j p.drawn) s (u j) (sym (get-handle_selection_change p.selected current p.drawn j) ∙ e)

select-KeepsUpToDate :
    (current : Option String) (p : Page)
    → Agree p
    → truthy current ≡ current
    → IsThere current p.drawn
    → IsUpToDate p
    → KeepsUpToDate (select current p)
select-KeepsUpToDate current p a name h u q e = elim (select-cases current p a name h) [
  | inl (same, _) ↦ page-KeepsUpToDate p u q (sym same ∙ e)
  | inr other ↦
      page-KeepsUpToDate (selecting current p) (selecting-IsUpToDate current p u) q (sym other ∙ e)
]

quiet-IsUpToDate :
    (g : GraphModel) (p : Page)
    → Triggers p.model g
    → (g.changes == p.model.changes) ≡ true
    → IsUpToDate p
    → IsUpToDate (record p { model = g })
quiet-IsUpToDate g p (inl same) e u = subst (λ m. IsUpToDate (record p { model = m })) (sym same) u
quiet-IsUpToDate g p (inr more) e u = absurd (ground (arith, more, e))

disabling-IsUpToDate : (g : GraphModel) (p : Page) → IsUpToDate (disabling g p)
disabling-IsUpToDate g p j s e = elim (Option-cases (get j p.drawn)) [
  | inl gone ↦ absurd (ground (arith, e, gone, get-handle_disabled_change g.disabled p.drawn j))
  | inr (t, at) ↦ cc (
    e,
    ap (changed (λ (x : Shades). record x { disabled = is_disabled g.disabled j })) at,
    get-handle_disabled_change g.disabled p.drawn j,
  )
]

show_disabled-IsUpToDate :
    (g : GraphModel) (p : Page) → Triggers p.model g → IsUpToDate p → IsUpToDate (show_disabled g p)
unfolding show_disabled
show_disabled-IsUpToDate g p tr u = elim (Bool-cases (g.changes == p.model.changes)) [
  | inl same ↦ rw same (quiet-IsUpToDate g p tr same u)
  | inr other ↦ rw other (disabling-IsUpToDate g p)
]

menu-KeepsUpToDate :
    (p : Page) (o : Outcome GraphModel)
    → ((g : GraphModel) → o ≡ ok g → Triggers p.model g)
    → IsUpToDate p
    → KeepsUpToDate (elim o as (λ _. Outcome Page) [
      | ok g ↦ ok (show_disabled g p)
      | type_error g ↦ type_error (record p { model = g })
      | stack_overflow g ↦ stack_overflow (record p { model = g })
    ])
menu-KeepsUpToDate p (ok g) t u q e =
    page-KeepsUpToDate (show_disabled g p) (show_disabled-IsUpToDate g p (t g refl) u) q e
menu-KeepsUpToDate p (type_error g) t u q e = absurd (ground (arith, e))
menu-KeepsUpToDate p (stack_overflow g) t u q e = absurd (ground (arith, e))

if_there-KeepsUpToDate :
    (id : String) (m : Elements) (o : Outcome Page) (p : Page)
    → IsUpToDate p
    → (has id m ≡ true → KeepsUpToDate o)
    → KeepsUpToDate (if_there id m o p)
if_there-KeepsUpToDate id m o p u h = elim (Option-cases (get id m)) [
  | inl gone ↦ rw (gone, if_there) (page-KeepsUpToDate p u)
  | inr (s, e) ↦ rw (e, if_there) (h (rw (e, has) refl))
]

pick-KeepsUpToDate :
    (id : String) (p : Page)
    → Agree p
    → IsUpToDate p
    → has id p.drawn ≡ true
    → KeepsUpToDate (click_graph id p)
unfolding click_graph
pick-KeepsUpToDate id p a u there = elim (Bool-cases (str_eq id "")) [
  | inl empty ↦
      subst (λ b. KeepsUpToDate (if b then ok p else select (some id) p)) (sym empty)
        (page-KeepsUpToDate p u)
  | inr named ↦
      subst (λ b. KeepsUpToDate (if b then ok p else select (some id) p)) (sym named)
        (select-KeepsUpToDate (some id) p a (named_id id named) there u)
]

handle_job_click-KeepsUpToDate :
    (id : String) (p : Page)
    → Agree p
    → IsUpToDate p
    → has id p.drawn ≡ true
    → KeepsUpToDate (handle_job_click id p)
unfolding handle_job_click click_graph
handle_job_click-KeepsUpToDate id p a u there =
    let toggle = if same_id p.selected (some id) then select none p else select (some id) p in
    elim (Bool-cases (str_eq id "")) [
      | inl empty ↦
          subst (λ b. KeepsUpToDate (if b then ok p else toggle)) (sym empty)
            (page-KeepsUpToDate p u)
      | inr named ↦
          subst (λ b. KeepsUpToDate (if b then ok p else toggle)) (sym named)
            (click_if (same_id p.selected (some id)) (select none p) (select (some id) p)
              (select-KeepsUpToDate none p a refl tt u)
              (select-KeepsUpToDate (some id) p a (named_id id named) there u))
    ]

step-KeepsUpToDate :
    (fuel : ℕ) (e : Event) (p : Page) → Agree p → IsUpToDate p → KeepsUpToDate (step fuel e p)
unfolding step handle_job_menu_click
step-KeepsUpToDate fuel (click_item id) p a u =
    if_there-KeepsUpToDate id p.items (handle_job_click id p) p u (λ h.
      handle_job_click-KeepsUpToDate id p a u
        (ap (λ o. elim o as (λ _. Bool) [ none ↦ false | some _ ↦ true ]) (sym (a.views id)) ∙ h))
step-KeepsUpToDate fuel (click_node id) p a u =
    if_there-KeepsUpToDate id p.drawn (click_graph id p) p u (pick-KeepsUpToDate id p a u)
step-KeepsUpToDate fuel (menu_action action id) p a u =
    if_there-KeepsUpToDate id p.drawn (handle_job_menu_click fuel action id p) p u (λ _.
      menu-KeepsUpToDate p (staging_menu_click fuel action id p.model)
        (λ g. staging_menu_click-Triggers fuel action id p.model g) u)

steps_from :
    (fuel : ℕ) (e : Event) (es : List Event) (p q : Page) (o : Outcome Page)
    → step fuel e p ≡ o
    → (o >>= steps fuel es) ≡ ok q
    → (r : Page) × (step fuel e p ≡ ok r) × (steps fuel es r ≡ ok q)
steps_from fuel e es p q (ok r) h k = (r, h, k)
steps_from fuel e es p q (type_error r) h k = absurd (ground (arith, k))
steps_from fuel e es p q (stack_overflow r) h k = absurd (ground (arith, k))

steps-IsUpToDate :
    (fuel : ℕ) (es : List Event) (p q : Page)
    → Agree p
    → IsUpToDate p
    → steps fuel es p ≡ ok q
    → Agree q × IsUpToDate q
unfolding steps
steps-IsUpToDate fuel [] p q a u e =
    (subst Agree (sym (ok_injective e)) a, subst IsUpToDate (sym (ok_injective e)) u)
steps-IsUpToDate fuel (e ∷ es) p q a u h =
    let (r, now, later) = steps_from fuel e es p q (step fuel e p) refl h in
    steps-IsUpToDate fuel es r q (subst (λ o. Agree (left_by o)) now (step-Agree fuel e p a).0)
      (step-KeepsUpToDate fuel e p a u r now) later

render-IsUpToDate :
    {A : Type 0} (lt : A → A → Bool) (ns : List (Placed A)) (g : GraphModel)
    → g.disabled ≡ []
    → IsUpToDate (render lt ns g)
unfolding render get
render-IsUpToDate lt ns g none_disabled j s e =
    let unmarked : s.disabled ≡ false = ground (arith, e, get-new_elements (ids_of lt ns) [] j) in
    unmarked ∙ ap (λ m. is_disabled m j) (sym none_disabled)

-- From the page as it is rendered without disabled jobs, after any clicks and actions of which none raises
-- an error, an item of the list and a drawn node are marked as disabled exactly if the model has their job
-- as disabled.
pub steps-disabled :
    {A : Type 0} (lt : A → A → Bool) (ns : List (Placed A)) (g : GraphModel) (fuel : ℕ)
    (es : List Event) (q : Page)
    → g.disabled ≡ []
    → steps fuel es (render lt ns g) ≡ ok q
    → (j : String) (s : Shades) → (get j q.items ≡ some s) ⊎ (get j q.drawn ≡ some s)
    → s.disabled ≡ is_disabled q.model.disabled j
steps-disabled lt ns g fuel es q none_disabled e j s at =
    let (a, u) =
      steps-IsUpToDate fuel es (render lt ns g) q (render-Agree lt ns g)
        (render-IsUpToDate lt ns g none_disabled) e in
    u j s (elim at [ inl item ↦ sym (a.views j) ∙ item | inr node ↦ node ])
