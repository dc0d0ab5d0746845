-- ===== src/Staging/Views/Agree.antt =====
-- The marks of the two views of the staging page after a handler
-- (src/web/js/azkaban.staging.flow.view.js).
use azkaban.Prelude.{
  String, List, [], ◌∷◌, Option, none, some, Bool, true, false, ◌≡◌, ◌⊎◌, refl, sym, ◌∙◌, ap,
  contains, str_eq, eq_iff, ◌==◌, if◌then◌else◌, arith, inl, inr, Bool-cases, Option-cases,
}
use mathlib.Core.Path.{subst}
use azkaban.Prelude.Dict.{get, put, changed, get-put, get-change}
use azkaban.Flow.Graph.{Outcome, ok, ◌>>=◌}
use azkaban.Flow.Disable.{Flags, GraphModel, is_disabled}
use azkaban.Staging.Views.{
  Shades, Elements, Page, truthy, set_selected, mark_item, handle_selection_change, mark_drawn,
  change_selected, same_id, show_selected, select, handle_job_click, click_graph,
  handle_disabled_change, show_disabled, new_elements,
}

abbrev pub is_job : Option String → String → Bool
is_job none id = false
is_job (some job) id = str_eq job id

abbrev pub has : String → Elements → Bool
has id m = elim (get id m) [ none ↦ false | some _ ↦ true ]

get-mark_item :
    (b : Bool) (o : Option String) (m : Elements) (j : String)
    → get j (mark_item b o m) ≡ (if is_job o j then changed (set_selected b) (get j m) else get j m)
get-mark_item b none m j = refl
get-mark_item b (some id) m j = get-change j id (set_selected b) m

-- what `handleSelectionChange` leaves of the marks of one element
abbrev pub reselected : Option String → Option String → String → Option Shades → Option Shades
reselected previous current j o =
    let left = if is_job previous j then changed (set_selected false) o else o in
    if is_job current j then changed (set_selected true) left else left

pub get-handle_selection_change :
    (previous current : Option String) (m : Elements) (j : String)
    → get j (handle_selection_change previous current m)
      ≡ reselected (truthy previous) (truthy current) j (get j m)
unfolding handle_selection_change
get-handle_selection_change previous current m j =
    get-mark_item true (truthy current) (mark_item false (truthy previous) m) j
    ∙ ap (λ o. if is_job (truthy current) j then changed (set_selected true) o else o)
        (get-mark_item false (truthy previous) m j)

-- The selected job, if there is one, is on the page.
abbrev pub IsThere : Option String → Elements → Type 0
IsThere none m = Unit {0}
IsThere (some id) m = has id m ≡ true

mark_drawn-ok :
    (b : Bool) (o : Option String) (m : Elements)
    → IsThere o m
    → mark_drawn b o m ≡ ok (mark_item b o m)
mark_drawn-ok b none m h = refl
mark_drawn-ok b (some id) m h = elim (Option-cases (get id m)) [
  | inl gone ↦ absurd (ground (arith, h, gone))
  | inr (s, e) ↦ rw (e, mark_drawn) refl
]

pub has-mark_item :
    (b : Bool) (o : Option String) (m : Elements) (j : String) → has j (mark_item b o m) ≡ has j m
has-mark_item b o m j = ground (arith, get-mark_item b o m j)

IsThere-mark_item :
    (b : Bool) (o c : Option String) (m : Elements) → IsThere c m → IsThere c (mark_item b o m)
IsThere-mark_item b o none m h = tt
IsThere-mark_item b o (some id) m h = has-mark_item b o m id ∙ h

change_selected-ok :
    (previous current : Option String) (m : Elements)
    → IsThere (truthy previous) m
    → IsThere (truthy current) m
    → change_selected previous current m ≡ ok (handle_selection_change previous current m)
unfolding change_selected handle_selection_change
change_selected-ok previous current m h k =
    ap (◌>>= mark_drawn true (truthy current)) (mark_drawn-ok false (truthy previous) m h)
    ∙ mark_drawn-ok true (truthy current) (mark_item false (truthy previous) m)
        (IsThere-mark_item false (truthy previous) (truthy current) m k)

pub get-handle_disabled_change :
    (flags : Flags) (m : Elements) (j : String)
    → get j (handle_disabled_change flags m)
      ≡ changed (λ s. record s { disabled = is_disabled flags j }) (get j m)
unfolding handle_disabled_change get
get-handle_disabled_change flags [] j = refl
get-handle_disabled_change flags ((id, s) ∷ m) j = elim (Bool-cases (str_eq id j)) [
  | inl same ↦
      rw same (ap (λ i. some (record s { disabled = is_disabled flags i })) ((eq_iff id j).0 same))
  | inr other ↦ rw other (get-handle_disabled_change flags m j)
]

abbrev pub unmarked : Shades
unmarked = record { disabled = false; selected = false }

pub get-new_elements :
    (ids : List String) (m : Elements) (j : String)
    → get j (new_elements ids m) ≡ (if contains j ids then some unmarked else get j m)
unfolding new_elements
get-new_elements [] m j = refl
get-new_elements (id ∷ ids) m j =
    ground (arith, get-new_elements ids (put id unmarked m) j, get-put j id unmarked m)

-- Both views have the same elements with the same marks, and the selected job is the one that is marked.
pub record Agree (p : Page) : Type 0 where
  pub views : (j : String) → get j p.items ≡ get j p.drawn
  pub marks : (j : String) (s : Shades) → get j p.drawn ≡ some s → s.selected ≡ is_job p.selected j
  pub there : IsThere p.selected p.drawn
  pub named : truthy p.selected ≡ p.selected

reselected-marks :
    (previous current : Option String) (j : String) (o : Option Shades) (s : Shades)
    → ((t : Shades) → o ≡ some t → t.selected ≡ is_job previous j)
    → reselected previous current j o ≡ some s
    → s.selected ≡ is_job current j
reselected-marks previous current j none s h e = absurd (ground (arith, e))
reselected-marks previous current j (some t) s h e =
    let before : t.selected ≡ is_job previous j = h t refl in ground (arith, e, before)

IsThere-handle_selection_change :
    (previous current c : Option String) (m : Elements)
    → IsThere c m
    → IsThere c (handle_selection_change previous current m)
unfolding handle_selection_change
IsThere-handle_selection_change previous current c m h =
    IsThere-mark_item true (truthy current) c (mark_item false (truthy previous) m)
      (IsThere-mark_item false (truthy previous) c m h)

abbrev pub selecting : Option String → Page → Page
selecting current p = record p {
  selected = current;
  drawn = handle_selection_change p.selected current p.drawn;
  items = handle_selection_change p.selected current p.items;
  zoomed = elim (truthy current) [ none ↦ p.zoomed | some id ↦ some id ];
}

selecting-Agree :
    (current : Option String) (p : Page)
    → Agree p
    → truthy current ≡ current
    → IsThere current p.drawn
    → Agree (selecting current p)
selecting-Agree current p a name h = record {
  views = λ j.
      get-handle_selection_change p.selected current p.items j
      ∙ (ap (reselected (truthy p.selected) (truthy current) j) (a.views j)
          ∙ sym (get-handle_selection_change p.selected current p.drawn j));
  marks = λ j s e. reselected-marks p.selected current j (get j p.drawn) s (a.marks j) (
      ap (λ o. reselected o current j (get j p.drawn)) (sym a.named)
      ∙ (ap (λ o. reselected (truthy p.selected) o j (get j p.drawn)) (sym name)
          ∙ (sym (get-handle_selection_change p.selected current p.drawn j) ∙ e)));
  there = IsThere-handle_selection_change p.selected current current p.drawn h;
  named = name;
}

same_id_iff : (a b : Option String) → same_id a b ≡ true → a ≡ b
same_id_iff none none h = refl
same_id_iff none (some b) h = absurd (ground (arith, h))
same_id_iff (some a) none h = absurd (ground (arith, h))
same_id_iff (some a) (some b) h = ap some ((eq_iff a b).0 h)

-- A step that ended without an error and left the views in agreement, with the given job selected.
abbrev pub Ends : Option String → Outcome Page → Type 0
Ends current o = (q : Page) × (o ≡ ok q) × Agree q × (q.selected ≡ current)

IsThere-truthy :
    (o : Option String) (m : Elements) → truthy o ≡ o → IsThere o m → IsThere (truthy o) m
IsThere-truthy o m e h = subst (λ x. IsThere x m) (sym e) h

pub select-cases :
    (current : Option String) (p : Page)
    → Agree p
    → truthy current ≡ current
    → IsThere current p.drawn
    → ((select current p ≡ ok p) × (p.selected ≡ current))
      ⊎ (select current p ≡ ok (selecting current p))
unfolding select
select-cases current p a name h =
    let shown = show_selected current p (change_selected p.selected current p.drawn) in
    elim (Bool-cases (same_id p.selected current)) [
      | inl same ↦
          inl (ap (λ b. if b then ok p else shown) same, same_id_iff p.selected current same)
      | inr other ↦ inr (
          ap (λ b. if b then ok p else shown) other
          ∙ ap (show_selected current p) (
              change_selected-ok p.selected current p.drawn
                (IsThere-truthy p.selected p.drawn a.named a.there)
                (IsThere-truthy current p.drawn name h)))
    ]

select-Ends :
    (current : Option String) (p : Page)
    → Agree p
    → truthy current ≡ current
    → IsThere current p.drawn
    → Ends current (select current p)
select-Ends current p a name h = elim (select-cases current p a name h) [
  | inl (e, same) ↦ (p, e, a, same)
  | inr e ↦ (selecting current p, e, selecting-Agree current p a name h, refl)
]

pub named_id : (id : String) → str_eq id "" ≡ false → truthy (some id) ≡ some id
named_id id h = rw h refl

-- the job that is selected after a click at an item or at a drawn node
abbrev pub toggled : String → Option String → Option String
toggled id o = if str_eq id "" then o else if same_id o (some id) then none else some id

abbrev pub picked : String → Option String → Option String
picked id o = if str_eq id "" then o else some id

choose-Ends :
    (b : Bool) (o o' : Option String) (s s' : Outcome Page)
    → (b ≡ true → Ends o s)
    → (b ≡ false → Ends o' s')
    → Ends (if b then o else o') (if b then s else s')
choose-Ends true o o' s s' h k = h refl
choose-Ends false o o' s s' h k = k refl

pub handle_job_click-Ends :
    (id : String) (p : Page)
    → Agree p
    → has id p.drawn ≡ true
    → Ends (toggled id p.selected) (handle_job_click id p)
unfolding handle_job_click
handle_job_click-Ends id p a h =
    choose-Ends (str_eq id "") p.selected (if same_id p.selected (some id) then none else some id)
      (ok p) (if same_id p.selected (some id) then select none p else select (some id) p)
      (λ _. (p, refl, a, refl))
      (λ named.
        choose-Ends (same_id p.selected (some id)) none (some id) (select none p)
          (select (some id) p) (λ _. select-Ends none p a refl tt)
          (λ _. select-Ends (some id) p a (named_id id named) h))

pub click_graph-Ends :
    (id : String) (p : Page)
    → Agree p
    → has id p.drawn ≡ true
    → Ends (picked id p.selected) (click_graph id p)
unfolding click_graph
click_graph-Ends id p a h =
    choose-Ends (str_eq id "") p.selected (some id) (ok p) (select (some id) p)
      (λ _. (p, refl, a, refl)) (λ named. select-Ends (some id) p a (named_id id named) h)

pub has-handle_disabled_change :
    (flags : Flags) (m : Elements) (j : String) → has j (handle_disabled_change flags m) ≡ has j m
has-handle_disabled_change flags m j = ground (arith, get-handle_disabled_change flags m j)

IsThere-handle_disabled_change :
    (flags : Flags) (c : Option String) (m : Elements)
    → IsThere c m
    → IsThere c (handle_disabled_change flags m)
IsThere-handle_disabled_change flags none m h = tt
IsThere-handle_disabled_change flags (some id) m h = has-handle_disabled_change flags m id ∙ h

abbrev pub disabling : GraphModel → Page → Page
disabling g p = record p {
  model = g;
  items = handle_disabled_change g.disabled p.items;
  drawn = handle_disabled_change g.disabled p.drawn;
}

disabling-Agree : (g : GraphModel) (p : Page) → Agree p → Agree (disabling g p)
disabling-Agree g p a = record {
  views = λ j.
      get-handle_disabled_change g.disabled p.items j
      ∙ (ap (changed (λ s. record s { disabled = is_disabled g.disabled j })) (a.views j)
          ∙ sym (get-handle_disabled_change g.disabled p.drawn j));
  marks = λ j s e. elim (Option-cases (get j p.drawn)) [
    | inl gone ↦ absurd (ground (arith, e, gone, get-handle_disabled_change g.disabled p.drawn j))
    | inr (t, at) ↦
        let before : t.selected ≡ is_job p.selected j = a.marks j t at in
        ground (arith, e, at, before, get-handle_disabled_change g.disabled p.drawn j)
  ];
  there = IsThere-handle_disabled_change g.disabled p.selected p.drawn a.there;
  named = a.named;
}

-- Another graph model, as an error leaves it, changes neither the marks nor the selection.
pub remodel-Agree : (g : GraphModel) (p : Page) → Agree p → Agree (record p { model = g })
remodel-Agree g p a = record { views = a.views; marks = a.marks; there = a.there; named = a.named }

pub show_disabled-Agree : (g : GraphModel) (p : Page) → Agree p → Agree (show_disabled g p)
unfolding show_disabled
show_disabled-Agree g p a = elim (Bool-cases (g.changes == p.model.changes)) [
  | inl same ↦ rw same (remodel-Agree g p a)
  | inr other ↦ rw other (disabling-Agree g p a)
]
