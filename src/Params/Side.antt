-- ===== src/Params/Side.antt =====
-- The menu at the side of the execution dialog: `SideMenuDialogView`
-- (src/web/js/azkaban.flow.execute.view.js). A header has a content below it and names a panel. Sliding is
-- taken to be over before the next event.
use mathlib.Core.Path.{subst}
use azkaban.Prelude.{
  String, List, [], ◌∷◌, Option, none, some, Bool, true, false, ◌≡◌, refl, ap, sym, ◌∙◌, ◌&&◌, ◌||◌,
  any, if◌then◌else◌, str_eq, eq_iff, arith, inl, inr, Bool-cases,
}

pub record Header : Type 0 where
  pub id : String
  pub view_panel : String
  pub selected : Bool
  pub content_shown : Bool

pub record Panel : Type 0 where
  pub panel_id : String
  pub shown : Bool

pub record Menu : Type 0 where
  pub headers : List Header
  pub panels : List Panel

-- What `menuSelect` is called with: the element of a header, or what jQuery finds by its id. Only the
-- element has `child`.
pub data Target : Type 0 where
  element found : String → Target

abbrev pub id_of : Target → String
id_of (element id) = id
id_of (found id) = id

abbrev pub has_child : Target → Bool
has_child (element _) = true
has_child (found _) = false

-- `$(target).hasClass("selected")`
abbrev pub is_selected : String → List Header → Bool
is_selected id = any (λ h. str_eq h.id id && h.selected)

-- `$(target).attr("viewpanel")`
abbrev pub panel_name : String → List Header → Option String
panel_name id [] = none
panel_name id (h ∷ hs) = if str_eq h.id id then some h.view_panel else panel_name id hs

abbrev pub select_headers : Target → List Header → List Header
select_headers t [] = []
select_headers t (h ∷ hs) =
    record h {
      selected = str_eq h.id (id_of t);
      content_shown = str_eq h.id (id_of t) && has_child t;
    }
    ∷ select_headers t hs

abbrev pub show_panel : Option String → List Panel → List Panel
show_panel name [] = []
show_panel name (p ∷ ps) =
    record p { shown = elim name [ none ↦ false | some n ↦ str_eq p.panel_id n ] }
    ∷ show_panel name ps

-- `menuSelect`
pub menu_select : Target → Menu → Menu
menu_select t m = if is_selected (id_of t) m.headers then m else record {
  headers = select_headers t m.headers;
  panels = show_panel (panel_name (id_of t) m.headers) m.panels;
}

abbrev pub close_contents : List Header → List Header
close_contents [] = []
close_contents (h ∷ hs) = record h { content_shown = false } ∷ close_contents hs

-- `initialize`
pub initialize : Menu → Menu
unfolding menu_select
initialize m = menu_select (found "flowOption") (record m { headers = close_contents m.headers })

pub select_all : List Target → Menu → Menu
unfolding menu_select
select_all [] m = m
select_all (t ∷ ts) m = select_all ts (menu_select t m)

-- At each header: it is selected if it has the id, and its content is shown only if it is selected.
abbrev pub AllFollow : String → List Header → Type 0
AllFollow id [] = Unit {0}
AllFollow id (h ∷ hs) =
    ((h.selected ≡ str_eq h.id id) × ((h.content_shown && h.selected) ≡ h.content_shown))
    × AllFollow id hs

-- Each panel is shown if it is the one of that name.
abbrev pub OnlyShown : Option String → List Panel → Type 0
OnlyShown name [] = Unit {0}
OnlyShown name (p ∷ ps) =
    (p.shown ≡ elim name [ none ↦ false | some n ↦ str_eq p.panel_id n ]) × OnlyShown name ps

-- One id is selected, only its content may be shown, and of the panels just its own.
pub record IsAt (id : String) (m : Menu) : Type 0 where
  pub follow : AllFollow id m.headers
  pub only : OnlyShown (panel_name id m.headers) m.panels

select_headers-AllFollow :
    (t : Target) (hs : List Header) → AllFollow (id_of t) (select_headers t hs)
select_headers-AllFollow t [] = tt
select_headers-AllFollow t (h ∷ hs) = ((refl, ground arith), select_headers-AllFollow t hs)

show_panel-OnlyShown :
    (name : Option String) (ps : List Panel) → OnlyShown name (show_panel name ps)
show_panel-OnlyShown name [] = tt
show_panel-OnlyShown name (p ∷ ps) = (refl, show_panel-OnlyShown name ps)

panel_name-select_headers :
    (id : String) (t : Target) (hs : List Header)
    → panel_name id (select_headers t hs) ≡ panel_name id hs
panel_name-select_headers id t [] = refl
panel_name-select_headers id t (h ∷ hs) =
    ap (λ o. if str_eq h.id id then some h.view_panel else o) (panel_name-select_headers id t hs)

is_selected-AllFollow :
    (id current : String) (hs : List Header)
    → AllFollow current hs
    → is_selected id hs ≡ true
    → id ≡ current
is_selected-AllFollow id current [] f h = absurd (ground (arith, h))
is_selected-AllFollow id current (x ∷ hs) ((sel, _), f) h =
    elim (Bool-cases (str_eq x.id id && x.selected)) [
      | inl here ↦ ground (arith, here, sel, eq_iff x.id id, eq_iff x.id current)
      | inr there ↦
          is_selected-AllFollow id current hs f (ap (λ b. b || is_selected id hs) (sym there) ∙ h)
    ]

selected-IsAt :
    (t : Target) (m : Menu)
    → IsAt (id_of t) (record {
      headers = select_headers t m.headers;
      panels = show_panel (panel_name (id_of t) m.headers) m.panels;
    })
selected-IsAt t m = record {
  follow = select_headers-AllFollow t m.headers;
  only =
      subst (λ n. OnlyShown n (show_panel (panel_name (id_of t) m.headers) m.panels))
        (sym (panel_name-select_headers (id_of t) t m.headers))
        (show_panel-OnlyShown (panel_name (id_of t) m.headers) m.panels);
}

menu_select-IsAt :
    (t : Target) (id : String) (m : Menu) → IsAt id m → IsAt (id_of t) (menu_select t m)
unfolding menu_select
menu_select-IsAt t id m at = elim (Bool-cases (is_selected (id_of t) m.headers)) [
  | inl already ↦ rw already (
      subst (λ i. IsAt i m) (sym (is_selected-AllFollow (id_of t) id m.headers at.follow already))
        at)
  | inr new ↦ rw new (selected-IsAt t m)
]

-- the target of the last call
abbrev pub last_of : String → List Target → String
last_of id [] = id
last_of id (t ∷ ts) = last_of (id_of t) ts

none_selected :
    (id : String) (hs : List Header)
    → any (λ h. h.selected) hs ≡ false
    → is_selected id (close_contents hs) ≡ false
none_selected id [] h = refl
none_selected id (x ∷ hs) h = ground (arith, h, none_selected id hs)

select_all-IsAt :
    (ts : List Target) (id : String) (m : Menu) → IsAt id m → IsAt (last_of id ts) (select_all ts m)
unfolding select_all
select_all-IsAt [] id m at = at
select_all-IsAt (t ∷ ts) id m at =
    select_all-IsAt ts (id_of t) (menu_select t m) (menu_select-IsAt t id m at)

-- From a menu without a selected header, after `initialize` and any calls of `menuSelect`, the header of
-- the last call is selected and no other, the content of no other header is shown, and of the panels just
-- that of the header.
pub initialize-IsAt :
    (ts : List Target) (m : Menu)
    → any (λ h. h.selected) m.headers ≡ false
    → IsAt (last_of "flowOption" ts) (select_all ts (initialize m))
unfolding initialize
initialize-IsAt ts m h = select_all-IsAt ts "flowOption" (initialize m) (
    rw (none_selected "flowOption" m.headers h)
      (selected-IsAt (found "flowOption") (record m { headers = close_contents m.headers })))

select_headers-selected :
    (id : String) (hs : List Header)
    → is_selected id (select_headers (found id) (close_contents hs)) ≡ any (λ h. str_eq h.id id) hs
select_headers-selected id [] = refl
select_headers-selected id (x ∷ hs) = ground (arith, select_headers-selected id hs)

select_headers-closed :
    (id : String) (hs : List Header)
    → any (λ h. h.content_shown) (select_headers (found id) hs) ≡ false
select_headers-closed id [] = refl
select_headers-closed id (x ∷ hs) = ground (arith, select_headers-closed id hs)

-- After `initialize` the content of the header `flowOption` is not shown, though the header is selected,
-- and a click at the header does not show it.
pub initialize-closed :
    (m : Menu)
    → any (λ h. h.selected) m.headers ≡ false
    → any (λ h. str_eq h.id "flowOption") m.headers ≡ true
    → any (λ h. h.content_shown) (menu_select (element "flowOption") (initialize m)).headers ≡ false
unfolding initialize menu_select
initialize-closed m none_yet there =
    rw
      (
        none_selected "flowOption" m.headers none_yet,
        select_headers-selected "flowOption" m.headers ∙ there,
      )
      (select_headers-closed "flowOption" (close_contents m.headers))
