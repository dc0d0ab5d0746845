-- ===== src/ContextMenu/Hover.antt =====
-- Showing submenus under the mouse: the handlers of `mouseenter` and `mouseleave`, the timers of half a
-- second, and the clicks that take the menus away (src/web/js/azkaban.context.menu.js). An item with a
-- submenu is named by its submenu's number. The mouse enters an item that is in the document, and
-- only after it left the one before.
pub mod Laws
use azkaban.Prelude.{
  ℕ, zero, suc, ◌<◌, List, [], ◌∷◌, ◌++◌, Option, none, some, Bool, true, false, ◌≡◌, ◌⊎◌, refl,
  sym, ◌∙◌, ap, ◌==◌, if◌then◌else◌, arith, inl, inr, Bool-cases, leb, get_elem?,
}
use azkaban.ContextMenu.{Menu, Div, Document, find, remove_menus, show, is_shown}
use azkaban.ContextMenu.Setup.{IsFresh, show-NoneShown}

-- `selected` of each item, the items whose timers run, and where the mouse is
pub record Page : Type 0 where
  pub document : Document
  pub selected : ℕ → Bool
  pub timers : List ℕ
  pub over : Option ℕ

-- `$(".subMenu").hide()`
abbrev pub hide_sub_menus : List Div → List Div
hide_sub_menus [] = []
hide_sub_menus (div ∷ divs) =
    (if div.is_sub_menu then record div { is_hidden = true } else div) ∷ hide_sub_menus divs

-- `$(subMenu).show()`, which is seen where the element is in the document
abbrev pub show_div : ℕ → List Div → List Div
show_div n [] = []
show_div n (div ∷ divs) =
    if div.number == n then record div { is_hidden = false } ∷ divs else div ∷ show_div n divs

abbrev pub set_selected : ℕ → Bool → (ℕ → Bool) → ℕ → Bool
set_selected n b selected i = if n == i then b else selected i

abbrev pub with_divs : (List Div → List Div) → Document → Document
with_divs f doc = record doc { placed = f doc.placed }

-- the handler of `mouseenter`, which starts a timer
unfoldable pub mouse_enter : ℕ → Page → Page
mouse_enter n p = record {
  document = with_divs hide_sub_menus p.document;
  selected = set_selected n true p.selected;
  timers = p.timers ++ n ∷ [];
  over = some n;
}

-- the handler of `mouseleave`
unfoldable pub mouse_leave : ℕ → Page → Page
mouse_leave n p = record p { selected = set_selected n false p.selected; over = none }

-- the end of a timer of the item
unfoldable pub time_out : ℕ → Page → Page
time_out n p = if p.selected n then record p { document = with_divs (show_div n) p.document } else p

-- a click on the page, or on an entry
unfoldable pub click_body : Page → Page
click_body p = record p { document = remove_menus p.document; over = none }

unfoldable pub open_menu : Menu → Page → Page
open_menu menu p = record p { document = show menu p.document; over = none }

abbrev pub drop_timer : ℕ → List ℕ → List ℕ
drop_timer i [] = []
drop_timer zero (n ∷ ns) = ns
drop_timer (suc i) (n ∷ ns) = n ∷ drop_timer i ns

-- An item of a menu has the element as its submenu.
abbrev pub is_sub : ℕ → List Div → Bool
is_sub n divs = elim (find n divs) [ none ↦ false | some d ↦ d.is_sub_menu ]

abbrev pub is_placed : ℕ → List Div → Bool
is_placed n divs = elim (find n divs) [ none ↦ false | some _ ↦ true ]

pub data Step : Page → Page → Type 0 where
  enter :
      (n : ℕ) (p : Page)
      → is_sub n p.document.placed ≡ true
      → p.over ≡ none
      → Step p (mouse_enter n p)
  leave : (n : ℕ) (p : Page) → p.over ≡ some n → Step p (mouse_leave n p)
  end_timer :
      (i n : ℕ) (p : Page)
      → get_elem? p.timers i ≡ some n
      → Step p (time_out n (record p { timers = drop_timer i p.timers }))
  close : (p : Page) → Step p (click_body p)
  open_at : (menu : Menu) (p : Page) → Step p (open_menu menu p)

pub data Reach (p : Page) : Page → Type 0 where
  here : Reach p p
  next : {q r : Page} → Reach p q → Step q r → Reach p r

-- the page without menus
abbrev pub opened : Page
opened = record {
  document = record { made = 0; placed = [] };
  selected = λ _. false;
  timers = [];
  over = none;
}
