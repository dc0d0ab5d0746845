-- ===== src/ContextMenu.antt =====
-- The menu at the mouse: `setupMenu`, `show` and `hide` of `ContextMenuView`
-- (src/web/js/azkaban.context.menu.js). The elements that are made are numbered; positions and the
-- callbacks of the entries are not modelled.
pub mod Setup
pub mod Hover
pub mod Wait
use azkaban.Prelude.{
  ℕ, suc, String, List, [], ◌∷◌, Option, none, some, Bool, true, false, not, ◌&&◌, ◌==◌,
  if◌then◌else◌,
}

-- What `show` is called with: a list of objects with `break`, or with `title`, and where it is given
-- with `submenu`.
mutual
  pub data Entry : Type 0 where
    separator : Entry
    plain : String → Entry
    with_submenu : String → Menu → Entry

  pub data Menu : Type 0 where
    nil : Menu
    cons : Entry → Menu → Menu

-- a `li`; an item's `subMenu` is the number of a `div`
pub data MenuItem : Type 0 where
  break_item : MenuItem
  item : String → Option ℕ → MenuItem

-- a `div` with the class `contextMenu`
pub record Div : Type 0 where
  pub number : ℕ
  pub items : List MenuItem
  pub is_sub_menu : Bool
  pub parent : Option ℕ
  pub is_hidden : Bool

-- how many elements were made so far, and those after `this.el`
pub record Document : Type 0 where
  pub made : ℕ
  pub placed : List Div

abbrev pub new_div : ℕ → List MenuItem → Div
new_div number items = record {
  number = number;
  items = items;
  is_sub_menu = false;
  parent = none;
  is_hidden = false;
}

-- `$(this.el).after(subMenu)`
abbrev pub place : Div → Document → Document
place div doc = record doc { placed = div ∷ doc.placed }

-- `addClass("subMenu")`, `subMenu.parent = contextMenu` and `hide()`
abbrev pub as_sub_menu : ℕ → Div → Div
as_sub_menu own div = record div { is_sub_menu = true; parent = some own; is_hidden = true }

-- the `div`, which is numbered before those of its submenus
abbrev pub made_one : Document → Document
made_one doc = record doc { made = suc doc.made }

-- `setupMenu`: its loop for the `div` with the number `own`
unfoldable mutual
  pub setup_items : ℕ → Menu → Document → List MenuItem × Document
  setup_items own nil doc = ([], doc)
  setup_items own (cons e es) doc =
      let (it, doc') = setup_item own e doc in
      let (its, doc'') = setup_items own es doc' in (it ∷ its, doc'')

  pub setup_item : ℕ → Entry → Document → MenuItem × Document
  setup_item own separator doc = (break_item, doc)
  setup_item own (plain title) doc = (item title none, doc)
  setup_item own (with_submenu title menu) doc =
      let (its, doc') = setup_items doc.made menu (made_one doc) in
      (item title (some doc.made), place (as_sub_menu own (new_div doc.made its)) doc')

unfoldable pub setup_menu : Menu → Document → Div × Document
unfolding setup_items
setup_menu menu doc =
    let (its, doc') = setup_items doc.made menu (made_one doc) in (new_div doc.made its, doc')

-- `$(".contextMenu").remove()`: `hide`, and the clicks of the body
unfoldable pub remove_menus : Document → Document
remove_menus doc = record doc { placed = [] }

-- `show`
unfoldable pub show : Menu → Document → Document
unfolding setup_menu remove_menus
show menu doc = let (div, doc') = setup_menu menu (remove_menus doc) in place div doc'

abbrev pub find : ℕ → List Div → Option Div
find n [] = none
find n (div ∷ divs) = if div.number == n then some div else find n divs

-- A submenu that is in the document and not hidden.
abbrev pub is_shown : ℕ → List Div → Bool
is_shown n divs = elim (find n divs) [ none ↦ false | some d ↦ d.is_sub_menu && not d.is_hidden ]
