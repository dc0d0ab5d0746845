-- ===== src/Tests/Hover.antt =====
-- Menus at the mouse at examples.
use azkaban.Prelude.{◌⊎◌, ℕ, [], ◌∷◌, some, true, ◌≡◌, refl}
use azkaban.Prelude.Sort.{count}
use azkaban.ContextMenu.{
  Menu, separator, plain, with_submenu, nil, cons, Div, Document, new_div, show, find, is_shown,
  setup_items,
}
use azkaban.ContextMenu.Setup.{ShowsItems, is_open, show-ShowsItems}
use azkaban.ContextMenu.Wait.{Reach-time_out}
use azkaban.ContextMenu.Hover.{
  Step, Page, Reach, here, next, enter, leave, end_timer, open_at, opened, mouse_enter, mouse_leave,
  time_out, open_menu,
}
use azkaban.ContextMenu.Hover.Laws.{Reach-is_shown}

abbrev sub_menu : Menu
sub_menu = cons (plain "Parents") nil

abbrev menu : Menu
menu = cons (plain "Open") (
    cons separator
      (cons (with_submenu "Enable" sub_menu) (cons (with_submenu "Disable" sub_menu) nil)))

abbrev document : Document
document = record { made = 3; placed = new_div 2 [] ∷ [] }

abbrev first : Page
first = open_menu menu opened

abbrev second : Page
second = mouse_leave 1 (mouse_enter 1 first)

-- The mouse is at the second submenu's item when the first timer ends, and then when the second does.
abbrev final : Page
final =
    time_out 2
      (record (time_out 1 (record (mouse_enter 2 second) { timers = 2 ∷ [] })) { timers = [] })

reached : Reach opened final
unfolding open_menu show setup_items mouse_enter mouse_leave time_out
reached =
    let entered = mouse_enter 2 second in
    let timed = time_out 1 (record entered { timers = 2 ∷ [] }) in
    next
      (next
        (next
          (next (next (next here (open_at menu opened)) (enter 1 first refl refl))
            (leave 1 (mouse_enter 1 first) refl))
          (enter 2 second refl refl))
        (end_timer 0 1 entered refl))
      (end_timer 0 2 timed refl)

shown : is_shown 2 final.document.placed ≡ true
unfolding open_menu show setup_items mouse_enter mouse_leave time_out
shown = refl

abbrev enable_menu : ℕ
enable_menu = 1

abbrev disable_menu : ℕ
disable_menu = 2

show-ShowsItems_example :
    (div : Div) × (find 3 (show menu document).placed ≡ some div)
    × ShowsItems (show menu document).placed menu div.items
    × (count is_open (show menu document).placed ≡ 1)
show-ShowsItems_example = show-ShowsItems menu document

Reach-is_shown_example :
    (is_shown 1 final.document.placed ≡ true → disable_menu ≡ enable_menu)
    × (final.over ≡ some 1 → disable_menu ≡ enable_menu)
Reach-is_shown_example = Reach-is_shown final disable_menu enable_menu reached shown

abbrev entered : Page
entered = mouse_enter 1 first

reached_item : Reach opened entered
unfolding open_menu show setup_items mouse_enter
reached_item = next (next here (open_at menu opened)) (enter 1 first refl refl)

at_item : entered.over ≡ some 1
unfolding mouse_enter
at_item = refl

Reach-time_out_example :
    (is_shown 1 entered.document.placed ≡ true)
    ⊎ ((q : Page) × Step entered q × (q.over ≡ some 1) × (is_shown 1 q.document.placed ≡ true))
Reach-time_out_example = Reach-time_out entered 1 reached_item at_item
