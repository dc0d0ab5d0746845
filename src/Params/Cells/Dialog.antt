-- ===== src/Params/Cells/Dialog.antt =====
-- The table of `EditTableView` (src/web/js/azkaban.flow.execute.view.js). It keeps no edited cell: the
-- text box closes its own cell when it loses the focus, and at Enter.
use azkaban.Prelude.{
  ℕ, zero, suc, String, List, [], ◌∷◌, none, some, Bool, true, false, ◌≡◌, refl, ap, ◌∙◌,
  if◌then◌else◌,
}
use azkaban.Params.Cells.{
  Cell, EditRow, Place, change_cell, change_row, open_cell, filled, input_text, detach, type_into,
  Spot, on_cell, on_icon, on_span, on_input,
}
use azkaban.Params.Cells.Draft.{DraftRow, render_row, render_rows, edit, open_rows, type_rows}

pub data Event : Type 0 where
  click : Spot → Place → Event
  type_in : Place → String → Event
  leave : Place → Event

-- `closeEditingTarget`: the cell is emptied before it is filled.
abbrev pub close_box : Bool → Cell → Cell
close_box is_name c = record { children = filled is_name (input_text c.children); editing = false }

-- the cell is opened whether it is open or not
abbrev pub handle_edit_column : Place → List EditRow → List EditRow
handle_edit_column = change_cell open_cell

-- A click at the icon removes the row first. Losing the focus and Enter are events of a text box.
pub step : Event → List EditRow → List EditRow
step (click on_icon p) rows = handle_edit_column p (detach p.row rows)
step (click on_cell p) rows = handle_edit_column p rows
step (click on_span p) rows = handle_edit_column p rows
step (click on_input p) rows = handle_edit_column p rows
step (type_in p text) rows = type_into p text rows
step (leave p) rows = change_cell (λ c. if c.editing then close_box p.is_name c else c) p rows

pub steps : List Event → List EditRow → List EditRow
unfolding step
steps [] rows = rows
steps (e ∷ es) rows = steps es (step e rows)

leave_row :
    (b : Bool) (r : DraftRow)
    → change_row (λ c. if c.editing then close_box b c else c) b (render_row (some b) r)
      ≡ render_row none r
leave_row true r = refl
leave_row false r = refl

abbrev place : ℕ → Bool → Place
place i b = record { row = i; is_name = b }

leave_rows :
    (i : ℕ) (b : Bool) (rs : List DraftRow)
    → change_cell
        (λ c. if c.editing then close_box b c else c)
        (place i b)
        (render_rows (some (place i b)) rs)
      ≡ render_rows none rs
leave_rows i b [] = refl
leave_rows zero b (r ∷ rs) = ap (◌∷ render_rows none rs) (leave_row b r)
leave_rows (suc i) b (r ∷ rs) = ap (render_row none r ∷◌) (leave_rows i b rs)

-- opening a cell that is open takes its text
open_row_again :
    (b : Bool) (text : String) (r : DraftRow)
    → change_row open_cell b (
        render_row (some b) (record r {
          texts = if b then record (r.texts) { name = text } else record (r.texts) { value = text };
        }))
      ≡ render_row (some b) (record r {
        texts = if b then record (r.texts) { name = "" } else record (r.texts) { value = "" };
      })
open_row_again true text r = refl
open_row_again false text r = refl

open_again :
    (i : ℕ) (b : Bool) (text : String) (rs : List DraftRow)
    → change_cell open_cell (place i b) (render_rows (some (place i b)) (edit (place i b) text rs))
      ≡ render_rows (some (place i b)) (edit (place i b) "" rs)
open_again i b text [] = refl
open_again zero b text (r ∷ rs) = ap (◌∷ render_rows none rs) (open_row_again b text r)
open_again (suc i) b text (r ∷ rs) = ap (render_row none r ∷◌) (open_again i b text rs)

-- Clicking at a cell, typing and leaving the text box sets the text of the cell in the table. A further
-- click into the text box, before it is left, takes away what was typed: the cell is left empty.
pub steps-edit :
    (p : Place) (text : String) (rs : List DraftRow)
    → (steps (click on_span p ∷ type_in p text ∷ leave p ∷ []) (render_rows none rs)
        ≡ render_rows none (edit p text rs))
      × (steps
            (click on_span p ∷ type_in p text ∷ click on_input p ∷ leave p ∷ [])
            (render_rows none rs)
          ≡ render_rows none (edit p "" rs))
unfolding steps
steps-edit p text rs =
    let typed =
      ap (type_into p text) (open_rows p.row p.is_name rs) ∙ type_rows p.row p.is_name text rs in
    let leave_box = λ (rows : List EditRow). step (leave p) rows in
    (
      ap leave_box typed ∙ leave_rows p.row p.is_name (edit p text rs),
      ap (λ rows. leave_box (change_cell open_cell p rows)) typed
          ∙ (ap leave_box (open_again p.row p.is_name text rs)
              ∙ leave_rows p.row p.is_name (edit p "" rs)),
    )
