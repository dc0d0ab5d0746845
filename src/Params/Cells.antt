-- ===== src/Params/Cells.antt =====
-- The rows and cells of the editable tables as elements of the page: `EditTableView`
-- (src/web/js/azkaban.flow.execute.view.js), `AdvancedScheduleView`
-- (src/web/js/azkaban.schedule.options.view.js) and `JobEditView` (src/web/js/azkaban.jobedit.view.js).
-- A row that was removed is kept, detached, since a view may still hold one of its cells. Rows are
-- only added at the end, so a row is named by its position among all of them.
pub mod Draft
pub mod Dialog
pub mod Advanced
pub mod Job
use Prim.Native.String
use azkaban.Prelude.{
  ℕ, zero, suc, String, List, [], ◌∷◌, ◌++◌, Option, none, some, Bool, true, false, not, ◌&&◌, ◌||◌,
  if◌then◌else◌, ◌==◌, modify, get_elem?,
}
use azkaban.Params.Load.{append}

-- What a cell contains: the icon that removes the row, a `spanValue`, a text that is no element, or the
-- text box in which the user edits.
pub data Child : Type 0 where
  icon : Child
  span : String → Child
  bare : String → Child
  input : String → Child

pub record Cell : Type 0 where
  pub children : List Child
  pub editing : Bool

pub record EditRow : Type 0 where
  pub attached : Bool
  pub name : Cell
  pub value : Cell

-- A cell of the table: its row, and whether it is the cell of the name.
pub record Place : Type 0 where
  pub row : ℕ
  pub is_name : Bool

abbrev pub same_place : Place → Place → Bool
same_place p q = p.row == q.row && (if p.is_name then q.is_name else not q.is_name)

-- `$(td).text()`
abbrev pub text_of : List Child → String
text_of [] = ""
text_of (icon ∷ cs) = text_of cs
text_of (span s ∷ cs) = append s (text_of cs)
text_of (bare s ∷ cs) = append s (text_of cs)
text_of (input s ∷ cs) = text_of cs

-- `$(td).children(".spanValue").text()`
abbrev pub span_text : List Child → String
span_text [] = ""
span_text (icon ∷ cs) = span_text cs
span_text (span s ∷ cs) = append s (span_text cs)
span_text (bare s ∷ cs) = span_text cs
span_text (input s ∷ cs) = span_text cs

-- the text in `$(td).children("input")[0]`
abbrev pub input_text : List Child → String
input_text [] = ""
input_text (input s ∷ cs) = s
input_text (icon ∷ cs) = input_text cs
input_text (span s ∷ cs) = input_text cs
input_text (bare s ∷ cs) = input_text cs

-- `$(input).remove()` for it
abbrev pub remove_input : List Child → List Child
remove_input [] = []
remove_input (input s ∷ cs) = cs
remove_input (icon ∷ cs) = icon ∷ remove_input cs
remove_input (span s ∷ cs) = span s ∷ remove_input cs
remove_input (bare s ∷ cs) = bare s ∷ remove_input cs

-- The user types into the text box of a cell; there is nothing to type into without one.
abbrev pub type_text : String → List Child → List Child
type_text text [] = []
type_text text (input s ∷ cs) = input text ∷ cs
type_text text (icon ∷ cs) = icon ∷ type_text text cs
type_text text (span s ∷ cs) = span s ∷ type_text text cs
type_text text (bare s ∷ cs) = bare s ∷ type_text text cs

-- The part of `handleEditColumn` that opens a cell: its text goes into a text box, alone in the cell.
abbrev pub open_cell : Cell → Cell
open_cell c = record { children = input (span_text c.children) ∷ []; editing = true }

-- the icon of a name cell, and the text
abbrev pub filled : Bool → String → List Child
filled is_name text = if is_name then icon ∷ span text ∷ [] else span text ∷ []

-- The part of `closeEditingTarget` that closes a cell.
abbrev pub close_cell : Bool → Cell → Cell
close_cell is_name c = record {
  children = remove_input c.children ++ filled is_name (input_text c.children);
  editing = false;
}

abbrev pub change_row : (Cell → Cell) → Bool → EditRow → EditRow
change_row f is_name r =
    if is_name then record r { name = f r.name } else record r { value = f r.value }

-- what a handler does to one cell
abbrev pub change_cell : (Cell → Cell) → Place → List EditRow → List EditRow
change_cell f p rows = modify rows p.row (change_row f p.is_name)

-- `handleAddRow`, with the texts that the row gets
abbrev pub new_row : String → String → EditRow
new_row name value = record {
  attached = true;
  name = record { children = filled true name; editing = false };
  value = record { children = filled false value; editing = false };
}

-- `$(row).remove()`
abbrev pub detach : ℕ → List EditRow → List EditRow
detach i rows = modify rows i (λ r. record r { attached = false })

-- Every row goes.
abbrev pub detach_all : List EditRow → List EditRow
detach_all [] = []
detach_all (r ∷ rs) = record r { attached = false } ∷ detach_all rs

-- What the mouse is clicked at in a cell.
pub data Spot : Type 0 where
  on_cell on_icon on_span on_input : Spot

-- The state of a view that keeps the cell being edited.
pub record Table : Type 0 where
  pub rows : List EditRow
  pub editing_target : Option Place

-- whether the cell being edited is the given one, if any
abbrev pub is_at : Option Place → Place → Bool
is_at none p = false
is_at (some q) p = same_place q p

-- `closeEditingTarget` of the views that keep the cell, for an event with the given `evt.target` and
-- parent of it, where they are cells: `parentElement` in the scheduling view, `myparent` in the other.
unfoldable pub close_editing_target : Option Place → Option Place → Table → Table
close_editing_target target parent t = elim t.editing_target [
  | none ↦ t
  | some p ↦
      if is_at target p || is_at parent p
      then t
      else record { rows = change_cell (close_cell p.is_name) p t.rows; editing_target = none }
]

-- the end of `handleEditColumn`
abbrev pub open_place : Place → Table → Table
open_place p t = record { rows = change_cell open_cell p t.rows; editing_target = some p }

abbrev pub type_into : Place → String → List EditRow → List EditRow
type_into p text = change_cell (λ c. record c { children = type_text text c.children }) p
