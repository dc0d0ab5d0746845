-- ===== src/Params/Cells/Draft.antt =====
-- What a user sees of an editable table: the rows with their texts, and the cell that is being edited.
-- `render` is the elements of the page for it (src/web/js/azkaban.flow.execute.view.js,
-- src/web/js/azkaban.schedule.options.view.js, src/web/js/azkaban.jobedit.view.js).
use azkaban.Prelude.{
  ℕ, zero, suc, ◌<◌, String, List, [], ◌∷◌, ◌++◌, Option, none, some, Bool, true, false, ◌≡◌, refl,
  ap, ◌∙◌, ◌||◌, if◌then◌else◌, length, modify, arith, inl, inr, Bool-cases,
}
use azkaban.Params.{Row}
use azkaban.Params.Load.{append}
use azkaban.Params.Cells.{
  input, Cell, EditRow, Place, same_place, is_at, text_of, open_cell, filled, close_cell,
  change_row, change_cell, new_row, detach, detach_all, type_into, Table, close_editing_target,
  open_place,
}

pub record DraftRow : Type 0 where
  pub texts : Row
  pub attached : Bool

pub record Draft : Type 0 where
  pub rows : List DraftRow
  pub editing : Option Place

-- the cell with a text, closed or being edited
abbrev pub closed : Bool → String → Cell
closed is_name s = record { children = filled is_name s; editing = false }

abbrev pub opened : String → Cell
opened s = record { children = input s ∷ []; editing = true }

-- The part of the edited place that is in the first row, and the part in the rows after it.
abbrev pub in_first : Option Place → Option Bool
in_first none = none
in_first (some p) = elim p.row [ zero ↦ some p.is_name | suc _ ↦ none ]

abbrev pub in_rest : Option Place → Option Place
in_rest none = none
in_rest (some p) = elim p.row [ zero ↦ none | suc i ↦ some (record p { row = i }) ]

abbrev pub render_row : Option Bool → DraftRow → EditRow
render_row none r = record {
  attached = r.attached;
  name = closed true r.texts.name;
  value = closed false r.texts.value;
}
render_row (some true) r = record {
  attached = r.attached;
  name = opened r.texts.name;
  value = closed false r.texts.value;
}
render_row (some false) r = record {
  attached = r.attached;
  name = closed true r.texts.name;
  value = opened r.texts.value;
}

abbrev pub render_rows : Option Place → List DraftRow → List EditRow
render_rows e [] = []
render_rows e (r ∷ rs) = render_row (in_first e) r ∷ render_rows (in_rest e) rs

abbrev pub render : Draft → Table
render d = record { rows = render_rows d.editing d.rows; editing_target = d.editing }

-- typing a text into a cell
abbrev pub edit : Place → String → List DraftRow → List DraftRow
edit p text [] = []
edit p text (r ∷ rs) = elim p.row [
  | zero ↦
      record r {
        texts =
            if p.is_name
            then record (r.texts) { name = text }
            else record (r.texts) { value = text };
      }
      ∷ rs
  | suc i ↦ r ∷ edit (record p { row = i }) text rs
]

abbrev pub remove : ℕ → List DraftRow → List DraftRow
remove i rs = modify rs i (λ r. record r { attached = false })

abbrev pub remove_all : List DraftRow → List DraftRow
remove_all [] = []
remove_all (r ∷ rs) = record r { attached = false } ∷ remove_all rs

-- The edited cell is in the table.
abbrev pub IsIn : Option Place → List DraftRow → Type 0
IsIn none rs = Unit {0}
IsIn (some p) rs = p.row < length rs

pub append_empty : (s : String) → append s "" ≡ s
unfolding append
append_empty String.[] = refl
append_empty (String.◌∷◌ c s) = ap (String.◌∷◌ c) (append_empty s)

open_cell-closed : (b : Bool) (s : String) → open_cell (closed b s) ≡ opened s
open_cell-closed true s = ap opened (append_empty s)
open_cell-closed false s = ap opened (append_empty s)

pub text_of-closed : (b : Bool) (s : String) → text_of (closed b s).children ≡ s
text_of-closed true s = append_empty s
text_of-closed false s = append_empty s

open_row :
    (b : Bool) (r : DraftRow) → change_row open_cell b (render_row none r) ≡ render_row (some b) r
open_row true r =
    ap (λ c. record (render_row none r) { name = c }) (open_cell-closed true r.texts.name)
open_row false r =
    ap (λ c. record (render_row none r) { value = c }) (open_cell-closed false r.texts.value)

close_row :
    (b : Bool) (r : DraftRow)
    → change_row (close_cell b) b (render_row (some b) r) ≡ render_row none r
close_row true r = refl
close_row false r = refl

abbrev place : ℕ → Bool → Place
place i b = record { row = i; is_name = b }

pub open_rows :
    (i : ℕ) (b : Bool) (rs : List DraftRow)
    → change_cell open_cell (place i b) (render_rows none rs) ≡ render_rows (some (place i b)) rs
open_rows i b [] = refl
open_rows zero b (r ∷ rs) = ap (◌∷ render_rows none rs) (open_row b r)
open_rows (suc i) b (r ∷ rs) = ap (render_row none r ∷◌) (open_rows i b rs)

pub close_rows :
    (i : ℕ) (b : Bool) (rs : List DraftRow)
    → change_cell (close_cell b) (place i b) (render_rows (some (place i b)) rs)
      ≡ render_rows none rs
close_rows i b [] = refl
close_rows zero b (r ∷ rs) = ap (◌∷ render_rows none rs) (close_row b r)
close_rows (suc i) b (r ∷ rs) = ap (render_row none r ∷◌) (close_rows i b rs)

type_row :
    (b : Bool) (text : String) (r : DraftRow) (rs : List DraftRow)
    → type_into (place 0 b) text (render_rows (some (place 0 b)) (r ∷ rs))
      ≡ render_rows (some (place 0 b)) (edit (place 0 b) text (r ∷ rs))
type_row true text r rs = refl
type_row false text r rs = refl

pub type_rows :
    (i : ℕ) (b : Bool) (text : String) (rs : List DraftRow)
    → type_into (place i b) text (render_rows (some (place i b)) rs)
      ≡ render_rows (some (place i b)) (edit (place i b) text rs)
type_rows i b text [] = refl
type_rows zero b text (r ∷ rs) = type_row b text r rs
type_rows (suc i) b text (r ∷ rs) = ap (render_row none r ∷◌) (type_rows i b text rs)

detach_row :
    (e : Option Bool) (r : DraftRow)
    → record (render_row e r) { attached = false } ≡ render_row e (record r { attached = false })
detach_row none r = refl
detach_row (some true) r = refl
detach_row (some false) r = refl

pub detach_rows :
    (i : ℕ) (e : Option Place) (rs : List DraftRow)
    → detach i (render_rows e rs) ≡ render_rows e (remove i rs)
detach_rows i e [] = refl
detach_rows zero e (r ∷ rs) = ap (◌∷ render_rows (in_rest e) rs) (detach_row (in_first e) r)
detach_rows (suc i) e (r ∷ rs) = ap (render_row (in_first e) r ∷◌) (detach_rows i (in_rest e) rs)

pub detach_all_rows :
    (rs : List DraftRow) (e : Option Place)
    → detach_all (render_rows e rs) ≡ render_rows e (remove_all rs)
detach_all_rows [] e = refl
detach_all_rows (r ∷ rs) e =
    ap (◌∷ detach_all (render_rows (in_rest e) rs)) (detach_row (in_first e) r)
    ∙ ap (render_row (in_first e) (record r { attached = false }) ∷◌)
        (detach_all_rows rs (in_rest e))

pub length-render_rows :
    (rs : List DraftRow) (e : Option Place) → length (render_rows e rs) ≡ length rs
length-render_rows [] e = refl
length-render_rows (r ∷ rs) e = ap suc (length-render_rows rs (in_rest e))

length-edit_at :
    (i : ℕ) (b : Bool) (text : String) (rs : List DraftRow)
    → length (edit (place i b) text rs) ≡ length rs
length-edit_at i b text [] = refl
length-edit_at zero b text (r ∷ rs) = refl
length-edit_at (suc i) b text (r ∷ rs) = ap suc (length-edit_at i b text rs)

pub length-edit :
    (p : Place) (text : String) (rs : List DraftRow) → length (edit p text rs) ≡ length rs
length-edit p text rs = length-edit_at p.row p.is_name text rs

pub length-remove : (i : ℕ) (rs : List DraftRow) → length (remove i rs) ≡ length rs
length-remove i [] = refl
length-remove zero (r ∷ rs) = refl
length-remove (suc i) (r ∷ rs) = ap suc (length-remove i rs)

abbrev pub draft_row : String → String → DraftRow
draft_row name value = record { texts = record { name = name; value = value }; attached = true }

pub add_rows_none :
    (rs : List DraftRow) (name value : String)
    → render_rows none rs ++ new_row name value ∷ []
      ≡ render_rows none (rs ++ draft_row name value ∷ [])
add_rows_none [] name value = refl
add_rows_none (r ∷ rs) name value = ap (render_row none r ∷◌) (add_rows_none rs name value)

pub add_rows :
    (i : ℕ) (b : Bool) (rs : List DraftRow) (name value : String)
    → i < length rs
    → render_rows (some (place i b)) rs ++ new_row name value ∷ []
      ≡ render_rows (some (place i b)) (rs ++ draft_row name value ∷ [])
add_rows i b [] name value h = absurd (omega (arith, h))
add_rows zero b (r ∷ rs) name value h = ap (render_row (some b) r ∷◌) (add_rows_none rs name value)
add_rows (suc i) b (r ∷ rs) name value h =
    ap (render_row none r ∷◌) (add_rows i b rs name value (omega (arith, h)))

pub same_place_sym : (p q : Place) → same_place p q ≡ same_place q p
same_place_sym p q = ground arith

-- Opening a cell while no other is edited, and closing the edited one.
pub open_place-render :
    (p : Place) (rs : List DraftRow)
    → open_place p (render (record { rows = rs; editing = none }))
      ≡ render (record { rows = rs; editing = some p })
open_place-render p rs =
    ap (λ x. record { rows = x; editing_target = some p }) (open_rows p.row p.is_name rs)

pub close-render :
    (target parent e : Option Place) (rs : List DraftRow)
    → close_editing_target target parent (render (record { rows = rs; editing = e }))
      ≡ render (record {
        rows = rs;
        editing = elim e [
          | none ↦ none
          | some p ↦ if is_at target p || is_at parent p then some p else none
        ];
      })
unfolding close_editing_target
close-render target parent none rs = refl
close-render target parent (some p) rs = elim (Bool-cases (is_at target p || is_at parent p)) [
  | inl stays ↦ rw stays refl
  | inr closes ↦
      rw closes
        (ap (λ x. record { rows = x; editing_target = none }) (close_rows p.row p.is_name rs))
]

pub close_all :
    (e : Option Place) (rs : List DraftRow)
    → close_editing_target none none (render (record { rows = rs; editing = e }))
      ≡ render (record { rows = rs; editing = none })
close_all none rs = close-render none none none rs
close_all (some p) rs = close-render none none (some p) rs

-- An event that is only near `p` closes any other cell.
pub close_other :
    (p : Place) (target parent e : Option Place) (rs : List DraftRow)
    → ((q : Place) → (is_at target q || is_at parent q) ≡ true → same_place q p ≡ true)
    → is_at e p ≡ false
    → close_editing_target target parent (render (record { rows = rs; editing = e }))
      ≡ render (record { rows = rs; editing = none })
close_other p target parent none rs near far = close-render target parent none rs
close_other p target parent (some q) rs near far =
    elim (Bool-cases (is_at target q || is_at parent q)) [
      | inl stays ↦ absurd (ground (arith, far, near q stays))
      | inr closes ↦
          close-render target parent (some q) rs
          ∙ ap (λ b. render (record { rows = rs; editing = if b then some q else none })) closes
    ]
