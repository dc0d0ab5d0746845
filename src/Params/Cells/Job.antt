-- ===== src/Params/Cells/Job.antt =====
-- The table of `JobEditView` (src/web/js/azkaban.jobedit.view.js): its events, and what it sends. A click
-- runs the handlers of the elements inside first, and that of the view, which closes the edited cell,
-- at last, unless `handleEditColumn` stopped the event.
use azkaban.Prelude.{
  sym, ◌<◌, String, List, [], ◌∷◌, ◌++◌, Option, none, some, true, ◌≡◌, refl, ap, ◌∙◌, ◌||◌,
  if◌then◌else◌, ltb, ltb→lt, length, get_elem?, arith, inl, inr, Bool-cases,
}
use mathlib.Core.Bool.{false≢true}
use mathlib.Core.Path.{subst}
use azkaban.Params.{Row, Params, Overrides, handle_set}
use azkaban.Params.Laws.{Sends, handle_set-Sends}
use azkaban.Params.Cells.{
  Child, icon, span, bare, input, EditRow, Place, same_place, is_at, new_row, detach, detach_all,
  type_into, Spot, on_cell, on_icon, on_span, on_input, Table, close_editing_target, open_place,
}
use azkaban.Params.Cells.Draft.{
  DraftRow, Draft, render_rows, render, edit, remove, remove_all, IsIn, draft_row, type_rows,
  detach_rows, add_rows_none, add_rows, open_place-render, close_all, close_other, same_place_sym,
  detach_all_rows, length-render_rows, length-edit, length-remove,
}

pub data Event : Type 0 where
  add : Event
  click : Spot → Place → Event
  elsewhere : Event
  type_in : String → Event
  enter : Event
  cancel : Event

-- The texts of the `span`s of a row, in order; the icon is one of them.
abbrev spans : List Child → List String
spans [] = []
spans (icon ∷ cs) = "" ∷ spans cs
spans (span s ∷ cs) = s ∷ spans cs
spans (bare s ∷ cs) = spans cs
spans (input s ∷ cs) = spans cs

abbrev text_or_empty : Option String → String
text_or_empty none = ""
text_or_empty (some s) = s

-- the texts that the loop in `handleSet` takes of the rows on the page
abbrev pub read_spans : List EditRow → List Row
read_spans [] = []
read_spans (r ∷ rs) =
    let texts = spans (r.name.children ++ r.value.children) in
    let rest = read_spans rs in
    if r.attached
    then record {
      name = text_or_empty (get_elem? texts 1);
      value = text_or_empty (get_elem? texts 2);
    }
      ∷ rest
    else rest

-- `handleEditColumn` for an event with the given `evt.target` and `evt.target.myparent`
pub handle_edit_column : Place → Option Place → Option Place → Table → Table
handle_edit_column p target parent t =
    if is_at t.editing_target p then t else open_place p (close_editing_target target parent t)

-- `handleRemoveColumn` at an icon, and `handleEditColumn` for the cell. Only a text has `myparent`.
pub click_cell : Spot → Place → Table → Table
unfolding handle_edit_column
click_cell on_cell p t = handle_edit_column p (some p) none t
click_cell on_icon p t = handle_edit_column p none none (record t { rows = detach p.row t.rows })
click_cell on_span p t = handle_edit_column p none (some p) t
click_cell on_input p t = handle_edit_column p none none t

-- A click at a row that was never made is none; the text typed goes into the box of the edited cell.
-- The handler of Enter and the clicks elsewhere have a target that is no cell. `handleCancel` deletes
-- the rows.
pub step : Event → Table → Table
unfolding click_cell
step add t = close_editing_target none none (record t { rows = t.rows ++ new_row "" "" ∷ [] })
step (click spot p) t = if ltb p.row (length t.rows) then click_cell spot p t else t
step elsewhere t = close_editing_target none none t
step (type_in text) t = elim t.editing_target [
  | none ↦ t
  | some p ↦ record t { rows = type_into p text t.rows }
]
step enter t = close_editing_target none none t
step cancel t = close_editing_target none none (record t { rows = detach_all t.rows })

pub steps : List Event → Table → Table
unfolding step
steps [] t = t
steps (e ∷ es) t = steps es (step e t)

-- `handleSet`: it closes the edited cell first.
pub handle_set_click : Params → Table → Overrides
handle_set_click override_params t =
    handle_set (read_spans (close_editing_target none none t).rows) override_params

-- What a click at a cell does to the draft.
abbrev rows_after : Spot → Place → List DraftRow → List DraftRow
rows_after on_icon p rs = remove p.row rs
rows_after on_cell p rs = rs
rows_after on_span p rs = rs
rows_after on_input p rs = rs

abbrev draft_click : Spot → Place → Draft → Draft
draft_click spot p d = record {
  rows = rows_after spot p d.rows;
  editing = if is_at d.editing p then d.editing else some p;
}

-- What an event does to the draft.
abbrev pub draft_step : Event → Draft → Draft
draft_step add d = record { rows = d.rows ++ draft_row "" "" ∷ []; editing = none }
draft_step (click spot p) d = if ltb p.row (length d.rows) then draft_click spot p d else d
draft_step elsewhere d = record d { editing = none }
draft_step (type_in text) d = elim d.editing [
  | none ↦ d
  | some p ↦ record d { rows = edit p text d.rows }
]
draft_step enter d = record d { editing = none }
draft_step cancel d = record { rows = remove_all d.rows; editing = none }

abbrev pub draft_steps : List Event → Draft → Draft
draft_steps [] d = d
draft_steps (e ∷ es) d = draft_steps es (draft_step e d)

-- The rows on the page, with their texts.
abbrev pub shown : List DraftRow → List Row
shown [] = []
shown (r ∷ rs) = if r.attached then r.texts ∷ shown rs else shown rs

read_spans-render : (rs : List DraftRow) → read_spans (render_rows none rs) ≡ shown rs
read_spans-render [] = refl
read_spans-render (r ∷ rs) = elim (Bool-cases r.attached) [
  | inl e ↦ rw e (ap (r.texts ∷◌) (read_spans-render rs))
  | inr e ↦ rw e (read_spans-render rs)
]

abbrev IsNear : Place → Option Place → Option Place → Type 0
IsNear p target parent =
    (q : Place) → (is_at target q || is_at parent q) ≡ true → same_place q p ≡ true

handle_edit_column-render :
    (p : Place) (target parent : Option Place) (d : Draft)
    → IsNear p target parent
    → handle_edit_column p target parent (render d)
      ≡ render (record d { editing = if is_at d.editing p then d.editing else some p })
unfolding handle_edit_column
handle_edit_column-render p target parent d near = elim (Bool-cases (is_at d.editing p)) [
  | inl here ↦ rw here refl
  | inr far ↦ rw far (
      ap (open_place p) (close_other p target parent d.editing d.rows near far)
      ∙ open_place-render p d.rows)
]

click_cell-render :
    (spot : Spot) (p : Place) (d : Draft)
    → click_cell spot p (render d) ≡ render (draft_click spot p d)
unfolding click_cell
click_cell-render on_cell p d =
    handle_edit_column-render p (some p) none d (λ q h. ground (arith, h, same_place_sym p q))
click_cell-render on_span p d =
    handle_edit_column-render p none (some p) d (λ q h. ground (arith, h, same_place_sym p q))
click_cell-render on_input p d =
    handle_edit_column-render p none none d (λ q h. absurd (false≢true h))
click_cell-render on_icon p d =
    ap
      (λ (rows : List EditRow).
        handle_edit_column p none none (record { rows = rows; editing_target = d.editing }))
      (detach_rows p.row d.editing d.rows)
    ∙ handle_edit_column-render p none none (record d { rows = remove p.row d.rows })
        (λ q h. absurd (false≢true h))

add-render :
    (e : Option Place) (rs : List DraftRow)
    → IsIn e rs
    → render_rows e rs ++ new_row "" "" ∷ [] ≡ render_rows e (rs ++ draft_row "" "" ∷ [])
add-render none rs h = add_rows_none rs "" ""
add-render (some p) rs h = add_rows p.row p.is_name rs "" "" h

type-render :
    (text : String) (e : Option Place) (rs : List DraftRow)
    → step (type_in text) (render (record { rows = rs; editing = e }))
      ≡ render (draft_step (type_in text) (record { rows = rs; editing = e }))
unfolding step
type-render text none rs = refl
type-render text (some p) rs =
    ap (λ x. record { rows = x; editing_target = some p }) (type_rows p.row p.is_name text rs)

step-render :
    (e : Event) (d : Draft) → IsIn d.editing d.rows → step e (render d) ≡ render (draft_step e d)
unfolding step
step-render add d h =
    ap
      (λ (rows : List EditRow).
        close_editing_target none none (record { rows = rows; editing_target = d.editing }))
      (add-render d.editing d.rows h)
    ∙ close_all d.editing (d.rows ++ draft_row "" "" ∷ [])
step-render (click spot p) d h =
    let same = length-render_rows d.rows d.editing in
    rw same (elim (Bool-cases (ltb p.row (length d.rows))) [
      | inl there ↦ rw there (click_cell-render spot p d)
      | inr out ↦ rw out refl
    ])
step-render elsewhere d h = close_all d.editing d.rows
step-render (type_in text) d h = type-render text d.editing d.rows
step-render enter d h = close_all d.editing d.rows
step-render cancel d h =
    ap
      (λ (rows : List EditRow).
        close_editing_target none none (record { rows = rows; editing_target = d.editing }))
      (detach_all_rows d.rows d.editing)
    ∙ close_all d.editing (remove_all d.rows)

type-IsIn :
    (text : String) (e : Option Place) (rs : List DraftRow)
    → IsIn e rs
    → IsIn
        (draft_step (type_in text) (record { rows = rs; editing = e })).editing
        (draft_step (type_in text) (record { rows = rs; editing = e })).rows
type-IsIn text none rs h = tt
type-IsIn text (some p) rs h = omega (arith, h, length-edit p text rs)

length-rows_after :
    (spot : Spot) (p : Place) (rs : List DraftRow) → length (rows_after spot p rs) ≡ length rs
length-rows_after on_icon p rs = length-remove p.row rs
length-rows_after on_cell p rs = refl
length-rows_after on_span p rs = refl
length-rows_after on_input p rs = refl

IsIn-same_length :
    (e : Option Place) (rs rs' : List DraftRow) → length rs' ≡ length rs → IsIn e rs → IsIn e rs'
IsIn-same_length none rs rs' same h = tt
IsIn-same_length (some p) rs rs' same h = omega (arith, same, h)

click-IsIn :
    (spot : Spot) (p : Place) (d : Draft)
    → p.row < length d.rows
    → IsIn d.editing d.rows
    → IsIn (draft_click spot p d).editing (draft_click spot p d).rows
click-IsIn spot p d there h =
    let same = length-rows_after spot p d.rows in
    elim (Bool-cases (is_at d.editing p)) [
      | inl here ↦ rw here (IsIn-same_length d.editing d.rows (rows_after spot p d.rows) same h)
      | inr far ↦ rw far (omega (arith, same, there))
    ]

draft_step-IsIn :
    (e : Event) (d : Draft)
    → IsIn d.editing d.rows
    → IsIn (draft_step e d).editing (draft_step e d).rows
draft_step-IsIn add d h = tt
draft_step-IsIn (click spot p) d h = elim (Bool-cases (ltb p.row (length d.rows))) [
  | inl there ↦ rw there (click-IsIn spot p d (ltb→lt p.row (length d.rows) there) h)
  | inr out ↦ rw out h
]
draft_step-IsIn elsewhere d h = tt
draft_step-IsIn (type_in text) d h = type-IsIn text d.editing d.rows h
draft_step-IsIn enter d h = tt
draft_step-IsIn cancel d h = tt

handle_set_click-draft :
    (es : List Event) (d : Draft) (override_params : Params)
    → IsIn d.editing d.rows
    → handle_set_click override_params (steps es (render d))
      ≡ handle_set (shown (draft_steps es d).rows) override_params
unfolding steps handle_set_click
handle_set_click-draft [] d override_params h =
    ap (λ (t : Table). handle_set (read_spans t.rows) override_params) (close_all d.editing d.rows)
    ∙ ap (λ rows. handle_set rows override_params) (read_spans-render d.rows)
handle_set_click-draft (e ∷ es) d override_params h =
    ap (λ t. handle_set_click override_params (steps es t)) (step-render e d h)
    ∙ handle_set_click-draft es (draft_step e d) override_params (draft_step-IsIn e d h)

-- Whatever the user does in the table, `handleSet` sends what was typed: after any events, also with a cell
-- still open, each property is that of the last row on the page with its name, with its text as it was
-- typed. `type` and `dependencies` are not read of the rows: `type` is the job's own, also where it has
-- none, and `dependencies` where the job has it. A row with an empty name is left out. The condition is
-- that the open cell at the start is one of the table.
pub handle_set_click-steps :
    (es : List Event) (d : Draft) (override_params : Params)
    → IsIn d.editing d.rows
    → Sends
        (shown (draft_steps es d).rows)
        override_params
        (handle_set_click override_params (steps es (render d)))
handle_set_click-steps es d override_params h =
    let rows = shown (draft_steps es d).rows in
    subst (Sends rows override_params) (sym (handle_set_click-draft es d override_params h))
      (handle_set-Sends rows override_params)
