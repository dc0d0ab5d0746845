-- ===== src/Params/Cells/Advanced/Laws.antt =====
-- What the table of the scheduling dialog does at a click, and what is sent of it
-- (src/web/js/azkaban.schedule.options.view.js).
use azkaban.Prelude.{
  ℕ, zero, suc, String, List, [], ◌∷◌, Option, none, some, Bool, true, false, ◌≡◌, refl, ap, sym,
  ◌∙◌, ◌||◌, if◌then◌else◌, inl, inr, Bool-cases, arith,
}
use azkaban.Flow.Graph.{Outcome, ok, type_error, ◌>>=◌}
use azkaban.Params.{Row, read_rows}
use azkaban.Params.Cells.{Place, same_place, text_of, on_cell, on_span, Table, close_editing_target}
use azkaban.Params.Cells.Draft.{
  DraftRow, Draft, render_row, render_rows, render, edit, text_of-closed, open_place-render,
  close-render, same_place_sym,
}
use azkaban.Params.Cells.Job.{shown}
use azkaban.Params.Cells.Advanced.{
  AdvancedForm, handle_edit_column, click_cell, read_texts, handle_adv_schedule,
}

-- What a click at a cell gives, where `after` is what is edited if nothing was.
abbrev pub clicked : Option Place → Place → Draft → Outcome Table
clicked after p d = elim d.editing [
  | none ↦ ok (render (record { rows = d.rows; editing = after }))
  | some q ↦ if same_place q p then ok (render d) else type_error (render d)
]

pub same_place_refl : (p : Place) → same_place p p ≡ true
same_place_refl p = ground arith

on_cell_at :
    (p : Place) (e : Option Place) (rs : List DraftRow)
    → click_cell on_cell p (render (record { rows = rs; editing = e }))
      ≡ clicked (some p) p (record { rows = rs; editing = e })
unfolding click_cell handle_edit_column
on_cell_at p none rs =
    ap (λ t. ok (close_editing_target (some p) none t)) (open_place-render p rs)
    ∙ (ap ok (close-render (some p) none (some p) rs)
        ∙ ap
            (λ b. ok (render (record { rows = rs; editing = if b || false then some p else none })))
            (same_place_refl p))
on_cell_at p (some q) rs =
    let at_q = render (record { rows = rs; editing = some q }) in
    elim (Bool-cases (same_place q p)) [
      | inl here ↦
          ap
            (λ b. (if b then ok at_q else type_error at_q) >>= λ t'.
              ok (close_editing_target (some p) none t'))
            here
          ∙ (ap ok (close-render (some p) none (some q) rs)
              ∙ (ap
                    (λ b. ok (
                      render (record { rows = rs; editing = if b || false then some q else none })))
                    (same_place_sym p q ∙ here)
                  ∙ sym (ap (λ b. if b then ok at_q else type_error at_q) here)))
      | inr far ↦
          ap
            (λ b. (if b then ok at_q else type_error at_q) >>= λ t'.
              ok (close_editing_target (some p) none t'))
            far
          ∙ sym (ap (λ b. if b then ok at_q else type_error at_q) far)
    ]

on_span_at :
    (p : Place) (e : Option Place) (rs : List DraftRow)
    → click_cell on_span p (render (record { rows = rs; editing = e }))
      ≡ clicked none p (record { rows = rs; editing = e })
unfolding click_cell handle_edit_column
on_span_at p none rs =
    ap (λ t. ok (close_editing_target none none t)) (open_place-render p rs)
    ∙ ap ok (close-render none none (some p) rs)
on_span_at p (some q) rs =
    let at_q = render (record { rows = rs; editing = some q }) in
    elim (Bool-cases (same_place q p)) [
      | inl here ↦
          ap
            (λ b. (if b then ok at_q else type_error at_q) >>= λ t'.
              ok (close_editing_target none (if b then some p else none) t'))
            here
          ∙ (ap ok (close-render none (some p) (some q) rs)
              ∙ (ap
                    (λ b. ok (
                      render (record { rows = rs; editing = if false || b then some q else none })))
                    (same_place_sym p q ∙ here)
                  ∙ sym (ap (λ b. if b then ok at_q else type_error at_q) here)))
      | inr far ↦
          ap
            (λ b. (if b then ok at_q else type_error at_q) >>= λ t'.
              ok (close_editing_target none (if b then some p else none) t'))
            far
          ∙ sym (ap (λ b. if b then ok at_q else type_error at_q) far)
    ]

-- A click at a cell opens it only where it hits the cell beside its text; a click at the text leaves all
-- cells closed. While a cell is edited, a click at it changes nothing, and a click at another cell ends
-- with a TypeError and leaves the first open.
pub click_cell-render :
    (p : Place) (d : Draft)
    → (click_cell on_cell p (render d) ≡ clicked (some p) p d)
      × (click_cell on_span p (render d) ≡ clicked none p d)
click_cell-render p d = (on_cell_at p d.editing d.rows, on_span_at p d.editing d.rows)

read_closed :
    (r : DraftRow)
    → ◌≡◌ {A = Row}
        (record {
          name = text_of (render_row none r).name.children;
          value = text_of (render_row none r).value.children;
        })
        r.texts
read_closed r =
    ap (λ n. record { name = n; value = text_of (render_row none r).value.children })
      (text_of-closed true r.texts.name)
    ∙ ap (λ v. record { name = r.texts.name; value = v }) (text_of-closed false r.texts.value)

read_texts-render_none : (rs : List DraftRow) → read_texts (render_rows none rs) ≡ shown rs
read_texts-render_none [] = refl
read_texts-render_none (r ∷ rs) = elim (Bool-cases r.attached) [
  | inl e ↦ rw e (
      ap (◌∷ read_texts (render_rows none rs)) (read_closed r)
      ∙ ap (r.texts ∷◌) (read_texts-render_none rs))
  | inr e ↦ rw e (read_texts-render_none rs)
]

read_open :
    (b : Bool) (r : DraftRow)
    → ◌≡◌ {A = Row}
        (record {
          name = text_of (render_row (some b) r).name.children;
          value = text_of (render_row (some b) r).value.children;
        })
        (if b then record (r.texts) { name = "" } else record (r.texts) { value = "" })
read_open true r = ap (λ v. record { name = ""; value = v }) (text_of-closed false r.texts.value)
read_open false r = ap (λ n. record { name = n; value = "" }) (text_of-closed true r.texts.name)

abbrev place : ℕ → Bool → Place
place i b = record { row = i; is_name = b }

read_texts-render_some :
    (i : ℕ) (b : Bool) (rs : List DraftRow)
    → read_texts (render_rows (some (place i b)) rs) ≡ shown (edit (place i b) "" rs)
read_texts-render_some i b [] = refl
read_texts-render_some zero true (r ∷ rs) = elim (Bool-cases r.attached) [
  | inl e ↦ rw e (
      ap (◌∷ read_texts (render_rows none rs)) (read_open true r)
      ∙ ap (record (r.texts) { name = "" } ∷◌) (read_texts-render_none rs))
  | inr e ↦ rw e (read_texts-render_none rs)
]
read_texts-render_some zero false (r ∷ rs) = elim (Bool-cases r.attached) [
  | inl e ↦ rw e (
      ap (◌∷ read_texts (render_rows none rs)) (read_open false r)
      ∙ ap (record (r.texts) { value = "" } ∷◌) (read_texts-render_none rs))
  | inr e ↦ rw e (read_texts-render_none rs)
]
read_texts-render_some (suc i) b (r ∷ rs) = elim (Bool-cases r.attached) [
  | inl e ↦ rw e (
      ap (◌∷ read_texts (render_rows (some (place i b)) rs)) (read_closed r)
      ∙ ap (r.texts ∷◌) (read_texts-render_some i b rs))
  | inr e ↦ rw e (read_texts-render_some i b rs)
]

read_texts-render :
    (e : Option Place) (rs : List DraftRow)
    → read_texts (render_rows e rs) ≡ shown (elim e [ none ↦ rs | some p ↦ edit p "" rs ])
read_texts-render none rs = read_texts-render_none rs
read_texts-render (some p) rs = read_texts-render_some p.row p.is_name rs

-- What `handleAdvSchedule` sends of the rows: a cell that is still being edited counts as empty, whatever
-- was typed into it.
pub handle_adv_schedule-render :
    (f : AdvancedForm) (flags : List (String × Bool)) (d : Draft)
    → (handle_adv_schedule f flags (render d)).flow_override
      ≡ read_rows (shown (elim d.editing [ none ↦ d.rows | some p ↦ edit p "" d.rows ])) []
unfolding handle_adv_schedule
handle_adv_schedule-render f flags d =
    ap (λ rows. read_rows rows []) (read_texts-render d.editing d.rows)
