-- ===== src/Params/Cells/Advanced/Loaded.antt =====
-- Editing a row that `show` loaded (src/web/js/azkaban.schedule.options.view.js). Its cells have no
-- `spanValue`.
use azkaban.Prelude.{
  ℕ, zero, suc, String, List, [], ◌∷◌, ◌++◌, none, Bool, true, false, ◌≡◌, refl, ap, sym, ◌∙◌, ◌||◌,
  if◌then◌else◌,
}
use azkaban.Prelude.Sort.{append_assoc, append_nil}
use azkaban.Flow.Graph.{ok}
use azkaban.Params.{Row, Params, edit_row, read_rows}
use azkaban.Params.Cells.{
  EditRow, Place, text_of, change_cell, open_cell, close_cell, on_cell, Table, close_editing_target,
  open_place,
}
use azkaban.Params.Cells.Draft.{append_empty}
use azkaban.Params.Cells.Advanced.{
  AdvancedForm, handle_edit_column, click_cell, loaded_row, load_rows, read_texts,
  handle_adv_schedule,
}
use azkaban.Params.Cells.Advanced.Laws.{same_place_refl}

abbrev loaded_rows : Params → List EditRow
loaded_rows [] = []
loaded_rows ((key, value) ∷ ps) = loaded_row key value ∷ loaded_rows ps

-- the parameters as rows
abbrev pub param_rows : Params → List Row
param_rows [] = []
param_rows ((key, value) ∷ ps) = record { name = key; value = value } ∷ param_rows ps

load_rows-append : (ps : Params) (rows : List EditRow) → load_rows ps rows ≡ rows ++ loaded_rows ps
load_rows-append [] rows = sym (append_nil rows)
load_rows-append ((key, value) ∷ ps) rows =
    load_rows-append ps (rows ++ loaded_row key value ∷ [])
    ∙ append_assoc rows (loaded_row key value ∷ []) (loaded_rows ps)

row_texts :
    {n n' v v' : String}
    → n ≡ n'
    → v ≡ v'
    → ◌≡◌ {A = Row} (record { name = n; value = v }) (record { name = n'; value = v' })
row_texts e f = cc

read_loaded :
    (key value : String)
    → ◌≡◌ {A = Row}
        (record {
          name = text_of (loaded_row key value).name.children;
          value = text_of (loaded_row key value).value.children;
        })
        (record { name = key; value = value })
read_loaded key value = row_texts (append_empty key) (append_empty value)

read_texts-loaded_rows : (ps : Params) → read_texts (loaded_rows ps) ≡ param_rows ps
read_texts-loaded_rows [] = refl
read_texts-loaded_rows ((key, value) ∷ ps) =
    ap (◌∷ read_texts (loaded_rows ps)) (read_loaded key value)
    ∙ ap (record { name = key; value = value } ∷◌) (read_texts-loaded_rows ps)

abbrev place : ℕ → Bool → Place
place i b = record { row = i; is_name = b }

abbrev reopened : ℕ → Bool → List EditRow → List EditRow
reopened i b rows = change_cell (close_cell b) (place i b) (change_cell open_cell (place i b) rows)

read_texts-reopened :
    (i : ℕ) (b : Bool) (ps : Params)
    → read_texts (reopened i b (loaded_rows ps)) ≡ edit_row i b "" (param_rows ps)
unfolding edit_row
read_texts-reopened i b [] = refl
read_texts-reopened zero true ((key, value) ∷ ps) =
    ap (◌∷ read_texts (loaded_rows ps)) (row_texts (append_empty "") (append_empty value))
    ∙ ap (record { name = ""; value = value } ∷◌) (read_texts-loaded_rows ps)
read_texts-reopened zero false ((key, value) ∷ ps) =
    ap (◌∷ read_texts (loaded_rows ps)) (row_texts (append_empty key) (append_empty ""))
    ∙ ap (record { name = key; value = "" } ∷◌) (read_texts-loaded_rows ps)
read_texts-reopened (suc i) b ((key, value) ∷ ps) =
    ap (◌∷ read_texts (reopened i b (loaded_rows ps))) (read_loaded key value)
    ∙ ap (record { name = key; value = value } ∷◌) (read_texts-reopened i b ps)

-- The request has the flow's parameters as they were loaded; but a click at a cell of a loaded row opens
-- it empty, so that closing it again, with nothing typed, sends an empty text in its place.
pub load_rows-click :
    (p : Place) (ps : Params) (f : AdvancedForm) (flags : List (String × Bool))
    → ((handle_adv_schedule f flags
          (record { rows = load_rows ps []; editing_target = none })).flow_override
        ≡ read_rows (param_rows ps) [])
      × ((t : Table) × (click_cell on_cell p
              (record { rows = load_rows ps []; editing_target = none })
            ≡ ok t)
          × ((handle_adv_schedule f flags (close_editing_target none none t)).flow_override
              ≡ read_rows (edit_row p.row p.is_name "" (param_rows ps)) []))
unfolding click_cell handle_edit_column close_editing_target handle_adv_schedule
load_rows-click p ps f flags = (
  ap (λ rows. read_rows (read_texts rows) []) (load_rows-append ps [])
      ∙ ap (λ rows. read_rows rows []) (read_texts-loaded_rows ps),
  (
    open_place p (record { rows = load_rows ps []; editing_target = none }),
    ap
        (λ b. ok (
          if b || false
          then open_place p (record { rows = load_rows ps []; editing_target = none })
          else record { rows = reopened p.row p.is_name (load_rows ps []); editing_target = none }))
        (same_place_refl p),
    ap (λ rows. read_rows (read_texts (reopened p.row p.is_name rows)) []) (load_rows-append ps [])
        ∙ ap (λ rows. read_rows rows []) (read_texts-reopened p.row p.is_name ps),
  ),
)
