-- ===== src/Tests/Pages.antt =====
-- The pages of executions at an example.
use azkaban.Prelude.{
  true, ℕ, ◌+◌, ◌-◌, ◌<◌, ◌≤◌, List, [], ◌∷◌, none, some, false, ◌≡◌, ◌↔◌, ◌⊎◌, refl, arith,
}
use azkaban.Paging.{
  Item, Model, item_at, ok, type_error, render_items, selection_position, requested, count_pages,
}
use azkaban.Paging.Items.{page_at, label_at}
use azkaban.Paging.Laws.{
  render_items-ok, render_items-type_error, selection_position-le_iff, requested-covers,
}

abbrev item : ℕ → Item
item n = record { disabled = false; selected = false; page = none; label = n; href = n }

abbrev blank : Item
blank = item 0

abbrev five : List Item
five = item 1 ∷ item 2 ∷ item 3 ∷ item 4 ∷ item 5 ∷ []

abbrev model : Model
model = record {
  page = 2;
  page_size = 16;
  num_pages = 0;
  total = some 40;
  bar = record { previous = item 0; next = item 0; items = five };
}

render_items-ok_example :
    (xs : List Item) × (render_items 3 5 five ≡ ok xs)
    × ((j : ℕ)
        → 1 ≤ j
        → (j ≤ 5) ⊎ (j ≤ selection_position 3 5)
        → page_at j xs ≡ some (3 + j - selection_position 3 5))
    × ((j : ℕ) → j < selection_position 3 5 → label_at j xs ≡ label_at j five)
render_items-ok_example = render_items-ok 3 5 five (omega arith) (omega arith) (omega arith) refl

render_items-type_error_example : (xs : List Item) × (render_items 1 6 five ≡ type_error xs)
render_items-type_error_example =
    render_items-type_error 1 6 five (omega arith) (omega arith) (omega arith) refl

selection_position-le_iff_example :
    ((selection_position 3 3 ≤ 3) ↔ ¬ ((◌≡◌ {A = ℕ} 3 3) × (◌≡◌ {A = ℕ} 3 3)))
    × ((items : List Item) × (it : Item) × (render_items 3 3
            (blank ∷ blank ∷ blank ∷ blank ∷ blank ∷ [])
          ≡ ok items)
        × (item_at 4 items ≡ some it)
        × (it.selected ≡ true)
        × (it.disabled ≡ true))
selection_position-le_iff_example =
    selection_position-le_iff 3 3 blank blank blank blank blank (omega arith) (omega arith)

requested-covers_example :
    (page : ℕ) × (1 ≤ page)
    × (page ≤ count_pages 40 16)
    × ((requested page 16).0 ≤ 20)
    × (20 < (requested page 16).0 + (requested page 16).1)
    × ((p : ℕ)
        → 1 ≤ p
        → (requested p 16).0 ≤ 20
        → 20 < (requested p 16).0 + (requested p 16).1
        → p ≡ page)
requested-covers_example = requested-covers 40 16 20 (omega arith) (omega arith)
