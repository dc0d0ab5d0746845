-- ===== src/TableSort.antt =====
-- Sortable tables (src/web/js/azkaban.table.sort.js): a click on a header sorts the rows by its column,
-- and takes their child rows along. The lower case of a code unit, a table of Unicode, is a parameter.
-- `Array.prototype.sort` is a stable sort.
pub mod Groups
pub mod Rows
pub mod Clicks
pub mod Marks
use azkaban.Prelude.{
  ℕ, zero, suc, ◌+◌, List, [], ◌∷◌, ◌++◌, map, Option, none, some, Bool, true, false, ◌≡◌, refl,
  not, ◌&&◌, ◌||◌, length, get_elem?, modify, all, any, if◌then◌else◌, ltb, ◌==◌, arith, ap, sym,
  ◌∙◌, inl, inr, Bool-cases,
}
use azkaban.Prelude.Sort.{sort_by, count}
use azkaban.Texts.{Text, trim, text_eq}

-- A row of the table's body. The `id` tells the elements of the page apart.
pub record Row : Type 0 where
  pub id : ℕ
  pub cells : List Text
  pub is_child : Bool

-- `child_rows` holds the property `childRows` of the rows that have one.
pub record Table : Type 0 where
  pub rows : List Row
  pub child_rows : List (ℕ × List Row)

-- `tr.childRows`, empty where there is none
pub child_rows_of : ℕ → List (ℕ × List Row) → List Row
child_rows_of i [] = []
child_rows_of i ((j, rs) ∷ m) = if j == i then rs else child_rows_of i m

-- `row.childRows.push(nextRow)`, with the array made first where there is none
pub push_child_row : ℕ → Row → List (ℕ × List Row) → List (ℕ × List Row)
push_child_row i r [] = (i, r ∷ []) ∷ []
push_child_row i r ((j, rs) ∷ m) =
    if j == i then (j, rs ++ r ∷ []) ∷ m else (j, rs) ∷ push_child_row i r m

-- the loop of `initialize`
pub collect : Option Row → List Row → List (ℕ × List Row) → List (ℕ × List Row)
unfolding push_child_row
collect row [] m = m
collect none (r ∷ rs) m = collect (some r) rs m
collect (some row) (r ∷ rs) m =
    let joined = collect (some row) rs (push_child_row row.id r m) in
    let apart = collect (some r) rs m in if r.is_child then joined else apart

pub initialize : List Row → Table
unfolding collect
initialize rows = record { rows = rows; child_rows = collect none rows [] }

-- `texta < textb`
abbrev pub text_lt : Text → Text → Bool
text_lt s [] = false
text_lt [] (b ∷ t) = true
text_lt (a ∷ s) (b ∷ t) = ltb a b || (a == b && text_lt s t)

abbrev pub has_cell : ℕ → Row → Bool
has_cell index r = elim (get_elem? r.cells index) [ none ↦ false | some _ ↦ true ]

-- the rows of `tdToSort`
abbrev pub rows_to_sort : List Row → List Row
rows_to_sort [] = []
rows_to_sort (r ∷ rs) = if r.is_child then rows_to_sort rs else r ∷ rows_to_sort rs

-- `sortedTR`: each row with its child rows
pub sorted_rows : List (ℕ × List Row) → List Row → List Row
unfolding child_rows_of
sorted_rows m [] = []
sorted_rows m (r ∷ rs) = r ∷ (child_rows_of r.id m ++ sorted_rows m rs)

abbrev pub all_but : ℕ → List Row → List Row
all_but i [] = []
all_but i (r ∷ rs) = if r.id == i then all_but i rs else r ∷ all_but i rs

-- `$(tbody).append(row)` of a row that is there moves it to the end.
pub append_row : Row → List Row → List Row
append_row r body = all_but r.id body ++ r ∷ []

pub append_all : List Row → List Row → List Row
unfolding append_row
append_all [] body = body
append_all (r ∷ rs) body = append_all rs (append_row r body)

module _ (lower : ℕ → List ℕ) where
  abbrev pub lower_all : Text → Text
  lower_all [] = []
  lower_all (c ∷ t) = lower c ++ lower_all t

  -- `$(a).text().trim().toLowerCase()` of the cell at an index
  abbrev pub cell_key : ℕ → Row → Text
  cell_key index r = lower_all (trim (elim (get_elem? r.cells index) [ none ↦ [] | some t ↦ t ]))

  -- the comparison of `sort` gives a number below 0
  abbrev pub before : ℕ → Bool → Row → Row → Bool
  before index is_desc a b =
      if is_desc
      then text_lt (cell_key index b) (cell_key index a)
      else text_lt (cell_key index a) (cell_key index b)

  -- `sort`. A row to sort without a cell in the column raises a TypeError before any row moves.
  pub sort : ℕ → Bool → Table → Option Table
  unfolding sorted_rows append_all
  sort index is_desc t =
      if all (has_cell index) (rows_to_sort t.rows)
      then some (record t {
        rows =
            append_all
              (sorted_rows t.child_rows (sort_by (before index is_desc) (rows_to_sort t.rows)))
              t.rows;
      })
      else none

-- The class of a header.
pub data Mark : Type 0 where
  unmarked asc desc : Mark

toggle_mark : Option Mark → ℕ → List Mark → List Mark × Bool
toggle_mark (some asc) i marks = (modify marks i (λ _. desc), true)
toggle_mark (some desc) i marks = (modify marks i (λ _. asc), false)
toggle_mark _ i marks = (modify (map (λ _. unmarked) marks) i (λ _. asc), false)

-- `toggleSort`: the classes of the headers, and whether it sorts down.
pub toggle_sort : ℕ → List Mark → List Mark × Bool
unfolding toggle_mark
toggle_sort i marks = toggle_mark (get_elem? marks i) i marks

abbrev pub is_marked : Mark → Bool
is_marked unmarked = false
is_marked asc = true
is_marked desc = true

-- What a click at a header reads and changes.
pub record Sorter : Type 0 where
  pub marks : List Mark
  pub table : Table

module _ (lower : ℕ → List ℕ) where
  -- `handleClickSort`, where `none` is that a TypeError was raised.
  pub handle_click_sort : ℕ → Sorter → Option Sorter
  unfolding sort toggle_sort
  handle_click_sort i s =
      let (marks, is_desc) = toggle_sort i s.marks in
      elim (sort lower i is_desc s.table) [
        | none ↦ none
        | some table ↦ some (record { marks = marks; table = table })
      ]

  -- clicks in turn
  pub handle_clicks : List ℕ → Sorter → Option Sorter
  unfolding handle_click_sort
  handle_clicks [] s = some s
  handle_clicks (i ∷ is) s = elim (handle_click_sort i s) [
    | none ↦ none
    | some s' ↦ handle_clicks is s'
  ]
