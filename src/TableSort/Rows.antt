-- ===== src/TableSort/Rows.antt =====
-- The rows of a sorted table (src/web/js/azkaban.table.sort.js).
use azkaban.Prelude.{
  ℕ, ◌≤◌, List, [], ◌∷◌, ◌++◌, some, Bool, true, false, ◌≡◌, refl, all, arith, ap, sym, ◌∙◌, inl,
  inr, Bool-cases, ◌==◌, if◌then◌else◌,
}
use azkaban.Prelude.Sort.{
  append_assoc, append_nil, sort_by, IsSorted, count, count-append, sort_by-IsSorted, count-sort_by,
}
use azkaban.Texts.{Text}
use azkaban.TableSort.{
  Row, initialize, text_lt, has_cell, rows_to_sort, sorted_rows, all_but, append_row, append_all,
  cell_key, before, sort, collect, child_rows_of,
}
use azkaban.TableSort.Groups.{
  Group, group, rows_of, times, rows_of-group, starts_with_row, heads-group, by_row, heads-sort_by,
  times-sort_by, AreKept, sorted_rows-heads, sort_by-AreKept, collect-AreKept,
}

text_lt_asymm : (s t : Text) → text_lt s t ≡ true → text_lt t s ≡ false
text_lt_asymm s [] h = ground (arith, h)
text_lt_asymm [] (b ∷ t) h = refl
text_lt_asymm (a ∷ s) (b ∷ t) h = ground (arith, h, text_lt_asymm s t)

before_asymm :
    (lower : ℕ → List ℕ) (index : ℕ) (is_desc : Bool) (a b : Row)
    → before lower index is_desc a b ≡ true
    → before lower index is_desc b a ≡ false
before_asymm lower index true a b h =
    text_lt_asymm (cell_key lower index b) (cell_key lower index a) h
before_asymm lower index false a b h =
    text_lt_asymm (cell_key lower index a) (cell_key lower index b) h

all_but-append : (i : ℕ) (xs ys : List Row) → all_but i (xs ++ ys) ≡ all_but i xs ++ all_but i ys
all_but-append i [] ys = refl
all_but-append i (x ∷ xs) ys = elim (Bool-cases (x.id == i)) [
  | inl same ↦ rw same (all_but-append i xs ys)
  | inr other ↦ rw other (ap (x ∷◌) (all_but-append i xs ys))
]

all_but-absent : (i : ℕ) (xs : List Row) → times i xs ≡ 0 → all_but i xs ≡ xs
all_but-absent i [] h = refl
all_but-absent i (x ∷ xs) h = elim (Bool-cases (x.id == i)) [
  | inl same ↦ absurd (ground (arith, same, h))
  | inr other ↦ rw other (ap (x ∷◌) (all_but-absent i xs (ground (arith, other, h))))
]

times-all_but :
    (i k : ℕ) (xs : List Row) → times k (all_but i xs) ≡ (if i == k then 0 else times k xs)
times-all_but i k [] = ground arith
times-all_but i k (x ∷ xs) = ground (arith, times-all_but i k xs)

-- Rows that are appended in turn stand at the end in that order, where they are different elements.
-- Here `body` has only such rows, and `moved` none.
append_all-body :
    (xs body moved : List Row)
    → ((i : ℕ) → times i xs ≤ 1)
    → ((i : ℕ) → 1 ≤ times i body → 1 ≤ times i xs)
    → ((i : ℕ) → 1 ≤ times i xs → times i moved ≡ 0)
    → append_all xs (body ++ moved) ≡ moved ++ xs
unfolding append_all append_row
append_all-body [] [] moved distinct among apart = sym (append_nil moved)
append_all-body [] (b ∷ body) moved distinct among apart = absurd (ground (arith, among b.id))
append_all-body (x ∷ xs) body moved distinct among apart =
    let gone : times x.id moved ≡ 0 = apart x.id (ground arith) in
    let split : append_row x (body ++ moved) ≡ all_but x.id body ++ (moved ++ x ∷ []) =
      ap (◌++ (x ∷ [])) (
        all_but-append x.id body moved
        ∙ ap (all_but x.id body ++◌) (all_but-absent x.id moved gone))
      ∙ append_assoc (all_but x.id body) moved (x ∷ []) in
    ap (append_all xs) split
    ∙ (append_all-body xs (all_but x.id body) (moved ++ x ∷ []) (λ i. ground (arith, distinct i))
          (λ i there. ground (arith, there, among i, times-all_but x.id i body))
          (λ i there. ground (
            arith,
            there,
            apart i,
            distinct i,
            count-append (λ (r : Row). r.id == i) moved (x ∷ []),
          ))
        ∙ append_assoc moved (x ∷ []) xs)

pub append_all-same :
    (xs body : List Row)
    → ((i : ℕ) → times i body ≤ 1)
    → ((i : ℕ) → times i xs ≡ times i body)
    → append_all xs body ≡ xs
append_all-same xs body distinct same =
    ap (append_all xs) (sym (append_nil body))
    ∙ append_all-body xs body [] (λ i. omega (arith, distinct i, same i))
        (λ i there. omega (arith, there, same i)) (λ i there. refl)

module _ (lower : ℕ → List ℕ) (index : ℕ) where
  -- Of two rows next to each other, the text of the lower one is not before that of the upper one.
  abbrev pub IsAscending : List Group → Type 0
  IsAscending [] = Unit {0}
  IsAscending (g ∷ []) = Unit {0}
  IsAscending (g ∷ h ∷ gs) =
      (text_lt (cell_key lower index h.row) (cell_key lower index g.row) ≡ false)
      × IsAscending (h ∷ gs)

  abbrev pub IsDescending : List Group → Type 0
  IsDescending [] = Unit {0}
  IsDescending (g ∷ []) = Unit {0}
  IsDescending (g ∷ h ∷ gs) =
      (text_lt (cell_key lower index g.row) (cell_key lower index h.row) ≡ false)
      × IsDescending (h ∷ gs)

  abbrev pub IsOrdered : Bool → List Group → Type 0
  IsOrdered false gs = IsAscending gs
  IsOrdered true gs = IsDescending gs

  IsSorted-IsOrdered :
      (is_desc : Bool) (gs : List Group)
      → IsSorted (by_row (before lower index is_desc)) gs
      → IsOrdered is_desc gs
  IsSorted-IsOrdered false [] h = tt
  IsSorted-IsOrdered false (g ∷ []) h = tt
  IsSorted-IsOrdered false (g ∷ k ∷ gs) (e, h) = (e, IsSorted-IsOrdered false (k ∷ gs) h)
  IsSorted-IsOrdered true [] h = tt
  IsSorted-IsOrdered true (g ∷ []) h = tt
  IsSorted-IsOrdered true (g ∷ k ∷ gs) (e, h) = (e, IsSorted-IsOrdered true (k ∷ gs) h)

  pub sort_by-IsOrdered :
      (is_desc : Bool) (gs : List Group)
      → IsOrdered is_desc (sort_by (by_row (before lower index is_desc)) gs)
  sort_by-IsOrdered is_desc gs =
      let lt = before lower index is_desc in
      IsSorted-IsOrdered is_desc (sort_by (by_row lt) gs)
        (sort_by-IsSorted (by_row lt) (λ g h. before_asymm lower index is_desc g.row h.row) gs)

  sort-moved :
      (is_desc : Bool) (rows : List Row)
      → ((i : ℕ) → times i rows ≤ 1)
      → starts_with_row rows ≡ true
      → AreKept (initialize rows).child_rows (group rows)
      → append_all
          (sorted_rows
            (initialize rows).child_rows
            (sort_by (before lower index is_desc) (rows_to_sort rows)))
          rows
        ≡ rows_of (sort_by (by_row (before lower index is_desc)) (group rows))
  sort-moved is_desc rows distinct first kept =
      let lt = before lower index is_desc in
      let m = (initialize rows).child_rows in
      let ordered = sort_by (by_row lt) (group rows) in
      let listed : sorted_rows m (sort_by lt (rows_to_sort rows)) ≡ rows_of ordered =
        ap (λ rs. sorted_rows m (sort_by lt rs)) (sym (heads-group rows first))
        ∙ (ap (sorted_rows m) (sym (heads-sort_by lt (group rows)))
            ∙ sorted_rows-heads m ordered (sort_by-AreKept m lt (group rows) kept)) in
      ap (λ xs. append_all xs rows) listed
      ∙ append_all-same (rows_of ordered) rows distinct
          (λ i. times-sort_by lt i (group rows) ∙ ap (times i) (rows_of-group rows))

pub initialize-AreKept :
    (rows : List Row)
    → ((i : ℕ) → times i rows ≤ 1)
    → AreKept (initialize rows).child_rows (group rows)
unfolding initialize collect child_rows_of
initialize-AreKept [] distinct = tt
initialize-AreKept (r ∷ rs) distinct = collect-AreKept r [] rs [] distinct (λ i there. refl) refl

-- A table as it is made, whose rows are different elements and start with a row that is no child row, and in
-- which every row that is no child row has a cell in the column: `sort` ends without an error. The table
-- then holds the groups of before, each as often, a group being a row with the child rows that stood
-- below it; and the texts of the rows in the column are in order, down or up as it is asked for.
pub sort-IsOrdered :
    (lower : ℕ → List ℕ) (index : ℕ) (is_desc : Bool) (rows : List Row)
    → ((i : ℕ) → times i rows ≤ 1)
    → starts_with_row rows ≡ true
    → all (has_cell index) (rows_to_sort rows) ≡ true
    → (groups : List Group) × (sort lower index is_desc (initialize rows)
        ≡ some (record (initialize rows) { rows = rows_of groups }))
      × IsOrdered lower index is_desc groups
      × ((p : Group → Bool) → count p groups ≡ count p (group rows))
      × (rows_of (group rows) ≡ rows)
unfolding sort initialize
sort-IsOrdered lower index is_desc rows distinct first cells =
    let lt = before lower index is_desc in
    (
      sort_by (by_row lt) (group rows),
      rw cells (
          ap (λ rs. some (record (initialize rows) { rows = rs }))
            (sort-moved lower index is_desc rows distinct first
              (initialize-AreKept rows distinct))),
      sort_by-IsOrdered lower index is_desc (group rows),
      λ p. count-sort_by (by_row lt) p (group rows),
      rows_of-group rows,
    )
