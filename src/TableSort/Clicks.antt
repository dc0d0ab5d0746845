-- ===== src/TableSort/Clicks.antt =====
-- Clicks at the headers of a table in turn (src/web/js/azkaban.table.sort.js).
use mathlib.Core.Path.{subst}
use azkaban.Prelude.{
  ℕ, zero, suc, ◌≤◌, List, [], ◌∷◌, ◌++◌, Option, none, some, Bool, true, false, not, ◌&&◌, ◌≡◌,
  refl, all, arith, ap, sym, ◌∙◌, inl, inr, Bool-cases, get_elem?, modify, map,
}
use azkaban.Prelude.Sort.{insert, sort_by, count, count-sort_by}
use azkaban.TableSort.{
  Row, Table, initialize, has_cell, rows_to_sort, sorted_rows, append_all, before, sort, Mark,
  unmarked, asc, desc, toggle_mark, toggle_sort, Sorter, handle_click_sort, handle_clicks,
}
use azkaban.TableSort.Groups.{
  Group, attach, group, rows_of, heads, times, rows_of-group, starts_with_row, by_row,
  heads-sort_by, times-sort_by, AreKept, sorted_rows-heads, sort_by-AreKept,
}
use azkaban.TableSort.Rows.{
  append_all-same, IsOrdered, IsAscending, IsDescending, sort_by-IsOrdered, initialize-AreKept,
}

-- a row and child rows
abbrev is_whole : Group → Bool
is_whole g = not g.row.is_child && all (λ (r : Row). r.is_child) g.child_rows

rows_to_sort-child_rows :
    (kids rs : List Row)
    → all (λ (r : Row). r.is_child) kids ≡ true
    → rows_to_sort (kids ++ rs) ≡ rows_to_sort rs
rows_to_sort-child_rows [] rs h = refl
rows_to_sort-child_rows (k ∷ kids) rs h = ground (arith, h, rows_to_sort-child_rows kids rs)

rows_to_sort-rows_of :
    (gs : List Group) → all is_whole gs ≡ true → rows_to_sort (rows_of gs) ≡ heads gs
rows_to_sort-rows_of [] h = refl
rows_to_sort-rows_of (g ∷ gs) h =
    ground (arith, h, rows_to_sort-child_rows g.child_rows (rows_of gs), rows_to_sort-rows_of gs)

all-append : (p : Row → Bool) (xs ys : List Row) → all p (xs ++ ys) ≡ (all p xs && all p ys)
all-append p [] ys = refl
all-append p (x ∷ xs) ys = ground (arith, all-append p xs ys)

all-attach :
    (row : Row) (kids rs : List Row)
    → row.is_child ≡ false
    → all (λ (r : Row). r.is_child) kids ≡ true
    → all is_whole (attach row kids rs) ≡ true
all-attach row kids [] h k = ground (arith, h, k)
all-attach row kids (r ∷ rs) h k = elim (Bool-cases r.is_child) [
  | inl child ↦ simp child (
      all-attach row (kids ++ r ∷ []) rs h
        (ground (arith, all-append (λ (x : Row). x.is_child) kids (r ∷ []), k, child)))
  | inr other ↦ simp other (ground (arith, h, k, all-attach r [] rs other refl))
]

all-group : (rows : List Row) → starts_with_row rows ≡ true → all is_whole (group rows) ≡ true
all-group [] h = refl
all-group (r ∷ rs) h = all-attach r [] rs (ground (arith, h)) refl

module _ (p : Group → Bool) (lt : Group → Group → Bool) where
  all-insert : (g : Group) (gs : List Group) → all p (insert lt g gs) ≡ (p g && all p gs)
  all-insert g [] = refl
  all-insert g (h ∷ gs) = ground (arith, all-insert g gs)

  all-sort_by : (gs : List Group) → all p (sort_by lt gs) ≡ all p gs
  all-sort_by [] = refl
  all-sort_by (g ∷ gs) = ground (arith, all-insert g (sort_by lt gs), all-sort_by gs)

all-heads :
    (index : ℕ) (gs : List Group)
    → all (has_cell index) (heads gs) ≡ all (λ (g : Group). has_cell index g.row) gs
all-heads index [] = refl
all-heads index (g ∷ gs) = ground (arith, all-heads index gs)

-- The groups of a table that `sort` can work on.
abbrev IsGood : List (ℕ × List Row) → List Group → Type 0
IsGood m gs = AreKept m gs × (all is_whole gs ≡ true) × ((i : ℕ) → times i (rows_of gs) ≤ 1)

abbrev table_of : List (ℕ × List Row) → List Group → Table
table_of m gs = record { rows = rows_of gs; child_rows = m }

module _ (lower : ℕ → List ℕ) (m : List (ℕ × List Row)) where
  abbrev sorted_by : ℕ → Bool → List Group → List Group
  sorted_by index is_desc gs = sort_by (by_row (before lower index is_desc)) gs

  sort-IsGood :
      (index : ℕ) (is_desc : Bool) (gs : List Group)
      → IsGood m gs
      → IsGood m (sorted_by index is_desc gs)
  sort-IsGood index is_desc gs (kept, whole, apart) =
      let lt = before lower index is_desc in
      (
        sort_by-AreKept m lt gs kept,
        all-sort_by is_whole (by_row lt) gs ∙ whole,
        λ i. omega (arith, times-sort_by lt i gs, apart i),
      )

  sort-table_of :
      (index : ℕ) (is_desc : Bool) (gs : List Group)
      → IsGood m gs
      → all (λ (g : Group). has_cell index g.row) gs ≡ true
      → sort lower index is_desc (table_of m gs) ≡ some (table_of m (sorted_by index is_desc gs))
  unfolding sort
  sort-table_of index is_desc gs (kept, whole, apart) cells =
      let lt = before lower index is_desc in
      let heads_only = rows_to_sort-rows_of gs whole in
      let listed : sorted_rows m (sort_by lt (heads gs)) ≡ rows_of (sorted_by index is_desc gs) =
        ap (sorted_rows m) (sym (heads-sort_by lt gs))
        ∙ sorted_rows-heads m (sorted_by index is_desc gs) (sort_by-AreKept m lt gs kept) in
      let moved =
        append_all-same (rows_of (sorted_by index is_desc gs)) (rows_of gs) apart
          (λ i. times-sort_by lt i gs) in
      let there : all (has_cell index) (heads gs) ≡ true = all-heads index gs ∙ cells in
      rw heads_only (
        rw there (
          ap (λ rs. some (record { rows = append_all rs (rows_of gs); child_rows = m })) listed
          ∙ ap (λ rs. some (record { rows = rs; child_rows = m })) moved))

get_elem?-modify :
    (i : ℕ) (marks : List Mark) (x y : Mark)
    → get_elem? (modify marks i (λ _. x)) i ≡ some y
    → y ≡ x
get_elem?-modify i [] x y h = absurd (ground (arith, h))
get_elem?-modify zero (z ∷ marks) x y h = ground (arith, h)
get_elem?-modify (suc i) (z ∷ marks) x y h = get_elem?-modify i marks x y h

asc≢desc : asc ≡ desc → ⊥
asc≢desc e = absurd (ground (arith, e))

abbrev Agrees : List Mark × Bool → ℕ → Type 0
Agrees r i = (get_elem? r.0 i ≡ some asc → r.1 ≡ false) × (get_elem? r.0 i ≡ some desc → r.1 ≡ true)

toggle_mark-Agrees :
    (o : Option Mark) (i : ℕ) (marks : List Mark) → Agrees (toggle_mark o i marks) i
unfolding toggle_mark
toggle_mark-Agrees (some asc) i marks =
    (λ h. absurd (asc≢desc (get_elem?-modify i marks desc asc h)), λ h. refl)
toggle_mark-Agrees (some desc) i marks =
    (λ h. refl, λ h. absurd (asc≢desc (sym (get_elem?-modify i marks asc desc h))))
toggle_mark-Agrees (some unmarked) i marks = (
  λ h. refl,
  λ h. absurd (asc≢desc (sym (get_elem?-modify i (map (λ _. unmarked) marks) asc desc h))),
)
toggle_mark-Agrees none i marks = (
  λ h. refl,
  λ h. absurd (asc≢desc (sym (get_elem?-modify i (map (λ _. unmarked) marks) asc desc h))),
)

toggle_sort-Agrees : (i : ℕ) (marks : List Mark) → Agrees (toggle_sort i marks) i
unfolding toggle_sort
toggle_sort-Agrees i marks = toggle_mark-Agrees (get_elem? marks i) i marks

abbrev pub AllHaveCells : List ℕ → List Group → Type 0
AllHaveCells [] gs = Unit {0}
AllHaveCells (i ∷ is) gs = (all (λ (g : Group). has_cell i g.row) gs ≡ true) × AllHaveCells is gs

module _ (lower : ℕ → List ℕ) (m : List (ℕ × List Row)) where
  AllHaveCells-sorted_by :
      (is : List ℕ) (index : ℕ) (is_desc : Bool) (gs : List Group)
      → AllHaveCells is gs
      → AllHaveCells is (sorted_by lower m index is_desc gs)
  AllHaveCells-sorted_by [] index is_desc gs h = tt
  AllHaveCells-sorted_by (i ∷ is) index is_desc gs (e, h) = (
    all-sort_by (λ (g : Group). has_cell i g.row) (by_row (before lower index is_desc)) gs ∙ e,
    AllHaveCells-sorted_by is index is_desc gs h,
  )

  handle_click_sort-table_of :
      (i : ℕ) (marks : List Mark) (gs : List Group)
      → IsGood m gs
      → all (λ (g : Group). has_cell i g.row) gs ≡ true
      → handle_click_sort lower i (record { marks = marks; table = table_of m gs })
        ≡ some (record {
          marks = (toggle_sort i marks).0;
          table = table_of m (sorted_by lower m i (toggle_sort i marks).1 gs);
        })
  unfolding handle_click_sort
  handle_click_sort-table_of i marks gs good cells =
      rw (sort-table_of lower m i (toggle_sort i marks).1 gs good cells, handle_click_sort) refl

  -- What the clicks make of a table of groups, the last one at the header `last`.
  Ends : ℕ → List Group → Option Sorter → Type 0
  Ends last gs o =
      (s : Sorter) × (groups : List Group) × (o ≡ some s)
      × (s.table ≡ table_of m groups)
      × ((p : Group → Bool) → count p groups ≡ count p gs)
      × (get_elem? s.marks last ≡ some asc → IsAscending lower last groups)
      × (get_elem? s.marks last ≡ some desc → IsDescending lower last groups)

  clicks-Ends :
      (is : List ℕ) (last : ℕ) (marks : List Mark) (gs : List Group)
      → IsGood m gs
      → AllHaveCells (is ++ last ∷ []) gs
      → Ends last gs
          (handle_clicks lower (is ++ last ∷ []) (record { marks = marks; table = table_of m gs }))
  unfolding handle_clicks Ends
  clicks-Ends [] last marks gs good (cells, _) =
      let (up, down) = toggle_sort-Agrees last marks in
      let ordered = sort_by-IsOrdered lower last (toggle_sort last marks).1 gs in
      let sorted = sorted_by lower m last (toggle_sort last marks).1 gs in
      (
        record { marks = (toggle_sort last marks).0; table = table_of m sorted },
        sorted,
        rw (handle_click_sort-table_of last marks gs good cells, handle_clicks) refl,
        refl,
        λ p. count-sort_by (by_row (before lower last (toggle_sort last marks).1)) p gs,
        λ h. subst (λ d. IsOrdered lower last d sorted) (up h) ordered,
        λ h. subst (λ d. IsOrdered lower last d sorted) (down h) ordered,
      )
  clicks-Ends (i ∷ is) last marks gs good (cells, more) =
      let is_desc = (toggle_sort i marks).1 in
      let sorted = sorted_by lower m i is_desc gs in
      let (s, groups, done, table, same, up, down) =
        clicks-Ends is last (toggle_sort i marks).0 sorted (sort-IsGood lower m i is_desc gs good)
          (AllHaveCells-sorted_by (is ++ last ∷ []) i is_desc gs more) in
      (
        s,
        groups,
        rw (handle_click_sort-table_of i marks gs good cells, handle_clicks) done,
        table,
        λ p. same p ∙ count-sort_by (by_row (before lower i is_desc)) p gs,
        up,
        down,
      )

-- However the headers of a table are clicked in turn, after it was made of rows that are different elements
-- and start with one that is no child row, and where these rows have a cell in every column that is
-- clicked: no click raises an error, the table holds its groups, each a row with the child rows that
-- stood below it, as often as at first, and its rows are in the order that the mark of the header
-- clicked last says: up at `asc`, down at `desc`.
pub handle_clicks-IsOrdered :
    (lower : ℕ → List ℕ) (is : List ℕ) (last : ℕ) (marks : List Mark) (rows : List Row)
    → ((i : ℕ) → times i rows ≤ 1)
    → starts_with_row rows ≡ true
    → AllHaveCells (is ++ last ∷ []) (group rows)
    → (s : Sorter) × (groups : List Group) × (handle_clicks lower
          (is ++ last ∷ [])
          (record { marks = marks; table = initialize rows })
        ≡ some s)
      × (s.table.rows ≡ rows_of groups)
      × ((p : Group → Bool) → count p groups ≡ count p (group rows))
      × (rows_of (group rows) ≡ rows)
      × (get_elem? s.marks last ≡ some asc → IsAscending lower last groups)
      × (get_elem? s.marks last ≡ some desc → IsDescending lower last groups)
unfolding Ends initialize
handle_clicks-IsOrdered lower is last marks rows distinct first cells =
    let m = (initialize rows).child_rows in
    let made : table_of m (group rows) ≡ initialize rows =
      ap (λ rs. record { rows = rs; child_rows = m }) (rows_of-group rows) in
    let good : IsGood m (group rows) = (
      initialize-AreKept rows distinct,
      all-group rows first,
      λ i. omega (arith, distinct i, ap (times i) (rows_of-group rows)),
    ) in
    let (s, groups, done, table, same, up, down) =
      clicks-Ends lower m is last marks (group rows) good cells in
    (
      s,
      groups,
      ap (λ t. handle_clicks lower (is ++ last ∷ []) (record { marks = marks; table = t }))
            (sym made)
          ∙ done,
      ap (λ (t : Table). t.rows) table,
      same,
      rows_of-group rows,
      up,
      down,
    )
