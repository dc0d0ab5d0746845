-- ===== src/TableSort/Groups.antt =====
-- The groups of a table's rows, each a row with the child rows below it, and how the steps of `sort` act
-- on them (src/web/js/azkaban.table.sort.js).
use mathlib.Core.Path.{subst}
use azkaban.Prelude.{
  ℕ, ◌≤◌, List, [], ◌∷◌, ◌++◌, some, Bool, true, false, ◌≡◌, refl, arith, ap, sym, ◌∙◌, inl, inr,
  Bool-cases, ◌==◌, if◌then◌else◌,
}
use azkaban.Prelude.Sort.{append_assoc, insert, sort_by, count, count-append}
use azkaban.TableSort.{Row, child_rows_of, push_child_row, collect, rows_to_sort, sorted_rows}

pub record Group : Type 0 where
  pub row : Row
  pub child_rows : List Row

-- the groups of the rows below `row`, with the child rows of `row` that were passed
abbrev pub attach : Row → List Row → List Row → List Group
attach row kids [] = record { row = row; child_rows = kids } ∷ []
attach row kids (r ∷ rs) =
    let joined = attach row (kids ++ r ∷ []) rs in
    let apart = attach r [] rs in
    if r.is_child then joined else record { row = row; child_rows = kids } ∷ apart

abbrev pub group : List Row → List Group
group [] = []
group (r ∷ rs) = attach r [] rs

-- the rows of groups, from the top
abbrev pub rows_of : List Group → List Row
rows_of [] = []
rows_of (g ∷ gs) = g.row ∷ (g.child_rows ++ rows_of gs)

abbrev pub heads : List Group → List Row
heads [] = []
heads (g ∷ gs) = g.row ∷ heads gs

-- how many of the rows are the element
abbrev pub times : ℕ → List Row → ℕ
times i rows = count (λ (r : Row). r.id == i) rows

rows_of-attach :
    (row : Row) (kids rs : List Row) → rows_of (attach row kids rs) ≡ row ∷ (kids ++ rs)
rows_of-attach row kids [] = refl
rows_of-attach row kids (r ∷ rs) = elim (Bool-cases r.is_child) [
  | inl child ↦
      simp child
        (rows_of-attach row (kids ++ r ∷ []) rs ∙ ap (row ∷◌) (append_assoc kids (r ∷ []) rs))
  | inr other ↦ simp other (ap (λ t. row ∷ (kids ++ t)) (rows_of-attach r [] rs))
]

pub rows_of-group : (rows : List Row) → rows_of (group rows) ≡ rows
rows_of-group [] = refl
rows_of-group (r ∷ rs) = rows_of-attach r [] rs

heads-attach : (row : Row) (kids rs : List Row) → heads (attach row kids rs) ≡ row ∷ rows_to_sort rs
heads-attach row kids [] = refl
heads-attach row kids (r ∷ rs) = elim (Bool-cases r.is_child) [
  | inl child ↦ simp child (heads-attach row (kids ++ r ∷ []) rs)
  | inr other ↦ simp other (ap (row ∷◌) (heads-attach r [] rs))
]

-- The first row is no child row.
abbrev pub starts_with_row : List Row → Bool
starts_with_row [] = true
starts_with_row (r ∷ rs) = if r.is_child then false else true

pub heads-group :
    (rows : List Row) → starts_with_row rows ≡ true → heads (group rows) ≡ rows_to_sort rows
heads-group [] h = refl
heads-group (r ∷ rs) h = elim (Bool-cases r.is_child) [
  | inl child ↦ absurd (ground (arith, h, child))
  | inr other ↦ simp other (heads-attach r [] rs)
]

module _ (lt : Row → Row → Bool) where
  abbrev pub by_row : Group → Group → Bool
  by_row g h = lt g.row h.row

  heads-insert :
      (g : Group) (gs : List Group) → heads (insert by_row g gs) ≡ insert lt g.row (heads gs)
  heads-insert g [] = refl
  heads-insert g (h ∷ gs) = elim (Bool-cases (lt h.row g.row)) [
    | inl first ↦ rw first (ap (h.row ∷◌) (heads-insert g gs))
    | inr other ↦ rw other refl
  ]

  pub heads-sort_by : (gs : List Group) → heads (sort_by by_row gs) ≡ sort_by lt (heads gs)
  heads-sort_by [] = refl
  heads-sort_by (g ∷ gs) =
      heads-insert g (sort_by by_row gs) ∙ ap (insert lt g.row) (heads-sort_by gs)

  times-insert :
      (i : ℕ) (g : Group) (gs : List Group)
      → times i (rows_of (insert by_row g gs)) ≡ times i (rows_of (g ∷ gs))
  times-insert i g [] = refl
  times-insert i g (h ∷ gs) = elim (Bool-cases (lt h.row g.row)) [
    | inl first ↦ rw first (
        omega (
          arith,
          times-insert i g gs,
          count-append (λ (r : Row). r.id == i) h.child_rows (rows_of (insert by_row g gs)),
          count-append (λ (r : Row). r.id == i) h.child_rows (rows_of gs),
          count-append (λ (r : Row). r.id == i) g.child_rows (rows_of gs),
          count-append (λ (r : Row). r.id == i) g.child_rows (rows_of (h ∷ gs)),
        ))
    | inr other ↦ rw other refl
  ]

  pub times-sort_by :
      (i : ℕ) (gs : List Group) → times i (rows_of (sort_by by_row gs)) ≡ times i (rows_of gs)
  times-sort_by i [] = refl
  times-sort_by i (g ∷ gs) =
      times-insert i g (sort_by by_row gs)
      ∙ omega (
        arith,
        times-sort_by i gs,
        count-append (λ (r : Row). r.id == i) g.child_rows (rows_of (sort_by by_row gs)),
        count-append (λ (r : Row). r.id == i) g.child_rows (rows_of gs),
      )

module _ (m : List (ℕ × List Row)) where
  -- the property `childRows` of each row is that of its group
  abbrev pub AreKept : List Group → Type 0
  AreKept [] = Unit {0}
  AreKept (g ∷ gs) = (child_rows_of g.row.id m ≡ g.child_rows) × AreKept gs

  pub sorted_rows-heads : (gs : List Group) → AreKept gs → sorted_rows m (heads gs) ≡ rows_of gs
  unfolding sorted_rows
  sorted_rows-heads [] h = refl
  sorted_rows-heads (g ∷ gs) (e, h) = rw (e, sorted_rows-heads gs h) refl

  insert-AreKept :
      (lt : Row → Row → Bool) (g : Group) (gs : List Group)
      → child_rows_of g.row.id m ≡ g.child_rows
      → AreKept gs
      → AreKept (insert (by_row lt) g gs)
  insert-AreKept lt g [] e h = (e, tt)
  insert-AreKept lt g (k ∷ gs) e (e', h) = elim (Bool-cases (lt k.row g.row)) [
    | inl first ↦ rw first (e', insert-AreKept lt g gs e h)
    | inr other ↦ rw other (e, (e', h))
  ]

  pub sort_by-AreKept :
      (lt : Row → Row → Bool) (gs : List Group) → AreKept gs → AreKept (sort_by (by_row lt) gs)
  sort_by-AreKept lt [] h = tt
  sort_by-AreKept lt (g ∷ gs) (e, h) =
      insert-AreKept lt g (sort_by (by_row lt) gs) e (sort_by-AreKept lt gs h)

child_rows_of-push :
    (i j : ℕ) (r : Row) (m : List (ℕ × List Row))
    → child_rows_of i (push_child_row j r m)
      ≡ (if j == i then child_rows_of i m ++ r ∷ [] else child_rows_of i m)
unfolding child_rows_of push_child_row
child_rows_of-push i j r [] = elim (Bool-cases (j == i)) [
  | inl same ↦ rw same refl
  | inr other ↦ rw other refl
]
child_rows_of-push i j r ((k, rs) ∷ m) = ground (arith, child_rows_of-push i j r m)

module _ (row r : Row) (rs : List Row) (m : List (ℕ × List Row)) where
  collect-child :
      r.is_child ≡ true
      → collect (some row) (r ∷ rs) m ≡ collect (some row) rs (push_child_row row.id r m)
  unfolding collect
  collect-child h = simp (h, collect) refl

  collect-apart : r.is_child ≡ false → collect (some row) (r ∷ rs) m ≡ collect (some r) rs m
  unfolding collect
  collect-apart h = simp (h, collect) refl

-- Rows that are not passed keep their property.
child_rows_of-collect :
    (i : ℕ) (row : Row) (rs : List Row) (m : List (ℕ × List Row))
    → (row.id == i) ≡ false
    → times i rs ≡ 0
    → child_rows_of i (collect (some row) rs m) ≡ child_rows_of i m
unfolding collect
child_rows_of-collect i row [] m ne absent = refl
child_rows_of-collect i row (r ∷ rs) m ne absent = elim (Bool-cases r.is_child) [
  | inl child ↦
      ap (child_rows_of i) (collect-child row r rs m child)
      ∙ (child_rows_of-collect i row rs (push_child_row row.id r m) ne (ground (arith, absent))
          ∙ (child_rows_of-push i row.id r m ∙ rw ne refl))
  | inr other ↦
      ap (child_rows_of i) (collect-apart row r rs m other)
      ∙ child_rows_of-collect i r rs m (ground (arith, absent)) (ground (arith, absent))
]

-- The loop of `initialize` keeps with each row the child rows of its group.
pub collect-AreKept :
    (row : Row) (kids rs : List Row) (m : List (ℕ × List Row))
    → ((i : ℕ) → times i (row ∷ rs) ≤ 1)
    → ((i : ℕ) → 1 ≤ times i rs → child_rows_of i m ≡ [])
    → child_rows_of row.id m ≡ kids
    → AreKept (collect (some row) rs m) (attach row kids rs)
unfolding collect
collect-AreKept row kids [] m distinct fresh e = (e, tt)
collect-AreKept row kids (r ∷ rs) m distinct fresh e = elim (Bool-cases r.is_child) [
  | inl child ↦
      subst (λ c. AreKept c (attach row kids (r ∷ rs))) (sym (collect-child row r rs m child))
        (simp child (
          collect-AreKept row (kids ++ r ∷ []) rs (push_child_row row.id r m)
            (λ i. ground (arith, distinct i))
            (λ i there. ground (arith, child_rows_of-push i row.id r m, there, distinct i, fresh i))
            (ground (arith, child_rows_of-push row.id row.id r m, e))))
  | inr other ↦
      subst (λ c. AreKept c (attach row kids (r ∷ rs))) (sym (collect-apart row r rs m other))
        (simp other (
          child_rows_of-collect row.id r rs m (ground (arith, distinct row.id))
                (ground (arith, distinct row.id))
              ∙ e,
          collect-AreKept r [] rs m (λ i. ground (arith, distinct i))
              (λ i there. fresh i (ground (arith, there))) (fresh r.id (ground arith)),
        ))
]
