-- ===== src/Paging/Laws.antt =====
-- What `renderPagination` shows, where it fails, and what the requests fetch.
use azkaban.Prelude.{
  ℕ, zero, suc, ◌+◌, ◌-◌, ◌/◌, ◌≤◌, ◌<◌, List, [], ◌∷◌, none, some, true, ◌≡◌, ◌↔◌, refl, ◌∙◌, ◌⊎◌,
  inl, inr, ap, length, ltb, ◌==◌, ◌&&◌, arith, if◌then◌else◌, Bool-cases,
}
use native.Mathlib.Nat.{div-mul-le_self, lt-div-mul-add, le-div_iff_mul-le, div-eq_of_lt-le}
use azkaban.Paging.{
  Item, Model, item_at, modify_at, ok, type_error, number_before, number_after, enable_items,
  clear_selected, selection_position, render_items, render_pagination, count_pages, previous, next,
  clicked_page, requested,
}
use azkaban.Paging.Items.{
  page_at, label_at, numbered, length-numbered, page_at-numbered, label_at-numbered_ne,
  length-modify_at, item_at-modify_at, set_page-ok, number_after-ok, number_after-type_error,
  number_before-ok,
}

selection_position_bounds :
    (page n : ℕ)
    → 1 ≤ page
    → page ≤ n
    → (1 ≤ selection_position page n)
      × (selection_position page n ≤ 4)
      × (selection_position page n ≤ page + 1)
unfolding selection_position
selection_position_bounds page n h k = ground arith

position-le_iff :
    (page n : ℕ) → 1 ≤ page → page ≤ n → (selection_position page n ≤ n) ↔ ¬ ((page ≡ 3) × (n ≡ 3))
unfolding selection_position
position-le_iff page n h k = (
  λ b both. ground (arith, both.0, both.1),
  λ b. elim (Bool-cases (page == 3 && n == 3)) [
    | inl both ↦ absurd (b (ground arith, ground arith))
    | inr other ↦ ground arith
  ],
)

-- The position that is selected is that of a page of the flow, except on the last of three pages: there
-- `renderPagination` leaves the fourth of its five items selected and disabled.
pub selection_position-le_iff :
    (page n : ℕ) (a b c d e : Item)
    → 1 ≤ page
    → page ≤ n
    → ((selection_position page n ≤ n) ↔ ¬ ((page ≡ 3) × (n ≡ 3)))
      × ((items : List Item) × (it : Item) × (render_items 3 3 (a ∷ b ∷ c ∷ d ∷ e ∷ []) ≡ ok items)
          × (item_at 4 items ≡ some it)
          × (it.selected ≡ true)
          × (it.disabled ≡ true))
unfolding render_items
selection_position-le_iff page n a b c d e h k =
    (position-le_iff page n h k, (_, _, refl, refl, refl, refl))

length-enable_items : (i n : ℕ) (xs : List Item) → length (enable_items i n xs) ≡ length xs
unfolding enable_items
length-enable_items i n [] = refl
length-enable_items i n (x ∷ xs) = ap suc (length-enable_items (i + 1) n xs)

length-clear_selected : (xs : List Item) → length (clear_selected xs) ≡ length xs
length-clear_selected [] = refl
length-clear_selected (x ∷ xs) = ap suc (length-clear_selected xs)

-- What comes before the pages are numbered keeps the links.
get_elem?-prepared :
    (i n j : ℕ) (xs : List Item)
    → label_at (suc j) (enable_items i n (clear_selected xs)) ≡ label_at (suc j) xs
unfolding enable_items
get_elem?-prepared i n j [] = refl
get_elem?-prepared i n zero (x ∷ xs) = refl
get_elem?-prepared i n (suc j) (x ∷ xs) = get_elem?-prepared (i + 1) n j xs

abbrev prepared : ℕ → ℕ → List Item → List Item
prepared position n xs =
    modify_at position (λ it. record it { selected = true }) (enable_items 1 n (clear_selected xs))

length-prepared : (position n : ℕ) (xs : List Item) → length (prepared position n xs) ≡ length xs
length-prepared position n xs =
    length-modify_at position (λ it. record it { selected = true })
      (enable_items 1 n (clear_selected xs))
    ∙ length-enable_items 1 n (clear_selected xs)
    ∙ length-clear_selected xs

label_at-prepared :
    (position n j : ℕ) (xs : List Item) → label_at j (prepared position n xs) ≡ label_at j xs
label_at-prepared position n zero xs = refl
label_at-prepared position n (suc j) xs = ground (
  arith,
  item_at-modify_at position (suc j) (λ it. record it { selected = true })
      (enable_items 1 n (clear_selected xs)),
  get_elem?-prepared 1 n j xs,
)

module _ (page n : ℕ) (items : List Item) where
  abbrev position : ℕ
  position = selection_position page n

  -- the items before the two loops that number the pages around the selection
  abbrev middle : List Item
  middle = numbered position position page (prepared position n items)

  length-middle : length middle ≡ length items
  length-middle =
      length-numbered position position page (prepared position n items)
      ∙ length-prepared position n items

  before-ok :
      1 ≤ page
      → page ≤ n
      → length items ≡ 5
      → (xs : List Item) × (number_before (position - 1) 6 1 (page + 1 - position) middle ≡ ok xs)
        × (length xs ≡ 5)
        × ((j : ℕ) → 1 ≤ j → j ≤ position → page_at j xs ≡ some (page + j - position))
        × ((j : ℕ) → j < position → label_at j xs ≡ label_at j items)
        × (render_items page n items ≡ number_after (n - position) (position + 1) (page + 1) xs)
  unfolding render_items
  before-ok h k five =
      let (low, high, within) = selection_position_bounds page n h k in
      let mid = length-middle in
      let prep = length-prepared position n items in
      let (xs, e, len, pages, labels) =
        number_before-ok (position - 1) 6 1 (page + 1 - position) middle (omega arith) (omega arith)
          (omega arith) in
      (
        xs,
        e,
        omega arith,
        λ j one le.
            ground (
              arith,
              pages j,
              page_at-numbered position position page j (prepared position n items),
            ),
        λ j lt.
            labels j
            ∙ label_at-numbered_ne position page j (prepared position n items) (omega arith)
            ∙ label_at-prepared position n j items,
        rw (set_page-ok position page (prepared position n items) low (omega arith), render_items)
            (rw e refl),
      )

-- With at most five pages, and a page among them, `renderPagination` numbers the items without an
-- error: the item at each position up to the selected one, and up to the number of pages, stands
-- for the page as far from the current page as the item is from the selected one. The texts of the
-- links before the selected item stay as they were.
pub render_items-ok :
    (page n : ℕ) (items : List Item)
    → 1 ≤ page
    → page ≤ n
    → n ≤ 5
    → length items ≡ 5
    → (xs : List Item) × (render_items page n items ≡ ok xs)
      × ((j : ℕ)
          → 1 ≤ j
          → (j ≤ n) ⊎ (j ≤ selection_position page n)
          → page_at j xs ≡ some (page + j - selection_position page n))
      × ((j : ℕ) → j < selection_position page n → label_at j xs ≡ label_at j items)
render_items-ok page n items h k small five =
    let (low, high, within) = selection_position_bounds page n h k in
    let (xs, e, len, pages, labels, start) = before-ok page n items h k five in
    let (ys, e', len', after, links) =
      number_after-ok (n - selection_position page n) (selection_position page n + 1) (page + 1) xs
        (omega arith) (omega arith) in
    (
      ys,
      start ∙ e',
      λ j one shown. ground (arith, after j, pages j one),
      λ j lt. links j (omega arith) ∙ labels j lt,
    )

-- With more than five pages `renderPagination` raises a TypeError on every page, since it goes on to
-- an item `#page6` that is not there.
pub render_items-type_error :
    (page n : ℕ) (items : List Item)
    → 1 ≤ page
    → page ≤ n
    → 5 < n
    → length items ≡ 5
    → (xs : List Item) × (render_items page n items ≡ type_error xs)
render_items-type_error page n items h k many five =
    let (low, high, within) = selection_position_bounds page n h k in
    let (xs, e, len, pages, labels, start) = before-ok page n items h k five in
    let (ys, e') =
      number_after-type_error (n - selection_position page n) (selection_position page n + 1)
        (page + 1) xs (omega arith) (omega arith) (omega arith) in
    (ys, start ∙ e')

-- The links beside the items lead one page forth and back: "next" unless the page is the last, and
-- "previous" unless it is the first.
pub clicked_page-render :
    (m : Model)
    → (clicked_page next (render_pagination m).bar
        ≡ (if ltb m.page (render_pagination m).num_pages then some (m.page + 1) else none))
      × (clicked_page previous (render_pagination m).bar
          ≡ (if ltb 1 m.page then some (m.page - 1) else none))
unfolding clicked_page render_pagination
clicked_page-render m = (ground arith, ground arith)

-- The requests for the pages fetch every row once: row `k` of `total` is asked for by exactly one
-- page, which is one of the pages counted.
pub requested-covers :
    (total page_size k : ℕ)
    → 0 < page_size
    → k < total
    → (page : ℕ) × (1 ≤ page)
      × (page ≤ count_pages total page_size)
      × ((requested page page_size).0 ≤ k)
      × (k < (requested page page_size).0 + (requested page page_size).1)
      × ((p : ℕ)
          → 1 ≤ p
          → (requested p page_size).0 ≤ k
          → k < (requested p page_size).0 + (requested p page_size).1
          → p ≡ page)
unfolding requested count_pages
requested-covers total page_size k pos h =
    let below = div-mul-le_self k page_size in
    let back : k / page_size + 1 - 1 ≡ k / page_size = omega arith in
    let above = lt-div-mul-add {a = k} pos in
    (
      k / page_size + 1,
      omega arith,
      (le-div_iff_mul-le pos).1 (omega arith),
      rw back below,
      rw back above,
      λ p one low high.
          let q = div-eq_of_lt-le {k = p - 1} page_size {m = k} low (omega arith) in omega arith,
    )
