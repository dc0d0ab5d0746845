-- ===== src/Paging/Items.antt =====
-- What each step of `renderPagination` does to each item.
use azkaban.Prelude.{
  ℕ, zero, suc, ◌+◌, ◌-◌, ◌≤◌, ◌<◌, List, [], ◌∷◌, Option, none, some, ◌≡◌, ◌≢◌, refl, ◌∙◌, ◌&&◌,
  length, get_elem?, modify, length-modify, ltb, leb, leb→le, ◌==◌, arith, if◌then◌else◌,
  Bool-cases, inl, inr,
}
use azkaban.Paging.{
  Item, item_at, modify_at, ok, type_error, set_page, set_link, number_before, number_after,
}

-- a property of the item at a position
abbrev pub page_at : ℕ → List Item → Option ℕ
page_at j items = elim (item_at j items) [ none ↦ none | some it ↦ it.page ]

abbrev pub label_at : ℕ → List Item → Option ℕ
label_at j items = elim (item_at j items) [ none ↦ none | some it ↦ some it.label ]

-- Only the property `page` or the link differ, so the positions are the same.
pub length-modify_at :
    (i : ℕ) (f : Item → Item) (xs : List Item) → length (modify_at i f xs) ≡ length xs
length-modify_at zero f xs = refl
length-modify_at (suc i) f xs = length-modify xs i f

get_elem?-modify :
    (xs : List Item) (i j : ℕ) (f : Item → Item)
    → get_elem? (modify xs i f) j ≡ (
        if i == j
        then elim (get_elem? xs j) [ none ↦ none | some x ↦ some (f x) ]
        else get_elem? xs j)
get_elem?-modify [] i j f = ground arith
get_elem?-modify (x ∷ xs) zero zero f = refl
get_elem?-modify (x ∷ xs) zero (suc j) f = ground arith
get_elem?-modify (x ∷ xs) (suc i) zero f = ground arith
get_elem?-modify (x ∷ xs) (suc i) (suc j) f = ground (arith, get_elem?-modify xs i j f)

pub item_at-modify_at :
    (i j : ℕ) (f : Item → Item) (xs : List Item)
    → item_at j (modify_at i f xs)
      ≡ (if i == j then elim (item_at j xs) [ none ↦ none | some x ↦ some (f x) ] else item_at j xs)
item_at-modify_at zero zero f xs = refl
item_at-modify_at zero (suc j) f xs = ground arith
item_at-modify_at (suc i) zero f xs = ground arith
item_at-modify_at (suc i) (suc j) f xs = ground (arith, get_elem?-modify xs i j f)

get_elem?-some : (xs : List Item) (i : ℕ) → i < length xs → (it : Item) × (get_elem? xs i ≡ some it)
get_elem?-some [] i h = absurd (omega arith)
get_elem?-some (x ∷ xs) zero h = (x, refl)
get_elem?-some (x ∷ xs) (suc i) h = get_elem?-some xs i (omega arith)

get_elem?-none : (xs : List Item) (i : ℕ) → length xs ≤ i → get_elem? xs i ≡ none
get_elem?-none [] i h = refl
get_elem?-none (x ∷ xs) zero h = absurd (omega arith)
get_elem?-none (x ∷ xs) (suc i) h = get_elem?-none xs i (omega arith)

item_at-some :
    (i : ℕ) (xs : List Item) → 1 ≤ i → i ≤ length xs → (it : Item) × (item_at i xs ≡ some it)
item_at-some zero xs h k = absurd (omega arith)
item_at-some (suc i) xs h k = get_elem?-some xs i (omega arith)

item_at-none : (i : ℕ) (xs : List Item) → length xs < i → item_at i xs ≡ none
item_at-none zero xs h = absurd (omega arith)
item_at-none (suc i) xs h = get_elem?-none xs i (omega arith)

-- A step with a `page` for the item at `i`.
pub set_page-ok :
    (i p : ℕ) (xs : List Item)
    → 1 ≤ i
    → i ≤ length xs
    → set_page i p xs ≡ ok (modify_at i (λ it. record it { page = some p }) xs)
unfolding set_page
set_page-ok i p xs h k = let (it, e) = item_at-some i xs h k in rw (e, set_page) refl

set_page-type_error : (i p : ℕ) (xs : List Item) → length xs < i → set_page i p xs ≡ type_error xs
unfolding set_page
set_page-type_error i p xs h = rw (item_at-none i xs h, set_page) refl

-- One round where the item is there.
abbrev pub numbered : ℕ → ℕ → ℕ → List Item → List Item
numbered l i p xs = set_link l p (modify_at i (λ it. record it { page = some p }) xs)

pub length-numbered : (l i p : ℕ) (xs : List Item) → length (numbered l i p xs) ≡ length xs
unfolding set_link
length-numbered l i p xs =
    length-modify_at l (λ it. record it { label = p; href = p })
      (modify_at i (λ it. record it { page = some p }) xs)
    ∙ length-modify_at i (λ it. record it { page = some p }) xs

pub page_at-numbered :
    (l i p j : ℕ) (xs : List Item)
    → 1 ≤ i
    → i ≤ length xs
    → page_at j (numbered l i p xs) ≡ (if i == j then some p else page_at j xs)
unfolding set_link
page_at-numbered l i p j xs h k =
    let paged = modify_at i (λ it. record it { page = some p }) xs in
    let (it, e) = item_at-some i xs h k in
    ground (
      arith,
      e,
      item_at-modify_at l j (λ it. record it { label = p; href = p }) paged,
      item_at-modify_at i j (λ it. record it { page = some p }) xs,
    )

label_at-numbered :
    (l i p j : ℕ) (xs : List Item) → length xs < l → label_at j (numbered l i p xs) ≡ label_at j xs
unfolding set_link
label_at-numbered l i p j xs h =
    let paged = modify_at i (λ it. record it { page = some p }) xs in
    let same = length-modify_at i (λ it. record it { page = some p }) xs in
    ground (
      arith,
      item_at-none l paged (omega arith),
      item_at-modify_at l j (λ it. record it { label = p; href = p }) paged,
      item_at-modify_at i j (λ it. record it { page = some p }) xs,
    )

pub label_at-numbered_ne :
    (i p j : ℕ) (xs : List Item) → i ≢ j → label_at j (numbered i i p xs) ≡ label_at j xs
unfolding set_link
label_at-numbered_ne i p j xs ne =
    let paged = modify_at i (λ it. record it { page = some p }) xs in
    ground (
      arith,
      ne,
      item_at-modify_at i j (λ it. record it { label = p; href = p }) paged,
      item_at-modify_at i j (λ it. record it { page = some p }) xs,
    )

-- The loop after the selection sets consecutive pages, and ends without an error when its last item
-- is there.
pub number_after-ok :
    (k i t : ℕ) (xs : List Item)
    → 1 ≤ i
    → i + k ≤ length xs + 1
    → (ys : List Item) × (number_after k i t xs ≡ ok ys)
      × (length ys ≡ length xs)
      × ((j : ℕ)
          → page_at j ys ≡ (if leb i j && ltb j (i + k) then some (t + (j - i)) else page_at j xs))
      × ((j : ℕ) → j < i → label_at j ys ≡ label_at j xs)
unfolding number_after
number_after-ok zero i t xs h b = (xs, refl, refl, λ j. ground arith, λ j lt. refl)
number_after-ok (suc k) i t xs h b =
    let xs' = numbered i i t xs in
    let same = length-numbered i i t xs in
    let (ys, e, n, pages, labels) =
      number_after-ok k (i + 1) (t + 1) xs' (omega arith) (omega arith) in
    (
      ys,
      rw (set_page-ok i t xs h (omega arith)) e,
      n ∙ same,
      λ j. ground (arith, pages j, page_at-numbered i i t j xs h),
      λ j lt. labels j (omega arith) ∙ label_at-numbered_ne i t j xs (omega arith),
    )

pub number_after-type_error :
    (k i t : ℕ) (xs : List Item)
    → 1 ≤ i
    → length xs + 1 < i + k
    → i ≤ length xs + 1
    → (ys : List Item) × (number_after k i t xs ≡ type_error ys)
unfolding number_after
number_after-type_error zero i t xs h b c = absurd (omega arith)
number_after-type_error (suc k) i t xs h b c = elim (Bool-cases (leb i (length xs))) [
  | inl there ↦
      let same = length-numbered i i t xs in
      let bound = leb→le i (length xs) there in
      let (ys, e) =
        number_after-type_error k (i + 1) (t + 1) (numbered i i t xs) (omega arith) (omega arith)
          (omega arith) in
      (ys, rw (set_page-ok i t xs h bound) e)
  | inr missing ↦ (xs, rw (set_page-type_error i t xs (ground arith)) refl)
]

-- The loop before the selection, whose links go to an item `l` that is not there: it sets the pages,
-- and no link.
pub number_before-ok :
    (k l j t : ℕ) (xs : List Item)
    → 1 ≤ j
    → j + k ≤ length xs + 1
    → length xs < l
    → (ys : List Item) × (number_before k l j t xs ≡ ok ys)
      × (length ys ≡ length xs)
      × ((i : ℕ)
          → page_at i ys ≡ (if leb j i && ltb i (j + k) then some (t + (i - j)) else page_at i xs))
      × ((i : ℕ) → label_at i ys ≡ label_at i xs)
unfolding number_before
number_before-ok zero l j t xs h b c = (xs, refl, refl, λ i. ground arith, λ i. refl)
number_before-ok (suc k) l j t xs h b c =
    let xs' = numbered l j t xs in
    let same = length-numbered l j t xs in
    let (ys, e, n, pages, labels) =
      number_before-ok k l (j + 1) (t + 1) xs' (omega arith) (omega arith) (omega arith) in
    (
      ys,
      rw (set_page-ok j t xs h (omega arith)) e,
      n ∙ same,
      λ i. ground (arith, pages i, page_at-numbered l j t i xs h),
      λ i. labels i ∙ label_at-numbered l j t i xs c,
    )
