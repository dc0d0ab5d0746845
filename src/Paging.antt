-- ===== src/Paging.antt =====
-- The pages of a flow's executions: `ExecutionsView` (src/web/js/azkaban.flow.view.js). The page has
-- five items `#page1` to `#page5`, and `#previous` and `#next`
-- (src/java/azkaban/webapp/servlet/velocity/flowpage.vm).
pub mod Items
pub mod Laws
use azkaban.Prelude.{
  ℕ, zero, suc, ◌+◌, ◌-◌, ◌*◌, ◌/◌, ◌≤◌, ◌<◌, List, [], ◌∷◌, Option, none, some, Bool, true, false,
  length, get_elem?, modify, ltb, leb, ◌==◌, if◌then◌else◌,
}

-- `page` is the property that the handler of a click reads; `label` is the text of the link, and
-- `href` the page that it names.
pub record Item : Type 0 where
  pub disabled : Bool
  pub selected : Bool
  pub page : Option ℕ
  pub label : ℕ
  pub href : ℕ

pub record Bar : Type 0 where
  pub previous : Item
  pub next : Item
  pub items : List Item

pub record Model : Type 0 where
  pub page : ℕ
  pub page_size : ℕ
  pub num_pages : ℕ
  pub total : Option ℕ
  pub bar : Bar

-- `page#i`, counted from 1; an item that is not there has no properties to be set.
abbrev pub item_at : ℕ → List Item → Option Item
item_at zero items = none
item_at (suc i) items = get_elem? items i

abbrev pub modify_at : ℕ → (Item → Item) → List Item → List Item
modify_at zero f items = items
modify_at (suc i) f items = modify items i f

-- The list of items after a step, and whether the step raised a TypeError.
pub data Result : Type 0 where
  ok : List Item → Result
  type_error : List Item → Result

infixl 5 ◌>>=◌
abbrev pub ◌>>=◌ : Result → (List Item → Result) → Result
ok items >>= f = f items
type_error items >>= f = type_error items

-- `$("#page" + i)[0].page = p`
pub set_page : ℕ → ℕ → List Item → Result
set_page i p items = elim (item_at i items) [
  | none ↦ type_error items
  | some _ ↦ ok (modify_at i (λ it. record it { page = some p }) items)
]

-- `a.text(p); a.attr("href", "#page" + p)` at the link of `#page i`; with no such item, nothing.
pub set_link : ℕ → ℕ → List Item → List Item
set_link i p items = modify_at i (λ it. record it { label = p; href = p }) items

-- `var numPages = Math.ceil(total/pageSize)`, where a missing or zero total counts as 1
total_or_one : Option ℕ → ℕ
total_or_one (some (suc n)) = suc n
total_or_one _ = 1

pub count_pages : ℕ → ℕ → ℕ
count_pages total page_size = (total + page_size - 1) / page_size

-- The position of the selected item. In the second case `page > numPages - 2`, so
-- `5 - (numPages - page) - 1` is `page + 4 - numPages`.
pub selection_position : ℕ → ℕ → ℕ
selection_position page num_pages =
    if ltb page 3 then page else if ltb num_pages (page + 2) then page + 4 - num_pages else 3

-- The two loops that enable the first `numPages` of the five items.
pub enable_items : ℕ → ℕ → List Item → List Item
enable_items i num_pages [] = []
enable_items i num_pages (it ∷ items) =
    record it { disabled = if leb i num_pages then false else true }
    ∷ enable_items (i + 1) num_pages items

-- The loop before the selected item, `rounds` times from `#page j`. The link that it sets is that of
-- `#page i`, with the `i` of the loops above, which is 6 when it gets here.
pub number_before : ℕ → ℕ → ℕ → ℕ → List Item → Result
number_before zero i j tpage items = ok items
number_before (suc rounds) i j tpage items = set_page j tpage items >>= λ xs.
    number_before rounds i (j + 1) (tpage + 1) (set_link i tpage xs)

-- The loop after the selected item, `rounds` times from `#page i`.
pub number_after : ℕ → ℕ → ℕ → List Item → Result
number_after zero i tpage items = ok items
number_after (suc rounds) i tpage items =
    set_page i tpage items >>= λ xs. number_after rounds (i + 1) (tpage + 1) (set_link i tpage xs)

abbrev pub clear_selected : List Item → List Item
clear_selected [] = []
clear_selected (it ∷ items) = record it { selected = false } ∷ clear_selected items

-- the items in `renderPagination`
pub render_items : ℕ → ℕ → List Item → Result
unfolding enable_items set_page set_link number_before number_after selection_position
render_items page num_pages items =
    let position = selection_position page num_pages in
    let enabled = enable_items 1 num_pages (clear_selected items) in
    let marked = modify_at position (λ it. record it { selected = true }) enabled in
    set_page position page marked
    >>= (λ xs. number_before (position - 1) 6 1 (page + 1 - position) (set_link position page xs))
    >>= number_after (num_pages - position) (position + 1) (page + 1)

-- the links to the pages before and after
render_previous : ℕ → Item → Item
render_previous page it =
    if ltb 1 page
    then record it { disabled = false; page = some (page - 1); href = page - 1 }
    else record it { disabled = true }

render_next : ℕ → ℕ → Item → Item
render_next page num_pages it =
    if ltb page num_pages
    then record it { disabled = false; page = some (page + 1); href = page + 1 }
    else record it { disabled = true; page = some (page + 1) }

abbrev items_of : Result → List Item
items_of (ok items) = items
items_of (type_error items) = items

-- `renderPagination`, and whether it ran to its end
pub render_pagination : Model → Model
unfolding render_items render_previous render_next count_pages total_or_one
render_pagination m =
    let n = count_pages (total_or_one m.total) m.page_size in
    record m {
      num_pages = n;
      bar = record {
        previous = render_previous m.page m.bar.previous;
        next = render_next m.page n m.bar.next;
        items = items_of (render_items m.page n m.bar.items);
      };
    }

-- What a click is on.
pub data Target : Type 0 where
  previous next : Target
  item : ℕ → Target

abbrev target_item : Target → Bar → Option Item
target_item previous bar = some bar.previous
target_item next bar = some bar.next
target_item (item i) bar = item_at i bar.items

-- `handleChangePageSelection`: the page to change to, unless the item is disabled or has none.
pub clicked_page : Target → Bar → Option ℕ
clicked_page t bar = elim (target_item t bar) [
  | none ↦ none
  | some it ↦ if it.disabled then none else it.page
]

-- `handlePageChange`: the rows that are asked for, the first and how many.
pub requested : ℕ → ℕ → ℕ × ℕ
requested page page_size = ((page - 1) * page_size, page_size)
