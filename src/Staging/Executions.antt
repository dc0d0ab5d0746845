-- ===== src/Staging/Executions.antt =====
-- The tabs and the executions of the staging page: `FlowTabView`, `ExecutionsView` and the address that
-- the page is opened with (src/web/js/azkaban.staging.flow.view.js). The pagination is that of Paging. The
-- server answers a request of a page with its rows: a parameter.
pub mod Order
pub mod Address
use azkaban.Prelude.{
  ℕ, zero, suc, List, [], ◌∷◌, ◌++◌, Option, none, some, Bool, true, false, ◌≡◌, ◌==◌,
  if◌then◌else◌, length, get_elem?,
}
use azkaban.Prelude.Int.{ℤ, pos, negsuc}
use azkaban.Texts.{Text, text_eq, substring, is_empty}
use azkaban.Texts.Numbers.{parse_int}

-- A page: `nan` for what `parseInt` does not read, `undefined` where an item has no page.
pub data PageNumber : Type 0 where
  number : ℤ → PageNumber
  nan : PageNumber
  undefined : PageNumber

-- `parseInt` of a text
abbrev pub parsed : Option ℤ → PageNumber
parsed none = nan
parsed (some n) = number n

pub record Tabs : Type 0 where
  pub graph_selected : Bool
  pub executions_selected : Bool
  pub graph_visible : Bool
  pub executions_visible : Bool

-- `requests` are the pages whose requests are under way, in their order; `rows` is what the table shows.
pub record Page (R : Type 0) : Type 0 where
  pub tabs : Tabs
  pub page : PageNumber
  pub init : Bool
  pub requests : List PageNumber
  pub rows : Option R

abbrev pub same_page : PageNumber → PageNumber → Bool
same_page nan nan = true
same_page undefined undefined = true
same_page (number (pos a)) (number (pos b)) = a == b
same_page (number (negsuc a)) (number (negsuc b)) = a == b
same_page _ _ = false

abbrev pub executions_hash : Text
executions_hash = 35 ∷ 101 ∷ 120 ∷ 101 ∷ 99 ∷ 117 ∷ 116 ∷ 105 ∷ 111 ∷ 110 ∷ 115 ∷ []

abbrev pub graph_hash : Text
graph_hash = 35 ∷ 103 ∷ 114 ∷ 97 ∷ 112 ∷ 104 ∷ []

abbrev pub page_hash : Text
page_hash = 35 ∷ 112 ∷ 97 ∷ 103 ∷ 101 ∷ []

abbrev pub drop_request : ℕ → List PageNumber → List PageNumber
drop_request i [] = []
drop_request zero (r ∷ rs) = rs
drop_request (suc i) (r ∷ rs) = r ∷ drop_request i rs

module _ {R : Type 0} where
  -- `handleGraphLinkClick`
  unfoldable pub handle_graph_link_click : Page R → Page R
  handle_graph_link_click p = record p {
    tabs = record {
      executions_selected = false;
      graph_selected = true;
      executions_visible = false;
      graph_visible = true;
    };
  }

  -- `handlePageChange`
  unfoldable pub handle_page_change : Page R → Page R
  handle_page_change p = record p { requests = p.requests ++ p.page ∷ [] }

  -- `handleChangeView`
  unfoldable pub handle_change_view : Page R → Page R
  unfolding handle_page_change
  handle_change_view p = if p.init then p else record (handle_page_change p) { init = true }

  -- `handleExecutionLinkClick`, which triggers `change:view`
  unfoldable pub handle_execution_link_click : Page R → Page R
  unfolding handle_change_view
  handle_execution_link_click p = handle_change_view (record p {
    tabs = record {
      graph_selected = false;
      executions_selected = true;
      graph_visible = false;
      executions_visible = true;
    };
  })

  -- `set({"page": page})`, which triggers `change:page` where the page is another
  unfoldable pub set_page : PageNumber → Page R → Page R
  unfolding handle_page_change
  set_page n p = if same_page p.page n then p else handle_page_change (record p { page = n })

  -- `handleChangePageSelection` at an item of the pagination, with its class `disabled` and its `page`
  unfoldable pub handle_change_page_selection : Bool → PageNumber → Page R → Page R
  unfolding set_page
  handle_change_page_selection disabled page p = if disabled then p else set_page page p

  -- the part of the first answer's handler that reads the address
  unfoldable pub open_hash : Text → Page R → Page R
  unfolding handle_execution_link_click set_page parse_int
  open_hash hash p =
      if text_eq hash executions_hash
      then handle_execution_link_click p
      else if text_eq hash graph_hash
      then p
      else if text_eq page_hash (substring 0 5 hash)
      then set_page (parsed (parse_int (substring 5 (length hash) hash)))
          (handle_execution_link_click p)
      else p

  -- the page as it is made: `initialize` of both views sets the first page before it listens to changes
  abbrev pub made : Page R
  made = record {
    tabs = record {
      graph_selected = true;
      executions_selected = false;
      graph_visible = true;
      executions_visible = false;
    };
    page = number (pos 1);
    init = false;
    requests = [];
    rows = none;
  }

  module _ (answer : PageNumber → R) where
    -- the handler of an answer
    unfoldable pub show_answer : ℕ → PageNumber → Page R → Page R
    show_answer i n p = record p { requests = drop_request i p.requests; rows = some (answer n) }

    -- What happens to the page. The items of the pagination are seen with the executions only, and have no
    -- page before `renderPagination` has run, with the first answer. The address is read at one moment
    -- that the server chooses; that it is read more than once is not excluded here.
    pub data Step : Page R → Page R → Type 0 where
      click_graph : (p : Page R) → Step p (handle_graph_link_click p)
      click_executions : (p : Page R) → Step p (handle_execution_link_click p)
      click_page :
          (disabled : Bool) (n : PageNumber) (p : Page R)
          → p.tabs.executions_visible ≡ true
          → (p.rows ≡ none → n ≡ undefined)
          → Step p (handle_change_page_selection disabled n p)
      read_address : (hash : Text) (p : Page R) → Step p (open_hash hash p)
      arrive :
          (i : ℕ) (n : PageNumber) (p : Page R)
          → get_elem? p.requests i ≡ some n
          → Step p (show_answer i n p)

    -- The answer to the first request that is under way, or something else.
    abbrev pub IsInOrder : {p q : Page R} → Step p q → Type 0
    IsInOrder (arrive zero n p _) = Unit {0}
    IsInOrder (arrive (suc i) n p _) = ⊥
    IsInOrder _ = Unit {0}

    pub data Reach (p : Page R) : Page R → Type 0 where
      here : Reach p p
      next : {q r : Page R} → Reach p q → Step q r → Reach p r

    -- Answers that come in the order of the requests.
    abbrev pub ArriveInOrder : {p q : Page R} → Reach p q → Type 0
    ArriveInOrder here = Unit {0}
    ArriveInOrder (next r st) = ArriveInOrder r × IsInOrder st
