-- ===== src/Projects.antt =====
-- The list of projects, whose rows unfold to their flows (src/web/js/azkaban.main.view.js). Fading in and
-- out is taken to be over before the next event. The flows are compared by `localeCompare`, a parameter.
use azkaban.Prelude.{ℕ, suc, List, [], ◌++◌, Bool, true, false, not, ◌≡◌, refl, if◌then◌else◌}
use azkaban.Folding
use azkaban.Prelude.Sort.{sort_by}
use azkaban.Texts.{Text}

-- The row of a project: its marks, whether the row of its flows is shown, the requests under way, and
-- the flows in the table.
pub record Project : Type 0 where
  pub loading : Bool
  pub loaded : Bool
  pub expand : Bool
  pub collapse : Bool
  pub wait : Bool
  pub visible : Bool
  pub requests : ℕ
  pub table : List Text

-- `expandProject`, for a click at a `SPAN` or at something else
pub expand_project : Bool → Project → Project
expand_project is_span p =
    if not is_span
    then p
    else if p.loading
    then p
    else if p.loaded
    then if p.visible
      then record p { expand = true; collapse = false; visible = false }
      else record p { collapse = true; expand = false; visible = true }
    else record p {
      wait = true;
      collapse = false;
      expand = false;
      loading = true;
      requests = suc p.requests;
    }

module _ (before : Text → Text → Bool) where
  -- `createFlowListTable`: a row for each flow, below those that are there
  abbrev pub create_flow_list_table : List Text → List Text → List Text
  create_flow_list_table flows table = table ++ sort_by before flows

  -- the handler of the answer
  pub fetched_flows : List Text → Project → Project
  fetched_flows flows p = record p {
    loaded = true;
    loading = false;
    collapse = true;
    wait = false;
    visible = true;
    table = create_flow_list_table flows p.table;
  }

  -- the answer, with `left` requests under way
  abbrev pub settle : List Text → ℕ → Project → Project
  settle flows left p = fetched_flows flows (record p { requests = left })

  -- What happens to the row of a project with the given flows: clicks and answers.
  abbrev pub Step : List Text → Project → Project → Type 0
  Step flows = Folding.Step expand_project (settle flows) (λ p. p.requests)

  abbrev pub Reach : List Text → Project → Project → Type 0
  Reach flows = Folding.Reach expand_project (settle flows) (λ p. p.requests)

  -- the row when the page is opened
  abbrev pub fresh : Project
  fresh = record {
    loading = false;
    loaded = false;
    expand = true;
    collapse = false;
    wait = false;
    visible = false;
    requests = 0;
    table = [];
  }

  abbrev pub waiting : Project
  waiting = record fresh { expand = false; wait = true; loading = true; requests = 1 }

  -- the row with its flows, unfolded or folded
  abbrev pub unfolded : List Text → Bool → Project
  unfolded flows shown = record fresh {
    loaded = true;
    expand = not shown;
    collapse = shown;
    visible = shown;
    table = sort_by before flows;
  }

  -- The row is as it was, or waits for its one request, or has its flows.
  abbrev pub Phase : List Text → Type 0
  Phase flows = Folding.Phase expand_project (settle flows) (λ p. p.requests)

  abbrev pub page_of : (flows : List Text) → Phase flows → Project
  page_of flows =
      Folding.row_of expand_project (settle flows) (λ p. p.requests) fresh waiting (unfolded flows)

  click_unfolded :
      (flows : List Text) (shown : Bool)
      → expand_project true (unfolded flows shown) ≡ unfolded flows (not shown)
  unfolding expand_project
  click_unfolded flows true = refl
  click_unfolded flows false = refl

  laws :
      (flows : List Text)
      → Folding.Laws expand_project (settle flows) (λ p. p.requests) fresh waiting (unfolded flows)
  unfolding expand_project fetched_flows
  laws flows = record {
    click_fresh = refl;
    click_waiting = refl;
    click_unfolded = click_unfolded flows;
    miss = λ p. refl;
    none_asked = refl;
    one_asked = refl;
    none_left = λ shown. refl;
    settle_waiting = refl;
  }

  -- However clicks and answers come in turn, the row of a project is as it was at first, or waits for one
  -- request, or has each of its flows once, in order; it is never loaded twice.
  pub Reach-page_of :
      (flows : List Text) (p : Project)
      → Reach flows fresh p
      → (ph : Phase flows) × (p ≡ page_of flows ph)
  Reach-page_of flows p r =
      Folding.Reach-row_of expand_project (settle flows) (λ q. q.requests) fresh waiting
        (unfolded flows) (laws flows) p r

  -- From every row that clicks and answers lead to, clicks and answers lead on to the row that shows the
  -- flows.
  pub Reach-shown :
      (flows : List Text) (p : Project) → Reach flows fresh p → Reach flows p (unfolded flows true)
  Reach-shown flows p r =
      Folding.Reach-unfolded expand_project (settle flows) (λ q. q.requests) fresh waiting
        (unfolded flows) (laws flows) p r
