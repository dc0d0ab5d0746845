-- ===== src/FlowTable/Expand.antt =====
-- Unfolding the jobs of a flow in the list of a project's flows: `expandFlowProject` of `FlowTableView`
-- (src/web/js/azkaban.project.view.js). Fading in and out is taken to be over before the next event.
use azkaban.Prelude.{
  ℕ, suc, String, List, [], Bool, true, false, not, ◌≡◌, ◌⊎◌, inl, inr, refl, if◌then◌else◌,
}
use azkaban.Folding
use azkaban.FlowTable.{Job, Table, create_job_list_table}

-- The row of a flow: its marks, whether its jobs are shown, the requests under way, and its table.
pub record FlowRow : Type 0 where
  pub loading : Bool
  pub loaded : Bool
  pub expand : Bool
  pub collapse : Bool
  pub wait : Bool
  pub visible : Bool
  pub requests : ℕ
  pub table : Table

-- `expandFlowProject`, for a click at a `SPAN` or at something else
unfoldable pub expand_flow_project : Bool → FlowRow → FlowRow
expand_flow_project is_span p =
    if not is_span
    then p
    else if p.loading
    then p
    else if p.loaded
    then if p.visible
      then record p { expand = true; collapse = false; visible = false }
      else record p { collapse = true; expand = false; visible = true }
    else record p {
      wait = true;
      collapse = false;
      expand = false;
      loading = true;
      requests = suc p.requests;
    }

module _ (exec_access : Bool) (flow_id : String) (jobs : List Job) where
  -- the handler of the answer, which leaves `left` requests under way
  unfoldable pub fetched_jobs : ℕ → FlowRow → FlowRow
  fetched_jobs left p = record p {
    loaded = true;
    loading = false;
    collapse = true;
    wait = false;
    visible = true;
    requests = left;
    table = create_job_list_table exec_access flow_id jobs p.table;
  }

  -- What happens to the row of a flow with the given jobs.
  abbrev pub Reach : FlowRow → FlowRow → Type 0
  Reach = Folding.Reach expand_flow_project fetched_jobs (λ p. p.requests)

  -- the row when the page is opened
  abbrev pub fresh : FlowRow
  fresh = record {
    loading = false;
    loaded = false;
    expand = true;
    collapse = false;
    wait = false;
    visible = false;
    requests = 0;
    table = [];
  }

  abbrev pub waiting : FlowRow
  waiting = record fresh { expand = false; wait = true; loading = true; requests = 1 }

  -- the row with its jobs, unfolded or folded
  abbrev pub unfolded : Bool → FlowRow
  unfolded shown = record fresh {
    loaded = true;
    expand = not shown;
    collapse = shown;
    visible = shown;
    table = create_job_list_table exec_access flow_id jobs [];
  }

  click_unfolded : (shown : Bool) → expand_flow_project true (unfolded shown) ≡ unfolded (not shown)
  unfolding expand_flow_project
  click_unfolded true = refl
  click_unfolded false = refl

  laws : Folding.Laws expand_flow_project fetched_jobs (λ p. p.requests) fresh waiting unfolded
  unfolding expand_flow_project fetched_jobs
  laws = record {
    click_fresh = refl;
    click_waiting = refl;
    click_unfolded = click_unfolded;
    miss = λ p. refl;
    none_asked = refl;
    one_asked = refl;
    none_left = λ shown. refl;
    settle_waiting = refl;
  }

  abbrev Phase : Type 0
  Phase = Folding.Phase expand_flow_project fetched_jobs (λ p. p.requests)

  phase_cases :
      (p : FlowRow) (ph : Phase)
      → p
        ≡ Folding.row_of expand_flow_project fetched_jobs
            (λ q. q.requests)
            fresh
            waiting
            unfolded
            ph
      → (p ≡ fresh) ⊎ ((p ≡ waiting) ⊎ ((shown : Bool) × (p ≡ unfolded shown)))
  phase_cases p Folding.is_fresh e = inl e
  phase_cases p Folding.is_waiting e = inr (inl e)
  phase_cases p (Folding.has_content shown) e = inr (inr (shown, e))

  -- However clicks and answers come in turn, the row of a flow is as it was at first, or waits for one
  -- request, or has each of its jobs once, as the server listed them; and clicks and answers lead on to
  -- the row that shows them.
  pub Reach-unfolds :
      (p : FlowRow)
      → Reach fresh p
      → ((p ≡ fresh) ⊎ ((p ≡ waiting) ⊎ ((shown : Bool) × (p ≡ unfolded shown))))
        × Reach p (unfolded true)
  Reach-unfolds p r =
      let (ph, e) =
        Folding.Reach-row_of expand_flow_project fetched_jobs (λ q. q.requests) fresh waiting
          unfolded laws p r in
      (
        phase_cases p ph e,
        Folding.Reach-unfolded expand_flow_project fetched_jobs (λ q. q.requests) fresh waiting
            unfolded laws p r,
      )
