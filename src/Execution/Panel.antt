-- ===== src/Execution/Panel.antt =====
-- The summary of an execution: `StatusView` (src/web/js/azkaban.exflow.view.js). A time of -1 is `none`;
-- a text that is "-" is `none` too.
use azkaban.Prelude.{
  ℕ, String, List, Option, none, some, true, not, ◌≡◌, refl, ◌∙◌, ap, ◌&&◌, ◌||◌, arith,
}
use azkaban.Duration.{DurationText, get_duration}
use azkaban.Execution.Status.{
  Status, status_list, same, has_class, show_status, show_status-has_class,
}

-- what the view reads of `data`
pub record Summary : Type 0 where
  pub submit_user : String
  pub status : Status
  pub start_time : Option ℕ
  pub end_time : Option ℕ

-- The elements; a duration that was never shown is `none`.
pub record Panel : Type 0 where
  pub user_text : String
  pub status_classes : List Status
  pub status_text : Option Status
  pub start_text : Option ℕ
  pub end_text : Option ℕ
  pub duration_text : Option DurationText

-- `statusUpdate` at the time `now`
pub status_update : ℕ → Summary → Panel → Panel
status_update now d p = record p {
  status_classes = show_status d.status p.status_classes;
  status_text = some d.status;
  start_text = d.start_time;
  duration_text = elim d.start_time [
    | none ↦ p.duration_text
    | some _ ↦ get_duration d.start_time (elim d.end_time [ none ↦ some now | some t ↦ some t ])
  ];
  end_text = d.end_time;
}

-- `render`
pub render : ℕ → Summary → Panel → Panel
unfolding status_update
render now d p = status_update now d (record p { user_text = d.submit_user })

-- Whatever was shown before, the panel shows the last data: its user, status and times, and of the
-- classes for the statuses in `statusList` that of its status alone.
pub render-shows :
    (now : ℕ) (d : Summary) (p : Panel) (t : Status)
    → has_class t status_list ≡ true
    → ((render now d p).user_text ≡ d.submit_user)
      × ((render now d p).status_text ≡ some d.status)
      × ((render now d p).start_text ≡ d.start_time)
      × ((render now d p).end_text ≡ d.end_time)
      × (has_class t (render now d p).status_classes ≡ same t d.status)
unfolding render
render-shows now d p t known = (
  refl,
  refl,
  refl,
  refl,
  show_status-has_class d.status t p.status_classes
      ∙ ap (λ b. same t d.status || (not b && has_class t p.status_classes)) known
      ∙ ground arith,
)
