-- ===== src/Execution/Poll.antt =====
-- Polling for the status of a running execution: `updaterFunction` and the actions that ask for an
-- update (src/web/js/azkaban.exflow.view.js). The requests are answered later, in any order.
use azkaban.Prelude.{
  ℕ, suc, Option, none, some, Bool, true, false, not, ◌≡◌, ◌⊎◌, inl, inr, refl, ◌&&◌, ◌||◌,
  if◌then◌else◌,
}
use azkaban.Execution.Status.{
  Status, failed, succeeded, waiting, killed, unknown, preparing, handle_flow_status_change,
}

-- `keepRunning`
pub keep_running : Status → Bool
keep_running succeeded = false
keep_running failed = false
keep_running killed = false
keep_running _ = true

-- the timer that it sets after it asked for an update
delay : Status → Option ℕ
delay unknown = some 1000
delay waiting = some 1000
delay preparing = some 1000
delay succeeded = none
delay failed = none
delay _ = some 5000

-- `updaterFunction` on the status that it reads: whether it asks for an update, and after how long it
-- is to run again. The status is the same at both reads, since the answer comes later.
pub updater_function : Status → Bool × Option ℕ
unfolding keep_running delay
updater_function s = if keep_running s then (true, delay s) else (false, none)

pub record Page : Type 0 where
  pub status : Status
  -- the status that `updaterFunction` read last
  pub last_read : Status
  pub timer : Bool
  pub requests : ℕ

abbrev pub is_set : Option ℕ → Bool
is_set none = false
is_set (some _) = true

-- `updaterFunction` at a page
unfoldable pub run_updater : Page → Page
unfolding updater_function
run_updater p = record p {
  last_read = p.status;
  timer = is_set (updater_function p.status).1;
  requests = if (updater_function p.status).0 then suc p.requests else p.requests;
}

-- What happens on the page: the timer fires, an answer sets the status, or one of the buttons for
-- cancel, pause, resume and retry asks for an update.
pub data Step : Page → Page → Type 0 where
  tick : (p : Page) → p.timer ≡ true → Step p (run_updater p)
  answer :
      (p : Page) (s : Status) (n : ℕ)
      → p.requests ≡ suc n
      → Step p (record p { status = s; requests = n })
  action : (p : Page) → Step p (record p { requests = suc p.requests })

pub data Reach (p : Page) : Page → Type 0 where
  here : Reach p p
  next : {q r : Page} → Reach p q → Step q r → Reach p r

-- The page after the flow was fetched with a status.
unfoldable pub opened : Status → Page
unfolding run_updater
opened s = run_updater (record { status = s; last_read = s; timer = false; requests = 0 })

abbrev pub IsFinal : Status → Type 0
IsFinal s = (s ≡ succeeded) ⊎ (s ≡ failed) ⊎ (s ≡ killed)

-- A timer is set where the status that was read last is not final.
abbrev pub Polls : Page → Type 0
Polls p = ((p.timer ≡ true) ⊎ IsFinal p.last_read) × (IsFinal p.last_read → p.timer ≡ false)

run_updater-IsFinal : (p : Page) → IsFinal p.status → (run_updater p).timer ≡ false
unfolding run_updater updater_function keep_running
run_updater-IsFinal p (inl e) = rw e refl
run_updater-IsFinal p (inr (inl e)) = rw e refl
run_updater-IsFinal p (inr (inr e)) = rw e refl

timer_or_IsFinal : (s : Status) → (is_set (updater_function s).1 ≡ true) ⊎ IsFinal s
unfolding updater_function
timer_or_IsFinal succeeded = inr (inl refl)
timer_or_IsFinal failed = inr (inr (inl refl))
timer_or_IsFinal killed = inr (inr (inr refl))
timer_or_IsFinal _ = inl refl

run_updater-Polls : (p : Page) → Polls (run_updater p)
unfolding run_updater
run_updater-Polls p = (timer_or_IsFinal p.status, run_updater-IsFinal p)

Step-Polls : {p q : Page} → Step p q → Polls p → Polls q
Step-Polls (tick p h) i = run_updater-Polls p
Step-Polls (answer p s n h) i = i
Step-Polls (action p) i = i

-- However answers, actions and the timer come in turn after the flow was fetched, the page has a timer set
-- that will poll again exactly when the status that the last poll read is none of SUCCEEDED, FAILED and
-- KILLED.
pub Reach-Polls : (s : Status) (p : Page) → Reach (opened s) p → Polls p
unfolding opened
Reach-Polls s p here =
    run_updater-Polls (record { status = s; last_read = s; timer = false; requests = 0 })
Reach-Polls s p (next {q} r st) = Step-Polls st (Reach-Polls s q r)

-- The button to run the flow again is shown exactly at the statuses at which `updaterFunction` asks
-- for no update; where it asks for one it also sets a timer, of one second before the flow runs and
-- of five after; and no button that acts on the execution is shown together with that button.
pub handle_flow_status_change-updater_function :
    (s : Status)
    → ((handle_flow_status_change s).execute ≡ not (updater_function s).0)
      × (is_set (updater_function s).1 ≡ (updater_function s).0)
      × (((handle_flow_status_change s).execute
            && ((handle_flow_status_change s).cancel
                || (handle_flow_status_change s).pause
                || (handle_flow_status_change s).resume
                || (handle_flow_status_change s).retry))
          ≡ false)
unfolding handle_flow_status_change updater_function
handle_flow_status_change-updater_function failed = (refl, refl, refl)
handle_flow_status_change-updater_function _ = (refl, refl, refl)
