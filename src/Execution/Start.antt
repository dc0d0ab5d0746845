-- ===== src/Execution/Start.antt =====
-- Opening the page of an execution (src/web/js/azkaban.exflow.view.js): the time from which updates are
-- asked for, the tab of the address, and the polling of the log. A time of -1 is `none`. The links that
-- are set between the nodes are those of Flow.Fetch.
use azkaban.Prelude.{
  ℕ, max, String, List, [], ◌∷◌, Option, none, some, Bool, true, false, ◌≡◌, refl, ap, ◌∙◌, ◌&&◌,
  all, leb, ◌==◌, if◌then◌else◌, str_eq, arith, inl, inr, Bool-cases,
}
use azkaban.Execution.Status.{Status, jobs_list, flow_log, Tabs, click_tab}
use azkaban.Execution.Poll.{keep_running, is_set}

pub record NodeTimes : Type 0 where
  pub start_time : Option ℕ
  pub end_time : Option ℕ

-- the times that `fetchexecflow` answers
pub record Fetched : Type 0 where
  pub submit_time : Option ℕ
  pub start_time : Option ℕ
  pub end_time : Option ℕ
  pub nodes : List NodeTimes

-- `Math.max`
abbrev pub later : Option ℕ → Option ℕ → Option ℕ
later none b = b
later (some a) none = some a
later (some a) (some b) = some (max a b)

-- the loop over the nodes
abbrev pub node_times : List NodeTimes → Option ℕ → Option ℕ
node_times [] u = u
node_times (n ∷ ns) u = node_times ns (later (later u n.start_time) n.end_time)

-- `updateTime` when the page is opened
pub first_update_time : Fetched → Option ℕ
first_update_time f =
    node_times f.nodes (later (later (later none f.submit_time) f.start_time) f.end_time)

-- the tab that the address names
unfoldable pub open_hash : String → Tabs → Tabs
open_hash hash tabs =
    if str_eq hash "#jobslist"
    then click_tab jobs_list tabs
    else if str_eq hash "#log"
    then click_tab flow_log tabs
    else tabs

-- `logUpdaterFunction`: whether the log is asked for, and after how long again
pub log_updater_function : Status → Bool × Option ℕ
log_updater_function s = if keep_running s then (true, some 30000) else (true, none)

-- not later than
abbrev pub is_within : Option ℕ → Option ℕ → Bool
is_within none u = true
is_within (some a) none = false
is_within (some a) (some b) = leb a b

abbrev pub same_time : Option ℕ → Option ℕ → Bool
same_time none none = true
same_time none (some b) = false
same_time (some a) none = false
same_time (some a) (some b) = a == b

abbrev pub times_of : List NodeTimes → List (Option ℕ)
times_of [] = []
times_of (n ∷ ns) = n.start_time ∷ n.end_time ∷ times_of ns

-- the latest of some times and a first one
abbrev latest : List (Option ℕ) → Option ℕ → Option ℕ
latest [] u = u
latest (t ∷ ts) u = latest ts (later u t)

node_times-latest : (ns : List NodeTimes) (u : Option ℕ) → node_times ns u ≡ latest (times_of ns) u
node_times-latest [] u = refl
node_times-latest (n ∷ ns) u = node_times-latest ns (later (later u n.start_time) n.end_time)

within_later :
    (t u : Option ℕ) → (is_within u (later u t) ≡ true) × (is_within t (later u t) ≡ true)
within_later none none = (refl, refl)
within_later none (some a) = (ground arith, refl)
within_later (some b) none = (refl, ground arith)
within_later (some b) (some a) = (ground arith, ground arith)

within_trans :
    (a b c : Option ℕ) → is_within a b ≡ true → is_within b c ≡ true → is_within a c ≡ true
within_trans none b c h k = refl
within_trans (some a) none c h k = ground (arith, h)
within_trans (some a) (some b) none h k = ground (arith, k)
within_trans (some a) (some b) (some c) h k = ground (arith, h, k)

latest-within : (ts : List (Option ℕ)) (u : Option ℕ) → is_within u (latest ts u) ≡ true
latest-within [] none = refl
latest-within [] (some a) = ground arith
latest-within (t ∷ ts) u =
    within_trans u (later u t) (latest ts (later u t)) (within_later t u).0
      (latest-within ts (later u t))

and_true : {a b : Bool} → a ≡ true → b ≡ true → (a && b) ≡ true
and_true e f = cc

latest-all : (ts : List (Option ℕ)) (u : Option ℕ) → all (λ t. is_within t (latest ts u)) ts ≡ true
latest-all [] u = refl
latest-all (t ∷ ts) u =
    and_true
      (within_trans t (later u t) (latest ts (later u t)) (within_later t u).1
        (latest-within ts (later u t)))
      (latest-all ts (later u t))

-- Every time of the execution and of its jobs is not later than the first `updateTime`, so that updates
-- are asked for from the last change that was fetched on.
pub first_update_time-within :
    (f : Fetched)
    → all
        (λ t. is_within t (first_update_time f))
        (f.submit_time ∷ f.start_time ∷ f.end_time ∷ times_of f.nodes)
      ≡ true
unfolding first_update_time
first_update_time-within f =
    ap
      (λ u. all (λ t. is_within t u) (f.submit_time ∷ f.start_time ∷ f.end_time ∷ times_of f.nodes))
      (node_times-latest f.nodes (later (later (later none f.submit_time) f.start_time) f.end_time))
    ∙ latest-all (f.submit_time ∷ f.start_time ∷ f.end_time ∷ times_of f.nodes) none

-- The log is asked for at every call, and again later exactly while the status is asked for.
pub log_updater_function-updater_function :
    (s : Status)
    → ((log_updater_function s).0 ≡ true) × (is_set (log_updater_function s).1 ≡ keep_running s)
unfolding log_updater_function
log_updater_function-updater_function s = elim (Bool-cases (keep_running s)) [
  | inl e ↦ rw e (refl, refl)
  | inr e ↦ rw e (refl, refl)
]
