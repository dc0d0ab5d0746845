-- ===== src/Staging/Rows.antt =====
-- The rows of the executions on the staging page: `render` of `ExecutionsView` and its `statusStringMap`
-- (src/web/js/azkaban.staging.flow.view.js). The fields of the Date of a time are a parameter.
use azkaban.Prelude.{
  ℕ, zero, suc, ◌+◌, ◌-◌, ◌≤◌, String, List, [], ◌∷◌, map, Option, none, some, false, ◌≡◌, ltb,
  arith,
}
use azkaban.Prelude.Dict.{get}
use azkaban.Prelude.Int.{ℤ, pos, negsuc}
use azkaban.Texts.{Text}
use azkaban.Dates.{Date, get_date_format}
use azkaban.Duration.{DurationText, duration_between, Shows, format_duration-Shows}

abbrev pub status_string_map : List (String × String)
status_string_map =
    ("FAILED", "Failed")
    ∷ ("SUCCEEDED", "Success")
    ∷ ("FAILED_FINISHING", "Running w/Failure")
    ∷ ("RUNNING", "Running")
    ∷ ("WAITING", "Waiting")
    ∷ ("KILLED", "Killed")
    ∷ ("DISABLED", "Disabled")
    ∷ ("READY", "Ready")
    ∷ ("UNKNOWN", "Unknown")
    ∷ []

-- The times are -1 where they are not set.
pub record Execution : Type 0 where
  pub exec_id : ℕ
  pub submit_user : String
  pub start_time : ℤ
  pub end_time : ℤ
  pub status : String

-- `none` is the text "-" of a time, or no text of a status
pub record Row : Type 0 where
  pub link : ℕ
  pub user : String
  pub start_text : Option Text
  pub end_text : Option Text
  pub elapsed : Option DurationText
  pub status_class : String
  pub status_text : Option String

abbrev pub last_time : ℕ → ℤ → ℤ
last_time now (negsuc zero) = pos now
last_time now t = t

module _ (date_of : ℤ → Date) where
  abbrev pub time_text : ℤ → Option Text
  time_text (negsuc zero) = none
  time_text t = some (get_date_format (date_of t))

  -- the body of the loop at the time `now`
  unfoldable pub row_of : ℕ → Execution → Row
  unfolding duration_between
  row_of now e = record {
    link = e.exec_id;
    user = e.submit_user;
    start_text = time_text e.start_time;
    end_text = time_text e.end_time;
    elapsed = duration_between e.start_time (last_time now e.end_time);
    status_class = e.status;
    status_text = get e.status status_string_map;
  }

  -- `render`, with the table emptied first
  unfoldable pub render_rows : ℕ → List Execution → List Row → List Row
  unfolding row_of
  render_rows now es rows = map (row_of now) es

  started : (s t : ℕ) → s ≤ t → 1 ≤ s → Shows (duration_between (pos s) (pos t)) (t - s)
  unfolding duration_between
  started zero t le one = absurd (omega (arith, one))
  started (suc s) t le one =
      let in_order : ltb t (suc s) ≡ false = ground (arith, le) in
      rw in_order (format_duration-Shows (t - suc s))

  -- The time that a row shows, to the minute: of an execution that has ended that from its start to its
  -- end, of one that is running that from its start until now, where the start is after 1970 and not after
  -- the other time. Of an execution without a start it is a
  -- time since 1970, and one millisecond more: until now where it has no end either, and until its end
  -- where it has one.
  pub row_of-elapsed :
      (now s t : ℕ) (e : Execution)
      → (e.start_time ≡ pos s
          → 1 ≤ s
          → (e.end_time ≡ pos t → s ≤ t → Shows (row_of now e).elapsed (t - s))
            × (e.end_time ≡ negsuc 0 → s ≤ now → Shows (row_of now e).elapsed (now - s)))
        × (e.start_time ≡ negsuc 0
            → (e.end_time ≡ negsuc 0 → Shows (row_of now e).elapsed (now + 1))
              × (e.end_time ≡ pos t → Shows (row_of now e).elapsed (t + 1)))
  unfolding row_of duration_between
  row_of-elapsed now s t e = (
    λ at one. (
      λ ended le. rw (at, ended) (started s t le one),
      λ runs le. rw (at, runs) (started s now le one),
    ),
    λ unset. (
      λ waits. rw (unset, waits) (format_duration-Shows (now + 1)),
      λ ended. rw (unset, ended) (format_duration-Shows (t + 1)),
    ),
  )
