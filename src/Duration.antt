-- ===== src/Duration.antt =====
-- Durations (src/web/js/azkaban.date.utils.js), as the numbers that they show.
use azkaban.Prelude.{
  ℕ, ◌+◌, ◌-◌, ◌*◌, ◌/◌, ◌%◌, ◌≤◌, ◌<◌, ◌≡◌, ◌≢◌, Option, none, some, arith, ltb, ◌==◌,
  if◌then◌else◌, zero, suc, refl,
}
use azkaban.Prelude.Int.{ℤ, pos, negsuc}

-- A text for each return statement of `formatDuration`. `fixed` is `(diff / 1000).toFixed(digits)`.
pub data DurationText : Type 0 where
  fixed : ℕ → ℕ → DurationText
  seconds : ℕ → DurationText
  minutes : ℕ → ℕ → DurationText
  hours : ℕ → ℕ → ℕ → DurationText
  days : ℕ → ℕ → ℕ → DurationText

-- `millisec_sig` is 0 where the source passes `false`.
pub format_duration : ℕ → ℕ → DurationText
format_duration duration millisec_sig =
    let secs = duration / 1000 in
    let mins = secs / 60 in
    let hrs = mins / 60 in
    if ltb secs 60
    then (if ltb 0 millisec_sig then fixed duration millisec_sig else seconds secs)
    else if ltb mins 60
    then minutes mins (secs % 60)
    else if ltb hrs 24
    then hours hrs (mins % 60) (secs % 60)
    else days (hrs / 24) (hrs % 24) (mins % 60)

-- `getDuration`, where `none` is the text "-". A time that is 0, null or undefined is no start.
pub get_duration : Option ℕ → Option ℕ → Option DurationText
get_duration none end_ms = none
get_duration (some start_ms) none = none
get_duration (some start_ms) (some end_ms) =
    if start_ms == 0
    then none
    else if ltb end_ms start_ms
    then none
    else some (format_duration (end_ms - start_ms) 0)

-- The seconds that a text stands for.
abbrev pub shown_seconds : DurationText → ℕ
shown_seconds (fixed diff digits) = diff / 1000
shown_seconds (seconds s) = s
shown_seconds (minutes m s) = m * 60 + s
shown_seconds (hours h m s) = h * 3600 + m * 60 + s
shown_seconds (days d h m) = d * 86400 + h * 3600 + m * 60

-- Each number is in the range of its unit.
abbrev pub InRange : DurationText → Type 0
InRange (fixed diff digits) = diff < 60000
InRange (seconds s) = s < 60
InRange (minutes m s) = (m < 60) × (s < 60)
InRange (hours h m s) = (h < 24) × (m < 60) × (s < 60)
InRange (days d h m) = (1 ≤ d) × (h < 24) × (m < 60)

-- A duration is shown to the second below a day and to the minute from a day on, with every number
-- in the range of its unit.
pub format_duration-shown :
    (duration millisec_sig : ℕ)
    → InRange (format_duration duration millisec_sig)
      × (shown_seconds (format_duration duration millisec_sig) ≤ duration / 1000)
      × (duration / 1000 < shown_seconds (format_duration duration millisec_sig) + 60)
      × (duration < 86400000
          → shown_seconds (format_duration duration millisec_sig) ≡ duration / 1000)
unfolding format_duration
format_duration-shown duration millisec_sig =
    (ground arith, ground arith, ground arith, λ h. ground arith)

-- With a start other than 0 and an end not before it the duration shown is that of the difference;
-- with an end before the start none is shown.
pub get_duration-difference :
    (start_ms end_ms : ℕ)
    → (start_ms ≢ 0
        → start_ms ≤ end_ms
        → get_duration (some start_ms) (some end_ms) ≡ some (format_duration (end_ms - start_ms) 0))
      × (end_ms < start_ms → get_duration (some start_ms) (some end_ms) ≡ none)
unfolding get_duration
get_duration-difference start_ms end_ms = (λ ne le. ground arith, λ lt. ground arith)

-- `getDuration` of two integers, of which a start of -1 counts as one.
unfoldable pub duration_between : ℤ → ℤ → Option DurationText
unfolding format_duration
duration_between (pos zero) end_ms = none
duration_between (pos (suc n)) (negsuc m) = none
duration_between (pos (suc n)) (pos m) =
    if ltb m (suc n) then none else some (format_duration (m - suc n) 0)
duration_between (negsuc n) (pos m) = some (format_duration (m + suc n) 0)
duration_between (negsuc n) (negsuc m) = if ltb n m then none else some (format_duration (n - m) 0)

-- A text shows a length of time, to the minute at least.
abbrev pub Shows : Option DurationText → ℕ → Type 0
Shows o millis =
    (text : DurationText) × (o ≡ some text)
    × InRange text
    × (shown_seconds text ≤ millis / 1000)
    × (millis / 1000 < shown_seconds text + 60)

pub format_duration-Shows : (millis : ℕ) → Shows (some (format_duration millis 0)) millis
format_duration-Shows millis =
    let (range, low, high, _) = format_duration-shown millis 0 in
    (format_duration millis 0, refl, range, low, high)
