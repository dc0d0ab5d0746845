-- ===== src/Schedule/Text.antt =====
-- The texts of the week view (src/web/js/azkaban.schedule.svg.js) as the numbers that they show.
use azkaban.Prelude.{ℕ, ◌+◌, ◌-◌, ◌*◌, ◌/◌, ◌≤◌, ◌<◌, ◌≡◌, arith, ltb, ◌==◌, if◌then◌else◌}
use azkaban.Schedule.{hour_millis, day_millis}

pub data HourText : Type 0 where
  am : ℕ → HourText
  pm : ℕ → HourText

-- `getHourText`
pub get_hour_text : ℕ → HourText
get_hour_text hour =
    if hour == 0
    then am 12
    else if ltb hour 12
    then am hour
    else if hour == 12
    then pm 12
    else pm (hour - 12)

-- what a clock face reads
abbrev pub read_hour : HourText → ℕ
read_hour (am h) = if h == 12 then 0 else h
read_hour (pm h) = if h == 12 then 12 else h + 12

abbrev pub face_hour : HourText → ℕ
face_hour (am h) = h
face_hour (pm h) = h

-- Each hour of the day has the text of a twelve-hour clock that is read back as that hour.
pub read_hour-get_hour_text :
    (hour : ℕ)
    → hour < 24
    → (read_hour (get_hour_text hour) ≡ hour)
      × (1 ≤ face_hour (get_hour_text hour))
      × (face_hour (get_hour_text hour) ≤ 12)
unfolding get_hour_text
read_hour-get_hour_text hour h = (ground arith, ground arith, ground arith)

-- The three numbers of `formatReadablePeriod`; one that is 0 is left out of the text, and one day is
-- written "24 hours".
pub record ReadablePeriod : Type 0 where
  pub days : ℕ
  pub hours : ℕ
  pub mins : ℕ

pub format_readable_period : ℕ → ReadablePeriod
format_readable_period period =
    let days = period / day_millis in
    let hour = period - days * day_millis in
    let hours = hour / hour_millis in
    let min = hour - hours * hour_millis in
    record { days = days; hours = hours; mins = min / 60000 }

-- The text of a period is that of its whole minutes: the hours shown are less than a day, the
-- minutes less than an hour, and they add up to the period but for less than a minute.
pub format_readable_period-adds_up :
    (period : ℕ)
    → ((format_readable_period period).hours < 24)
      × ((format_readable_period period).mins < 60)
      × ((format_readable_period period).days * day_millis
            + (format_readable_period period).hours * hour_millis
            + (format_readable_period period).mins * 60000
          ≤ period)
      × (period
          < (format_readable_period period).days * day_millis
            + (format_readable_period period).hours * hour_millis
            + ((format_readable_period period).mins + 1) * 60000)
unfolding format_readable_period
format_readable_period-adds_up period = (omega arith, omega arith, omega arith, omega arith)
