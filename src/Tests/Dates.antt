-- ===== src/Tests/Dates.antt =====
-- Dates, the log of a project and the address of the week view at examples.
use azkaban.Prelude.{
  ℕ, ◌+◌, String, List, [], ◌∷◌, map, Option, none, some, ◌≡◌, refl, arith, str_eq, if◌then◌else◌,
}
use azkaban.Prelude.Int.{ℤ, pos_part}
use azkaban.Prelude.Dict.{get}
use azkaban.Dates.{Date, get_date_format, text_before, is_before, get_date_format-before}
use azkaban.ProjectLog.{
  Page, log, error, handle_update, given_row, type_label, mapped, handle_update-rows,
}
use azkaban.Schedule.Address.{Week, next_week, open_week, click_weeks, open_week-click_weeks}

abbrev new_year : Date
new_year = record { full_year = 2013; month = 0; date = 1; hours = 0; minutes = 5; seconds = 9 }

abbrev new_year_eve : Date
new_year_eve = record {
  full_year = 2012;
  month = 11;
  date = 31;
  hours = 23;
  minutes = 59;
  seconds = 59;
}

abbrev event : String → String
event name = if str_eq name "user" then "joe" else if str_eq name "type" then "UPLOADED" else "5"

abbrev no_date : Option String → Date
no_date _ = new_year

abbrev empty_page : Page String
empty_page = record { table = []; dialog = none }

abbrev columns : List String
columns = "type" ∷ "user" ∷ "time" ∷ []

uploads_are_named : type_label (λ s. s) no_date (some "UPLOADED") ≡ mapped "Uploaded"
unfolding get
uploads_are_named = refl

-- A calendar of days by their number in one year and month.
abbrev day_of : ℤ → ℤ → ℤ → Option ℕ
day_of y m d = some (pos_part d)

abbrev later_day : ℕ → ℤ → ℕ
later_day t z = t + 7

abbrev week : Week ℕ
week = record { svg_date = 3; hash = []; shown = none }

get_date_format-before_example :
    text_before (get_date_format new_year_eve) (get_date_format new_year)
    ≡ is_before new_year_eve new_year
get_date_format-before_example =
    get_date_format-before new_year_eve new_year
      (omega arith, omega arith, omega arith, omega arith, omega arith, omega arith, omega arith)
      (omega arith, omega arith, omega arith, omega arith, omega arith, omega arith, omega arith)

handle_update-rows_example :
    ((handle_update
        (λ s. s)
        no_date
        (log columns (map (λ f. map f columns) (event ∷ [])))
        empty_page).table
      ≡ map (given_row (λ s. s) no_date columns) (event ∷ []))
    × ((handle_update (λ s. s) no_date (error "no") empty_page).table ≡ [])
handle_update-rows_example =
    handle_update-rows (λ s. s) no_date columns (event ∷ []) "no" empty_page

open_week-click_weeks_example :
    (open_week
      (λ _. 2012)
      (λ _. 4)
      (λ t. t)
      day_of
      20
      (click_weeks
        (λ _. 2012)
        (λ _. 4)
        (λ t. t)
        day_of
        later_day
        1
        (next_week ∷ [])
        week).hash).shown
    ≡ (click_weeks (λ _. 2012) (λ _. 4) (λ t. t) day_of later_day 1 (next_week ∷ []) week).shown
open_week-click_weeks_example =
    open_week-click_weeks (λ _. 2012) (λ _. 4) (λ t. t) day_of (λ t. (t, refl, refl, refl, refl))
      later_day 1 20 next_week [] week
