-- ===== src/Tests/Week.antt =====
-- The week view and durations at examples, in coordinated universal time.
use azkaban.Prelude.{◌*◌, List, [], ◌∷◌, some, Bool, true, not, ◌≡◌, ◌&&◌, arith}
use azkaban.Schedule.{Item, Piece, hour_millis, day_millis, add_item, process_item}
use azkaban.Schedule.Zone.{utc, utc-IsZone}
use azkaban.Schedule.Split.{MakesUp, add_item-MakesUp}
use azkaban.Schedule.Occurrences.{AreRuns, limit_of, process_item-AreRuns}
use azkaban.Schedule.Columns.{
  columns_of, AllApart, count, count_all, filter_applies, columns_of-AllApart,
}

-- from 22:00 of one day to 03:00 of the next
abbrev night : Piece
night = record {
  schedule_id = 1;
  flow_name = "nightly";
  project_name = "etl";
  time = 22 * hour_millis;
  length = 5 * hour_millis;
}

abbrev two_hourly : Item
two_hourly = record {
  schedule_id = 1;
  flow_name = "report";
  project_name = "etl";
  time = 1000;
  length = 60000;
  period = 2 * hour_millis;
}

add_item-MakesUp_example :
    (ps : List Piece) × (add_item utc 2 night ≡ some ps)
    × MakesUp utc ps (22 * hour_millis) (5 * hour_millis)
add_item-MakesUp_example = add_item-MakesUp utc utc-IsZone 0 night

process_item-AreRuns_example :
    (ps : List Piece) × (process_item day_millis 0 true two_hourly ≡ some ps)
    × AreRuns day_millis (limit_of day_millis 0 true) two_hourly ps
process_item-AreRuns_example = process_item-AreRuns day_millis 0 true two_hourly (omega arith)

columns_of-AllApart_example :
    AllApart (columns_of [] [] (night ∷ night ∷ []))
    × ((f : Piece → Bool)
        → count_all f (columns_of [] [] (night ∷ night ∷ []))
          ≡ count (λ p. f p && not (filter_applies [] [] p)) (night ∷ night ∷ []))
columns_of-AllApart_example = columns_of-AllApart [] [] (night ∷ night ∷ [])
