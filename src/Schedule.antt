-- ===== src/Schedule.antt =====
-- The week view of the scheduled flows (src/web/js/azkaban.schedule.svg.js). Times and lengths are
-- in milliseconds. `midnight t` is the start of the local day of `t`, which the code gets from the
-- Date objects of the browser: a parameter here. The one comparison with a Date object that is not
-- turned into a number, `itemEndTime.valueOf() != itemStartDate + dayMillisConst`, compares a number
-- with a text and always holds.
pub mod Zone
pub mod Occurrences
pub mod Address
pub mod Split
pub mod Columns
pub mod Text
use azkaban.Prelude.{
  ℕ, zero, suc, ◌+◌, ◌-◌, ◌*◌, ◌/◌, ◌≤◌, ◌<◌, max, String, List, [], ◌∷◌, ◌++◌, Option, none, some,
  Bool, true, false, not, ◌&&◌, ◌||◌, any, map, modify, str_eq, ltb, leb, ◌==◌, if◌then◌else◌,
}

abbrev pub hour_millis : ℕ
hour_millis = 3600 * 1000

abbrev pub day_millis : ℕ
day_millis = 24 * hour_millis

abbrev pub num_days : ℕ
num_days = 7

-- An item as it comes from the server; a period of 0 is no period.
pub record Item : Type 0 where
  pub schedule_id : ℕ
  pub flow_name : String
  pub project_name : String
  pub time : ℕ
  pub length : ℕ
  pub period : ℕ

-- A piece of an item that is to be drawn.
pub record Piece : Type 0 where
  pub schedule_id : ℕ
  pub flow_name : String
  pub project_name : String
  pub time : ℕ
  pub length : ℕ

abbrev pub piece_of : Item → ℕ → ℕ → Piece
piece_of it time length = record {
  schedule_id = it.schedule_id;
  flow_name = it.flow_name;
  project_name = it.project_name;
  time = time;
  length = length;
}

-- `while (firstTime < restrictedStartTime) { firstTime += period; }`
pub catch_up : ℕ → ℕ → ℕ → ℕ → Option ℕ
catch_up zero period limit t = none
catch_up (suc fuel) period limit t = elim (ltb t limit) [
  | true ↦ catch_up fuel period limit (t + period)
  | false ↦ some t
]

-- The jump over the periods that have passed; a difference below 0 counts as no period.
pub skip_periods : ℕ → ℕ → ℕ → ℕ
skip_periods first_time period limit = first_time + period * ((limit - first_time) / period)

-- `while (firstTime < endTime) { addItem(…); firstTime += period; }`, the times at which it adds.
pub repeat_until : ℕ → ℕ → ℕ → ℕ → Option (List ℕ)
repeat_until zero period end_time t = none
repeat_until (suc fuel) period end_time t = elim (ltb t end_time) [
  | true ↦ elim (repeat_until fuel period end_time (t + period)) [
    | none ↦ none
    | some ts ↦ some (t ∷ ts)
  ]
  | false ↦ some []
]

-- With a period of an hour or less the piece lasts to the end of the week; where it starts after that
-- it is not drawn, and the length, below 0 in the source, is not read.
-- `processItem`, the items that it hands to `addItem` in turn. Two rounds of the first loop and one
-- for each millisecond of the week for the second are more than enough.
pub process_item : ℕ → ℕ → Bool → Item → Option (List Piece)
process_item first_day today scheduled it =
    let end_time = first_day + num_days * day_millis in
    let limit = if scheduled then max first_day today else first_day in
    if it.period == 0
    then some (
        if leb limit it.time && ltb it.time end_time
        then piece_of it it.time it.length ∷ []
        else [])
    else elim (catch_up 2 it.period limit (skip_periods it.time it.period limit)) [
      | none ↦ none
      | some t ↦
          if leb it.period hour_millis
          then some (piece_of it t (end_time - t) ∷ [])
          else elim (repeat_until (end_time + 1) it.period end_time t) [
            | none ↦ none
            | some ts ↦ some (map (λ t. piece_of it t it.length) ts)
          ]
    ]

-- `tempLength`: at most a day of the excess
pub temp_length : ℕ → ℕ
temp_length excess = if ltb day_millis excess then day_millis else excess

module _ (midnight : ℕ → ℕ) where
  -- The loop of `addItem` over the days after the first.
  pub rest_days : (Piece → Option (List Piece)) → ℕ → Piece → ℕ → ℕ → Option (List Piece)
  rest_days add zero p next_morning excess = none
  rest_days add (suc rounds) p next_morning excess =
      let rest = rest_days add rounds p (next_morning + day_millis) (excess - temp_length excess) in
      if excess == 0
      then some []
      else elim (add (record p { time = next_morning; length = temp_length excess })) [
        | none ↦ none
        | some ps ↦ elim rest [ none ↦ none | some qs ↦ some (ps ++ qs) ]
      ]

  -- The pieces that `addItem` puts on a list, in that order: an item that ends on another day than it
  -- starts is cut there, and the rest is added day by day before the first piece is.
  pub add_item : ℕ → Piece → Option (List Piece)
  add_item zero p = none
  add_item (suc fuel) p =
      let item_start_date = midnight p.time in
      let own = item_start_date + day_millis - p.time in
      let excess = p.length - own in
      let rest = rest_days (add_item fuel) (suc excess) p (item_start_date + day_millis) excess in
      if midnight (p.time + p.length) == item_start_date
      then some (p ∷ [])
      else elim rest [ none ↦ none | some ps ↦ some (ps ++ record p { length = own } ∷ []) ]

  -- The day of the week view that a piece is drawn on.
  pub day_index : ℕ → Piece → Option ℕ
  day_index first_day p =
      let index = (midnight p.time - first_day) / day_millis in
      if leb first_day (midnight p.time) && ltb index num_days then some index else none

  -- `itemByDay[index].push(obj)`
  pub push_piece : ℕ → Piece → List (List Piece) → List (List Piece)
  push_piece first_day p days = elim (day_index first_day p) [
    | none ↦ days
    | some i ↦ modify days i (λ ps. ps ++ p ∷ [])
  ]

  pub push_pieces : ℕ → List Piece → List (List Piece) → List (List Piece)
  push_pieces first_day [] days = days
  push_pieces first_day (p ∷ ps) days = push_pieces first_day ps (push_piece first_day p days)
