-- ===== src/Schedule/Address.antt =====
-- The week that the schedule shows and the address of the page: the navigation, and reading the address
-- (src/web/js/azkaban.schedule.svg.js). Dates are those of JavaScript: the type, what its methods answer
-- and `new Date(year, month, day)`, which is `none` where the date is not valid, are parameters.
use azkaban.Prelude.{
  ℕ, ◌+◌, ◌*◌, List, [], ◌∷◌, ◌++◌, Option, none, some, true, false, ◌≡◌, refl, sym, ◌∙◌, ap, ◌==◌,
  all, get_elem?, if◌then◌else◌, arith,
}
use azkaban.Prelude.Int.{ℤ, pos, ◌-ℤ◌}
use azkaban.Texts.{Text, is_empty}
use azkaban.Texts.Numbers.{decimal, parse_int, parse_int-decimal, decimal-digits, is_digit}

-- `replace("#", "")`
abbrev pub drop_hash : Text → Text
drop_hash [] = []
drop_hash (c ∷ t) = if c == 35 then t else c ∷ drop_hash t

-- a text in front of the first part of the others
abbrev pub onto_first : ℕ → List Text → List Text
onto_first c [] = (c ∷ []) ∷ []
onto_first c (p ∷ ps) = (c ∷ p) ∷ ps

-- `split("-")`
unfoldable pub split_dashes : Text → List Text
split_dashes [] = [] ∷ []
split_dashes (c ∷ t) = let rest = split_dashes t in if c == 45 then [] ∷ rest else onto_first c rest

-- `parseInt(dateParts[i])`; `undefined` is not a number
unfoldable pub number_at : ℕ → List Text → Option ℤ
unfolding parse_int
number_at i parts = elim (get_elem? parts i) [ none ↦ none | some part ↦ parse_int part ]

pub record Week (T : Type 0) : Type 0 where
  pub svg_date : T
  pub hash : Text
  pub shown : Option T

pub data Click : Type 0 where
  prev_week next_week this_week : Click

abbrev pub seven_days : ℕ
seven_days = 7 * 86400000

module _ {T : Type 0} (full_year month date : T → ℕ) (new_date : ℤ → ℤ → ℤ → Option T) where
  -- `new Date` of numbers that may be NaN
  abbrev pub date_of : Option ℤ → Option ℤ → Option ℤ → Option T
  date_of (some y) (some m) (some d) = new_date y (m -ℤ pos 1) d
  date_of _ _ _ = none

  -- The date of the address, where it has one.
  unfoldable pub date_of_hash : Text → Option T
  unfolding split_dashes number_at
  date_of_hash hash =
      let parts = split_dashes (drop_hash hash) in
      date_of (number_at 0 parts) (number_at 1 parts) (number_at 2 parts)

  -- `svgDate` when the page is opened
  unfoldable pub open_date : T → Text → T
  unfolding date_of_hash
  open_date default_date hash =
      if is_empty hash
      then default_date
      else elim (date_of_hash hash) [ none ↦ default_date | some t ↦ t ]

  -- `"#" + svgDate.getFullYear() + "-" + (svgDate.getMonth() + 1) + "-" + svgDate.getDate()`
  unfoldable pub hash_of : T → Text
  unfolding decimal
  hash_of t = 35 ∷ (decimal (full_year t) ++ 45 ∷ (decimal (month t + 1) ++ 45 ∷ decimal (date t)))

  -- the first day that `loadSvg` shows
  unfoldable pub first_day : T → Option T
  first_day t = new_date (pos (full_year t)) (pos (month t)) (pos (date t))

  -- the page as it is opened
  unfoldable pub open_week : T → Text → Week T
  unfolding open_date first_day
  open_week default_date hash =
      let t = open_date default_date hash in
      record { svg_date = t; hash = hash; shown = first_day t }

  module _ (value_plus : T → ℤ → T) where
    abbrev pub date_after : T → Click → T → T
    date_after default_date prev_week t = value_plus t (pos 0 -ℤ pos seven_days)
    date_after default_date next_week t = value_plus t (pos seven_days)
    date_after default_date this_week t = default_date

    -- the handlers of the three links
    unfoldable pub click_week : T → Click → Week T → Week T
    unfolding hash_of first_day
    click_week default_date c w =
        let t = date_after default_date c w.svg_date in
        record { svg_date = t; hash = hash_of t; shown = first_day t }

    unfoldable pub click_weeks : T → List Click → Week T → Week T
    unfolding click_week
    click_weeks default_date [] w = w
    click_weeks default_date (c ∷ cs) w = click_weeks default_date cs (click_week default_date c w)

split_dashes-digits :
    (a b : Text) → all is_digit a ≡ true → split_dashes (a ++ 45 ∷ b) ≡ a ∷ split_dashes b
unfolding split_dashes
split_dashes-digits [] b h = refl
split_dashes-digits (c ∷ a) b h =
    let other : (c == 45) ≡ false = ground (arith, h) in
    rw other (ap (onto_first c) (split_dashes-digits a b (ground (arith, h))))

split_dashes-last : (a : Text) → all is_digit a ≡ true → split_dashes a ≡ a ∷ []
unfolding split_dashes
split_dashes-last [] h = refl
split_dashes-last (c ∷ a) h =
    let other : (c == 45) ≡ false = ground (arith, h) in
    rw other (ap (onto_first c) (split_dashes-last a (ground (arith, h))))

split_dashes-numbers :
    (a b c : ℕ)
    → split_dashes (decimal a ++ 45 ∷ (decimal b ++ 45 ∷ decimal c))
      ≡ decimal a ∷ decimal b ∷ decimal c ∷ []
split_dashes-numbers a b c =
    split_dashes-digits (decimal a) (decimal b ++ 45 ∷ decimal c) (decimal-digits a)
    ∙ ap (decimal a ∷◌) (
        split_dashes-digits (decimal b) (decimal c) (decimal-digits b)
        ∙ ap (decimal b ∷◌) (split_dashes-last (decimal c) (decimal-digits c)))

month_back : (m : ℕ) → pos (m + 1) -ℤ pos 1 ≡ pos m
unfolding ◌-ℤ◌
month_back m = ground arith

module _ {T : Type 0} (full_year month date : T → ℕ) (new_date : ℤ → ℤ → ℤ → Option T)
    (kept : (t : T)
      → (u : T) × (new_date (pos (full_year t)) (pos (month t)) (pos (date t)) ≡ some u)
        × (full_year u ≡ full_year t)
        × (month u ≡ month t)
        × (date u ≡ date t)) where
  date_of_hash-hash_of :
      (t : T)
      → date_of_hash full_year month date new_date (hash_of full_year month date new_date t)
        ≡ first_day full_year month date new_date t
  unfolding date_of_hash hash_of first_day number_at
  date_of_hash-hash_of t =
      rw
        (
          split_dashes-numbers (full_year t) (month t + 1) (date t),
          parse_int-decimal (full_year t),
          parse_int-decimal (month t + 1),
          parse_int-decimal (date t),
        )
        (ap (λ m. new_date (pos (full_year t)) m (pos (date t))) (month_back (month t)))

  -- the address and the days are those of the date
  abbrev IsShown : Week T → Type 0
  IsShown w =
      (w.hash ≡ hash_of full_year month date new_date w.svg_date)
      × (w.shown ≡ first_day full_year month date new_date w.svg_date)

  first_day-some :
      (t u : T)
      → new_date (pos (full_year t)) (pos (month t)) (pos (date t)) ≡ some u
      → first_day full_year month date new_date t ≡ some u
  unfolding first_day
  first_day-some t u e = e

  first_day-kept :
      (t u : T)
      → full_year u ≡ full_year t
      → month u ≡ month t
      → date u ≡ date t
      → first_day full_year month date new_date u ≡ first_day full_year month date new_date t
  unfolding first_day
  first_day-kept t u y m d = rw (y, m, d) refl

  open_date-hash_of :
      (default_date t : T)
      → first_day full_year month date new_date (
          open_date full_year month date new_date default_date
            (hash_of full_year month date new_date t))
        ≡ first_day full_year month date new_date t
  unfolding open_date hash_of
  open_date-hash_of default_date t =
      let (u, e, y, m, d) = kept t in
      ap
        (λ o.
          first_day full_year month date new_date
            (elim o as (λ _. T) [ none ↦ default_date | some x ↦ x ]))
        (date_of_hash-hash_of t ∙ first_day-some t u e)
      ∙ first_day-kept t u y m d

  module _ (value_plus : T → ℤ → T) where
    click_weeks-IsShown :
        (default_date : T) (cs : List Click) (w : Week T)
        → IsShown w
        → IsShown (click_weeks full_year month date new_date value_plus default_date cs w)
    unfolding click_weeks click_week
    click_weeks-IsShown default_date [] w s = s
    click_weeks-IsShown default_date (c ∷ cs) w s =
        click_weeks-IsShown default_date cs
          (click_week full_year month date new_date value_plus default_date c w) (refl, refl)

    -- Where the Date for the fields of a date has these fields again: after any clicks at the links of
    -- the week view, the page that is opened at the address shows the days that were shown, whatever
    -- week it opens with else.
    pub open_week-click_weeks :
        (default_date other_default : T) (c : Click) (cs : List Click) (w : Week T)
        → (open_week full_year month date new_date other_default
            (click_weeks full_year month date new_date value_plus default_date
              (c ∷ cs)
              w).hash).shown
          ≡ (click_weeks full_year month date new_date value_plus default_date (c ∷ cs) w).shown
    unfolding open_week click_weeks click_week
    open_week-click_weeks default_date other_default c cs w =
        let after = click_weeks full_year month date new_date value_plus default_date (c ∷ cs) w in
        let (at, days) =
          click_weeks-IsShown default_date cs
            (click_week full_year month date new_date value_plus default_date c w) (refl, refl) in
        ap
          (λ h.
            first_day full_year month date new_date
              (open_date full_year month date new_date other_default h))
          at
        ∙ (open_date-hash_of other_default after.svg_date ∙ sym days)
