-- ===== src/Dates.antt =====
-- Dates as texts: `getDateFormat`, `getHourMinSec` and `getTwoDigitStr` (src/web/js/azkaban.date.utils.js).
-- What the methods of a `Date` answer is given.
use azkaban.Prelude.{
  ℕ, zero, suc, ◌+◌, ◌/◌, ◌%◌, ◌≤◌, ◌<◌, [], ◌∷◌, ◌++◌, Bool, true, false, ◌≡◌, refl, ◌∙◌, ap, ◌&&◌,
  ◌||◌, if◌then◌else◌, ltb, ◌==◌, arith, inl, inr, Bool-cases,
}
use azkaban.Texts.{Text}
use azkaban.Texts.Numbers.{decimal_with, decimal}

-- `getMonth` counts from 0.
pub record Date : Type 0 where
  pub full_year : ℕ
  pub month : ℕ
  pub date : ℕ
  pub hours : ℕ
  pub minutes : ℕ
  pub seconds : ℕ

-- `getTwoDigitStr`, as part of a text
unfoldable pub get_two_digit_str : ℕ → Text
unfolding decimal
get_two_digit_str value = if ltb value 10 then 48 ∷ decimal value else decimal value

-- `getHourMinSec`
unfoldable pub get_hour_min_sec : Date → Text
unfolding get_two_digit_str
get_hour_min_sec d =
    get_two_digit_str d.hours
    ++ 58 ∷ (get_two_digit_str d.minutes ++ 32 ∷ (get_two_digit_str d.seconds ++ 115 ∷ []))

-- `getDateFormat`
unfoldable pub get_date_format : Date → Text
unfolding get_two_digit_str
get_date_format d =
    decimal d.full_year
    ++ 45
      ∷ (get_two_digit_str (d.month + 1)
          ++ 45
            ∷ (get_two_digit_str d.date
                ++ 32
                  ∷ 32
                  ∷ (get_two_digit_str d.hours
                      ++ 58
                        ∷ (get_two_digit_str d.minutes
                            ++ 32 ∷ (get_two_digit_str d.seconds ++ 115 ∷ [])))))

-- the order of texts, by code units
abbrev pub text_before : Text → Text → Bool
text_before [] [] = false
text_before [] (_ ∷ _) = true
text_before (_ ∷ _) [] = false
text_before (a ∷ s) (b ∷ t) = ltb a b || (a == b && text_before s t)

-- The order of the fields, the year first; the milliseconds are not shown.
abbrev pub is_before : Date → Date → Bool
is_before a b =
    ltb a.full_year b.full_year
    || (a.full_year == b.full_year
        && (ltb a.month b.month
            || (a.month == b.month
                && (ltb a.date b.date
                    || (a.date == b.date
                        && (ltb a.hours b.hours
                            || (a.hours == b.hours
                                && (ltb a.minutes b.minutes
                                    || (a.minutes == b.minutes && ltb a.seconds b.seconds)))))))))

abbrev pub IsDate : Date → Type 0
IsDate d =
    (1000 ≤ d.full_year)
    × (d.full_year < 10000)
    × (d.month < 12)
    × (d.date < 32)
    × (d.hours < 24)
    × (d.minutes < 60)
    × (d.seconds < 60)

abbrev two : ℕ → Text
two n = (48 + n / 10) ∷ (48 + n % 10) ∷ []

decimal_with-small : (fuel n : ℕ) → n < 10 → decimal_with fuel n ≡ (48 + n) ∷ []
unfolding decimal_with
decimal_with-small zero n h = refl
decimal_with-small (suc fuel) n h = ground (arith, h)

decimal_with-large :
    (fuel n : ℕ)
    → 10 ≤ n
    → decimal_with (suc fuel) n ≡ decimal_with fuel (n / 10) ++ (48 + n % 10) ∷ []
unfolding decimal_with
decimal_with-large fuel n h = ground (arith, h)

-- Enough fuel for two digits and for four.
decimal_with-two : (fuel n : ℕ) → 1 ≤ fuel → 10 ≤ n → n < 100 → decimal_with fuel n ≡ two n
decimal_with-two zero n b h k = absurd (omega (arith, b))
decimal_with-two (suc fuel) n b h k =
    decimal_with-large fuel n h
    ∙ ap (◌++ (48 + n % 10) ∷ []) (decimal_with-small fuel (n / 10) (omega (arith, k)))

decimal_with-four :
    (fuel n : ℕ)
    → 3 ≤ fuel
    → 1000 ≤ n
    → n < 10000
    → decimal_with fuel n ≡ two (n / 10 / 10) ++ (48 + n / 10 % 10) ∷ (48 + n % 10) ∷ []
decimal_with-four zero n b h k = absurd (omega (arith, b))
decimal_with-four (suc zero) n b h k = absurd (omega (arith, b))
decimal_with-four (suc (suc fuel)) n b h k =
    decimal_with-large (suc fuel) n (omega (arith, h))
    ∙ ap (◌++ (48 + n % 10) ∷ []) (
        decimal_with-large fuel (n / 10) (omega (arith, h))
        ∙ ap (◌++ (48 + n / 10 % 10) ∷ []) (
            decimal_with-two fuel (n / 10 / 10) (omega (arith, b)) (omega (arith, h))
              (omega (arith, k))))

get_two_digit_str-two : (n : ℕ) → n < 100 → get_two_digit_str n ≡ two n
unfolding get_two_digit_str decimal
get_two_digit_str-two n h = elim (Bool-cases (ltb n 10)) [
  | inl small ↦
      let digit : n < 10 = ground (arith, small) in
      let tens : 48 ≡ 48 + n / 10 = omega (arith, digit) in
      let ones : 48 + n ≡ 48 + n % 10 = omega (arith, digit) in
      rw small (
        ap (48 ∷◌) (decimal_with-small n n digit)
        ∙ (ap (λ a. a ∷ (48 + n) ∷ []) tens ∙ ap (λ b. (48 + n / 10) ∷ b ∷ []) ones))
  | inr large ↦ rw large (decimal_with-two n n (ground (arith, large)) (ground (arith, large)) h)
]

text_before-two :
    (a b : ℕ) (s t : Text)
    → a < 100
    → b < 100
    → text_before (two a ++ s) (two b ++ t) ≡ (ltb a b || (a == b && text_before s t))
text_before-two a b s t h k = ground (arith, h, k)

abbrev four : ℕ → Text
four n = two (n / 10 / 10) ++ (48 + n / 10 % 10) ∷ (48 + n % 10) ∷ []

text_before-four :
    (a b : ℕ) (s t : Text)
    → a < 10000
    → b < 10000
    → text_before (four a ++ s) (four b ++ t) ≡ (ltb a b || (a == b && text_before s t))
text_before-four a b s t h k = ground (arith, h, k)

abbrev after_hours : Date → Text
after_hours d = two d.minutes ++ 32 ∷ (two d.seconds ++ 115 ∷ [])

abbrev laid_out : Date → Text
laid_out d =
    four d.full_year
    ++ 45
      ∷ (two (d.month + 1) ++ 45 ∷ (two d.date ++ 32 ∷ 32 ∷ (two d.hours ++ 58 ∷ after_hours d)))

get_date_format-laid_out : (d : Date) → IsDate d → get_date_format d ≡ laid_out d
unfolding get_date_format decimal
get_date_format-laid_out d (y, y', m, day, h, mi, s) =
    rw
      (
        decimal_with-four d.full_year d.full_year (omega (arith, y)) y y',
        get_two_digit_str-two (d.month + 1) (omega (arith, m)),
        get_two_digit_str-two d.date (omega (arith, day)),
        get_two_digit_str-two d.hours (omega (arith, h)),
        get_two_digit_str-two d.minutes (omega (arith, mi)),
        get_two_digit_str-two d.seconds (omega (arith, s)),
      )
      refl

-- what the later fields decide where the earlier ones are equal
abbrev then_by : ℕ → ℕ → Bool → Bool
then_by a b later = ltb a b || (a == b && later)

after_hours-before :
    (a b : Date)
    → IsDate a
    → IsDate b
    → text_before (after_hours a) (after_hours b)
      ≡ then_by a.minutes b.minutes (ltb a.seconds b.seconds)
after_hours-before a b (_, _, _, _, _, am, sa) (_, _, _, _, _, bm, sb) =
    text_before-two a.minutes b.minutes (32 ∷ (two a.seconds ++ 115 ∷ []))
      (32 ∷ (two b.seconds ++ 115 ∷ [])) (omega (arith, am)) (omega (arith, bm))
    ∙ ap (then_by a.minutes b.minutes) (
        text_before-two a.seconds b.seconds (115 ∷ []) (115 ∷ []) (omega (arith, sa))
          (omega (arith, sb))
        ∙ ground arith)

-- For local dates with a year of four digits, the order of their texts is the order of their fields: of
-- the year, then the month, the day, the hour, the minute and the second.
pub get_date_format-before :
    (a b : Date)
    → IsDate a
    → IsDate b
    → text_before (get_date_format a) (get_date_format b) ≡ is_before a b
get_date_format-before a b ia ib =
    let (ay, ay', am, ad, ah, _, _) = ia in
    let (by, by', bm, bd, bh, _, _) = ib in
    let rest = λ (d : Date). 32 ∷ 32 ∷ (two d.hours ++ 58 ∷ after_hours d) in
    let days = λ (d : Date). 45 ∷ (two d.date ++ rest d) in
    ap (λ s. text_before s (get_date_format b)) (get_date_format-laid_out a ia)
    ∙ (ap (text_before (laid_out a)) (get_date_format-laid_out b ib)
        ∙ (text_before-four a.full_year b.full_year (45 ∷ (two (a.month + 1) ++ days a))
              (45 ∷ (two (b.month + 1) ++ days b)) ay' by'
            ∙ ap (then_by a.full_year b.full_year) (
                text_before-two (a.month + 1) (b.month + 1) (days a) (days b) (omega (arith, am))
                  (omega (arith, bm))
                ∙ (ap (then_by (a.month + 1) (b.month + 1)) (
                      text_before-two a.date b.date (rest a) (rest b) (omega (arith, ad))
                        (omega (arith, bd))
                      ∙ ap (then_by a.date b.date) (
                          text_before-two a.hours b.hours (58 ∷ after_hours a) (58 ∷ after_hours b)
                            (omega (arith, ah)) (omega (arith, bh))
                          ∙ ap (then_by a.hours b.hours) (after_hours-before a b ia ib)))
                    ∙ ground arith))))
