-- ===== src/Schedule/Occurrences.antt =====
-- `processItem` finds the runs of a periodic item that fall in the week.
use azkaban.Prelude.{
  ℕ, zero, suc, ◌+◌, ◌-◌, ◌*◌, ◌/◌, ◌≤◌, ◌<◌, max, List, [], ◌∷◌, some, Bool, true, false, ◌≡◌,
  refl, sym, ap, ◌∙◌, ◌||◌, any, map, arith, ltb, leb, ltb→lt, leb→le, ◌==◌, if◌then◌else◌,
  Bool-cases, inl, inr,
}
use native.Mathlib.Nat.{mul-div-le, lt-mul-div-succ, mul-le-mul_left, lt_of_mul-lt-mul_left}
use azkaban.Schedule.{
  hour_millis, day_millis, num_days, Item, Piece, piece_of, catch_up, skip_periods, repeat_until,
  process_item,
}

-- `t` is the first run from `limit` on of what starts at `first` and runs each `period`.
record IsFirstRun (first period limit t : ℕ) : Type 0 where
  reached : limit ≤ t
  round : ℕ
  is_run : t ≡ first + period * round
  least : (k : ℕ) → limit ≤ first + period * k → t ≤ first + period * k

mul_step : (p a b : ℕ) → p * a < p * b → p * a + p ≤ p * b
mul_step p a b h = omega (arith, mul-le-mul_left p (lt_of_mul-lt-mul_left p h))

catch_up-there : (period limit s : ℕ) → limit ≤ s → catch_up 2 period limit s ≡ some s
unfolding catch_up
catch_up-there period limit s h = ground arith

catch_up-short :
    (period limit s : ℕ)
    → s < limit
    → limit ≤ s + period
    → catch_up 2 period limit s ≡ some (s + period)
unfolding catch_up
catch_up-short period limit s h k = ground arith

catch_up-IsFirstRun :
    (first period limit : ℕ)
    → 0 < period
    → (t : ℕ) × (catch_up 2 period limit (skip_periods first period limit) ≡ some t)
      × IsFirstRun first period limit t
unfolding skip_periods
catch_up-IsFirstRun first period limit pos =
    let q = (limit - first) / period in
    let s = first + period * q in
    let low = mul-div-le (limit - first) period in
    let high : limit - first < period * q + period =
      omega (arith, lt-mul-div-succ (limit - first) pos) in
    elim (Bool-cases (ltb s limit)) [
      | inr there ↦
          let reached : limit ≤ s = ground arith in
          (
            s,
            catch_up-there period limit s reached,
            record { reached = reached; round = q; is_run = refl; least = λ k h. omega arith },
          )
      | inl short ↦
          let under = ltb→lt s limit short in
          (
            s + period,
            catch_up-short period limit s under (omega arith),
            record {
              reached = omega arith;
              round = q + 1;
              is_run = omega arith;
              least = λ k h. omega (arith, mul_step period q k (omega arith));
            },
          )
    ]

has_time : ℕ → List ℕ → Bool
has_time x ts = any (λ t. t == x) ts

has_time-cons : (x t : ℕ) (ts : List ℕ) → has_time x (t ∷ ts) ≡ (t == x || has_time x ts)
unfolding has_time
has_time-cons x t ts = refl

complete_cons :
    (t period end_time : ℕ) (ts : List ℕ)
    → ((k : ℕ) → t + period + period * k < end_time → has_time (t + period + period * k) ts ≡ true)
    → (k : ℕ) → t + period * k < end_time
    → has_time (t + period * k) (t ∷ ts) ≡ true
complete_cons t period end_time ts rest zero h =
    ground (arith, has_time-cons (t + period * zero) t ts)
complete_cons t period end_time ts rest (suc k) h =
    let same : t + period * suc k ≡ t + period + period * k = omega arith in
    rw same (ground (arith, rest k (omega arith), has_time-cons (t + period + period * k) t ts))

repeat_until-total :
    (fuel period end_time t : ℕ)
    → 0 < period
    → end_time - t < fuel
    → (ts : List ℕ) × (repeat_until fuel period end_time t ≡ some ts)
      × ((x : ℕ) → has_time x ts ≡ true → (t ≤ x) × (x < end_time) × (k : ℕ) × (x ≡ t + period * k))
      × ((k : ℕ) → t + period * k < end_time → has_time (t + period * k) ts ≡ true)
unfolding repeat_until has_time
repeat_until-total zero period end_time t pos h = absurd (omega arith)
repeat_until-total (suc fuel) period end_time t pos h = elim (Bool-cases (ltb t end_time)) [
  | inr over ↦ ([], rw (over, repeat_until) refl, λ x e. cc, λ k lt. ground (arith, over))
  | inl more ↦
      let (ts, e, sound, complete) =
        repeat_until-total fuel period end_time (t + period) pos (ground arith) in
      (
        t ∷ ts,
        rw (more, repeat_until) (rw e refl),
        λ x found. elim (Bool-cases (t == x)) [
          | inl here ↦ (ground arith, ground arith, 0, ground arith)
          | inr later ↦
              let (low, high, k, run) = sound x (rw later at found) in
              (omega arith, high, k + 1, omega arith)
        ],
        complete_cons t period end_time ts complete,
      )
]

-- the start of the stretch in which runs are looked for
abbrev pub limit_of : ℕ → ℕ → Bool → ℕ
limit_of first_day today scheduled = if scheduled then max first_day today else first_day

abbrev week_end : ℕ → ℕ
week_end first_day = first_day + num_days * day_millis

-- some piece starts at the instant `x`
abbrev pub starts : ℕ → List Piece → Bool
starts x ps = any (λ p. p.time == x) ps

starts-map :
    (it : Item) (x : ℕ) (ts : List ℕ)
    → starts x (map (λ t. piece_of it t it.length) ts) ≡ has_time x ts
unfolding has_time
starts-map it x [] = refl
starts-map it x (t ∷ ts) = ground (arith, starts-map it x ts)

-- What `processItem` hands to `addItem` for an item with a period of more than an hour.
pub record AreRuns (first_day limit : ℕ) (it : Item) (ps : List Piece) : Type 0 where
  pub sound :
      (x : ℕ)
      → starts x ps ≡ true
      → (limit ≤ x) × (x < week_end first_day) × (k : ℕ) × (x ≡ it.time + it.period * k)
  pub complete :
      (k : ℕ)
      → limit ≤ it.time + it.period * k
      → it.time + it.period * k < week_end first_day
      → starts (it.time + it.period * k) ps ≡ true

later_run_eq :
    (first period t round k : ℕ)
    → t ≡ first + period * round
    → t ≤ first + period * k
    → first + period * k ≡ t + period * (k - round)
later_run_eq first period t round k e h = elim (Bool-cases (leb round k)) [
  | inl after ↦
      let split : k ≡ round + (k - round) = omega (arith, leb→le round k after) in
      omega (arith, ap (λ (x : ℕ). period * x) split)
  | inr before ↦
      let less : k ≤ round = ground arith in
      let gone : k - round ≡ 0 = omega arith in
      omega (arith, mul-le-mul_left period less, ap (λ (x : ℕ). period * x) gone)
]

process_item-long :
    (first_day today : ℕ) (scheduled : Bool) (it : Item) (t : ℕ) (ts : List ℕ)
    → hour_millis < it.period
    → catch_up 2 it.period
        (limit_of first_day today scheduled)
        (skip_periods it.time it.period (limit_of first_day today scheduled))
      ≡ some t
    → repeat_until (week_end first_day + 1) it.period (week_end first_day) t ≡ some ts
    → process_item first_day today scheduled it ≡ some (map (λ t'. piece_of it t' it.length) ts)
unfolding process_item
process_item-long first_day today scheduled it t ts h found all =
    let some_period : (it.period == 0) ≡ false = ground arith in
    let long : leb it.period hour_millis ≡ false = ground arith in
    rw (some_period, process_item) (rw found (rw long (rw all refl)))

-- A run from the limit on is a whole number of periods after the first one.
later_run :
    (first period limit t : ℕ)
    → IsFirstRun first period limit t
    → (k : ℕ) → limit ≤ first + period * k
    → (j : ℕ) × (first + period * k ≡ t + period * j)
later_run first period limit t run k h =
    (k - run.round, later_run_eq first period t run.round k run.is_run (run.least k h))

-- For an item with a period of more than an hour `processItem` ends, and the pieces start exactly at the runs of
-- the item, at whole periods after its first time, that fall between the limit and the end of the
-- week. The limit is the start of the week, and for a scheduled item not before the present.
pub process_item-AreRuns :
    (first_day today : ℕ) (scheduled : Bool) (it : Item)
    → hour_millis < it.period
    → (ps : List Piece) × (process_item first_day today scheduled it ≡ some ps)
      × AreRuns first_day (limit_of first_day today scheduled) it ps
unfolding process_item
process_item-AreRuns first_day today scheduled it h =
    let limit = limit_of first_day today scheduled in
    let (t, found, run) = catch_up-IsFirstRun it.time it.period limit (omega arith) in
    let (ts, all, sound, complete) =
      repeat_until-total (week_end first_day + 1) it.period (week_end first_day) t (omega arith)
        (omega arith) in
    (
      map (λ t'. piece_of it t' it.length) ts,
      process_item-long first_day today scheduled it t ts h found all,
      record {
        sound = λ x start.
            let (low, high, k, at) = sound x (sym (starts-map it x ts) ∙ start) in
            (omega (arith, run.reached), high, run.round + k, omega (arith, run.is_run));
        complete = λ k low high.
            let e = later_run it.time it.period limit t run k low in
            rw e.1 (starts-map it (t + it.period * e.0) ts ∙ complete e.0 (rw e.1 at high));
      },
    )
