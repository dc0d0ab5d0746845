-- ===== src/Schedule/Zone.antt =====
-- What the week view relies on of local time: in a stretch without a change of the clock every day
-- has 24 hours.
use azkaban.Prelude.{ℕ, ◌+◌, ◌*◌, ◌/◌, ◌≤◌, ◌<◌, ◌≡◌, arith}
use azkaban.Schedule.{day_millis}

pub record IsZone (midnight : ℕ → ℕ) : Type 0 where
  pub before : (t : ℕ) → midnight t ≤ t
  pub within : (t : ℕ) → t < midnight t + day_millis
  pub same_day : (t d : ℕ) → d < day_millis → midnight (midnight t + d) ≡ midnight t
  pub next_day : (t : ℕ) → midnight (midnight t + day_millis) ≡ midnight t + day_millis

-- Coordinated universal time is such a zone.
abbrev pub utc : ℕ → ℕ
utc t = t / day_millis * day_millis

pub utc-IsZone : IsZone utc
utc-IsZone = record {
  before = λ t. omega arith;
  within = λ t. omega arith;
  same_day = λ t d h. omega arith;
  next_day = λ t. omega arith;
}
