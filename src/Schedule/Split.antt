-- ===== src/Schedule/Split.antt =====
-- `addItem` cuts an item at the midnights that it crosses.
use azkaban.Prelude.{
  ℕ, zero, suc, ◌+◌, ◌-◌, ◌≤◌, ◌<◌, List, [], ◌∷◌, ◌++◌, some, Bool, true, false, ◌≡◌, refl, ◌⊎◌,
  ◌&&◌, ◌||◌, any, arith, ltb, leb, ltb→lt, ◌==◌, Bool-cases, inl, inr,
}
use azkaban.Schedule.{day_millis, Piece, temp_length, rest_days, add_item}
use azkaban.Schedule.Zone.{IsZone}

-- the piece lasts over the instant `t`
abbrev covers : ℕ → Piece → Bool
covers t p = leb p.time t && ltb t (p.time + p.length)

abbrev total_length : List Piece → ℕ
total_length [] = 0
total_length (p ∷ ps) = p.length + total_length ps

abbrev Within : (ℕ → ℕ) → List Piece → Type 0
Within midnight [] = Unit {0}
Within midnight (p ∷ ps) = (p.time + p.length ≤ midnight p.time + day_millis) × Within midnight ps

-- The pieces make up the stretch of time from `time` on, each on one day.
pub record MakesUp (midnight : ℕ → ℕ) (ps : List Piece) (time length : ℕ) : Type 0 where
  pub covered : (t : ℕ) → any (covers t) ps ≡ (leb time t && ltb t (time + length))
  pub lengths : total_length ps ≡ length
  pub one_day : Within midnight ps

any-append : (f : Piece → Bool) (ps qs : List Piece) → any f (ps ++ qs) ≡ (any f ps || any f qs)
any-append f [] qs = refl
any-append f (p ∷ ps) qs = ground (arith, any-append f ps qs)

total_length-append :
    (ps qs : List Piece) → total_length (ps ++ qs) ≡ total_length ps + total_length qs
total_length-append [] qs = omega arith
total_length-append (p ∷ ps) qs = omega (arith, total_length-append ps qs)

Within-append :
    (midnight : ℕ → ℕ) (ps qs : List Piece)
    → Within midnight ps
    → Within midnight qs
    → Within midnight (ps ++ qs)
Within-append midnight [] qs a b = b
Within-append midnight (p ∷ ps) qs (h, a) b = (h, Within-append midnight ps qs a b)

module _ {midnight : ℕ → ℕ} where
  pub MakesUp-append :
      (ps qs : List Piece) (time a b : ℕ)
      → MakesUp midnight ps time a
      → MakesUp midnight qs (time + a) b
      → MakesUp midnight (ps ++ qs) time (a + b)
  MakesUp-append ps qs time a b x y = record {
    covered = λ t. ground (arith, any-append (covers t) ps qs, x.covered t, y.covered t);
    lengths = omega (arith, total_length-append ps qs, x.lengths, y.lengths);
    one_day = Within-append midnight ps qs x.one_day y.one_day;
  }

  -- in the other order
  pub MakesUp-prepend :
      (ps qs : List Piece) (time a b : ℕ)
      → MakesUp midnight ps time a
      → MakesUp midnight qs (time + a) b
      → MakesUp midnight (qs ++ ps) time (a + b)
  MakesUp-prepend ps qs time a b x y = record {
    covered = λ t. ground (arith, any-append (covers t) qs ps, x.covered t, y.covered t);
    lengths = omega (arith, total_length-append qs ps, x.lengths, y.lengths);
    one_day = Within-append midnight qs ps y.one_day x.one_day;
  }

temp_length_bounds :
    (excess : ℕ)
    → 0 < excess
    → (0 < temp_length excess)
      × (temp_length excess ≤ excess)
      × (temp_length excess ≤ day_millis)
      × ((temp_length excess ≡ excess) ⊎ (temp_length excess ≡ day_millis))
unfolding temp_length
temp_length_bounds excess h = elim (Bool-cases (ltb day_millis excess)) [
  | inl big ↦
      rw big (omega arith, omega (arith, ltb→lt day_millis excess big), omega arith, inr refl)
  | inr small ↦ rw small (h, omega arith, ground arith, inl refl)
]

module _ (midnight : ℕ → ℕ) (zone : IsZone midnight) where
  MakesUp-one :
      (p : Piece)
      → p.time + p.length ≤ midnight p.time + day_millis
      → MakesUp midnight (p ∷ []) p.time p.length
  MakesUp-one p h = record { covered = λ t. ground arith; lengths = omega arith; one_day = (h, tt) }

  -- A piece of at most a day that starts at midnight stays whole.
  add_item-at_midnight :
      (fuel : ℕ) (p : Piece)
      → midnight p.time ≡ p.time
      → p.length ≤ day_millis
      → add_item midnight (suc fuel) p ≡ some (p ∷ [])
  unfolding add_item rest_days
  add_item-at_midnight fuel p e h = elim (Bool-cases (ltb p.length day_millis)) [
    | inl short ↦
        let end = rw e at (zone.same_day p.time p.length (ltb→lt _ _ short)) in
        ground (arith, end, e)
    | inr long ↦
        let full : p.length ≡ day_millis = ground arith in
        let end = rw e at (zone.next_day p.time) in ground (arith, end, e, full)
  ]

  rest_days-MakesUp :
      (fuel rounds : ℕ) (p : Piece) (next excess : ℕ)
      → midnight next ≡ next
      → excess < rounds
      → (ps : List Piece) × (rest_days midnight (add_item midnight (suc fuel)) rounds p next excess
          ≡ some ps)
        × MakesUp midnight ps next excess
  unfolding rest_days
  rest_days-MakesUp fuel zero p next excess e h = absurd (omega arith)
  rest_days-MakesUp fuel (suc rounds) p next excess e h = elim (Bool-cases (excess == 0)) [
    | inl done ↦ (
      [],
      rw done refl,
      record { covered = λ t. ground arith; lengths = ground arith; one_day = tt },
    )
    | inr more ↦
        let len = temp_length_bounds excess (ground arith) in
        let first : Piece = record p { time = next; length = temp_length excess } in
        let whole = add_item-at_midnight fuel first e len.2 in
        let later = rw e at (zone.next_day next) in
        let (qs, eq, made) =
          rest_days-MakesUp fuel rounds p (next + day_millis) (excess - temp_length excess) later
            (omega arith) in
        (
          first ∷ qs,
          rw (more, rest_days) (rw (whole, rest_days) (rw eq refl)),
          record {
            covered = λ t. ground (arith, made.covered t);
            lengths = omega (arith, made.lengths);
            one_day = (omega arith, made.one_day);
          },
        )
  ]

  -- the part of the item on its first day
  abbrev own_part : Piece → Piece
  own_part p = record p { length = midnight p.time + day_millis - p.time }

  add_item-whole :
      (fuel : ℕ) (p : Piece)
      → (midnight (p.time + p.length) == midnight p.time) ≡ true
      → add_item midnight (suc fuel) p ≡ some (p ∷ [])
  unfolding add_item
  add_item-whole fuel p e = rw e refl

  add_item-cut :
      (fuel excess : ℕ) (p : Piece) (ps : List Piece)
      → (midnight (p.time + p.length) == midnight p.time) ≡ false
      → excess ≡ p.length - (own_part p).length
      → rest_days midnight
          (add_item midnight fuel)
          (suc excess)
          p
          (midnight p.time + day_millis)
          excess
        ≡ some ps
      → add_item midnight (suc fuel) p ≡ some (ps ++ own_part p ∷ [])
  unfolding add_item
  add_item-cut fuel excess p ps e f h = rw (e, add_item) (rw (← f) (rw h refl))

  -- An item that ends on another day lasts at least to the next midnight.
  reaches_midnight :
      (p : Piece)
      → (midnight (p.time + p.length) == midnight p.time) ≡ false
      → midnight p.time + day_millis ≤ p.time + p.length
  reaches_midnight p e =
      elim (Bool-cases (ltb (p.time + p.length) (midnight p.time + day_millis))) [
        | inr late ↦ ground arith
        | inl early ↦
            let low = zone.before p.time in
            let bound = ltb→lt (p.time + p.length) (midnight p.time + day_millis) early in
            let same = zone.same_day p.time (p.time + p.length - midnight p.time) (omega arith) in
            let point : midnight p.time + (p.time + p.length - midnight p.time)
                ≡ p.time + p.length =
              omega arith in
            absurd (differ (rw point at same))
      ]
    where
      differ : midnight (p.time + p.length) ≡ midnight p.time → ⊥
      differ same = ground (arith, e, same)

  -- In a zone without changes of the clock `addItem` ends with two levels of calls, and the pieces
  -- that it adds cover the instants of the item and no others, have its length in all, and lie on
  -- one day each.
  pub add_item-MakesUp :
      (fuel : ℕ) (p : Piece)
      → (ps : List Piece) × (add_item midnight (suc (suc fuel)) p ≡ some ps)
        × MakesUp midnight ps p.time p.length
  add_item-MakesUp fuel p = elim (Bool-cases (midnight (p.time + p.length) == midnight p.time)) [
    | inl same ↦ (
      p ∷ [],
      add_item-whole (suc fuel) p same,
      MakesUp-one p (ground (arith, zone.within (p.time + p.length))),
    )
    | inr cut ↦
        let low = zone.before p.time in
        let high = zone.within p.time in
        let long = reaches_midnight p cut in
        let excess = p.length - (midnight p.time + day_millis - p.time) in
        let (ps, e, made) =
          rest_days-MakesUp fuel (suc excess) p (midnight p.time + day_millis) excess
            (zone.next_day p.time) (omega arith) in
        (
          ps ++ own_part p ∷ [],
          add_item-cut (suc fuel) excess p ps cut refl e,
          record {
            covered =
                λ t. ground (arith, any-append (covers t) ps (own_part p ∷ []), made.covered t);
            lengths = omega (arith, total_length-append ps (own_part p ∷ []), made.lengths);
            one_day = Within-append midnight ps (own_part p ∷ []) made.one_day (omega arith, tt);
          },
        )
  ]
