-- ===== src/Navigate/Zoom.antt =====
-- The zoom levels: `mouseScrolled`, `boundZoomLevel` and `calculateZoomLevel`
-- (src/web/js/svgNavigate.js).
use mathlib.Core.Bool.{false≢true}
use mathlib.Core.Path.{sym}
use native.Mathlib.Nat.{zero-add}
use azkaban.Prelude.{
  ℕ, suc, ◌+◌, ◌-◌, ◌/◌, ◌≤◌, ◌<◌, List, [], ◌∷◌, Option, none, some, Bool, true, false, not, ◌≡◌,
  refl, ◌∙◌, inl, inr, arith, leb, length, get_elem?, if◌then◌else◌, Bool-cases,
}

-- A turn of the wheel. `wheel_*` is `evt.wheelDelta`, `detail_*` is `evt.detail`, above and below 0.
pub data Scroll : Type 0 where
  wheel_up wheel_down detail_up detail_down : ℕ → Scroll

-- `target.zoomIndex + delta` is `level` plus the first number, less the second.
pub delta : Scroll → ℕ × ℕ
delta (wheel_up n) = ((n + 119) / 120, 0)
delta (wheel_down n) = (0, (n + 119) / 120)
delta (detail_up n) = (0, (n + 2) / 3)
delta (detail_down n) = ((n + 2) / 3, 0)

-- `boundZoomLevel` of `level + up - down`
bound_zoom_level : ℕ → ℕ → ℕ → ℕ → ℕ
bound_zoom_level num_levels level up down =
    if leb (num_levels + down) (level + up)
    then num_levels - 1
    else if leb (level + up) down
    then 0
    else level + up - down

-- the zoom index after `mouseScrolled`
pub mouse_scrolled : ℕ → ℕ → Scroll → ℕ
unfolding delta bound_zoom_level
mouse_scrolled num_levels zoom_index s =
    bound_zoom_level num_levels zoom_index (delta s).0 (delta s).1

-- the opposite turn
abbrev pub back : Scroll → Scroll
back (wheel_up n) = wheel_down n
back (wheel_down n) = wheel_up n
back (detail_up n) = detail_down n
back (detail_down n) = detail_up n

-- Scrolling keeps the zoom index among the levels; and a turn that does not meet an end of the levels
-- is undone by the opposite turn.
pub mouse_scrolled-bounds :
    (num_levels zoom_index : ℕ) (s : Scroll)
    → zoom_index < num_levels
    → (mouse_scrolled num_levels zoom_index s < num_levels)
      × (zoom_index + (delta s).0 < num_levels
          → (delta s).1 ≤ zoom_index
          → mouse_scrolled num_levels (mouse_scrolled num_levels zoom_index s) (back s)
            ≡ zoom_index)
unfolding mouse_scrolled
mouse_scrolled-bounds num_levels zoom_index (wheel_up n) h = (ground arith, λ a b. ground arith)
mouse_scrolled-bounds num_levels zoom_index (wheel_down n) h = (ground arith, λ a b. ground arith)
mouse_scrolled-bounds num_levels zoom_index (detail_up n) h = (ground arith, λ a b. ground arith)
mouse_scrolled-bounds num_levels zoom_index (detail_down n) h = (ground arith, λ a b. ground arith)

-- The scales are floating-point numbers, which are not modelled: the code that follows compares them,
-- and nothing else.
module _ {A : Type 0} (lt : A → A → Bool) where
  -- `for (; i < zoomLevels.length; ++i) { if (scale < zoomLevels[i]) { i--; break; } }`, and the test
  -- for an index below 0 that follows
  pub scan : ℕ → A → List A → ℕ
  scan i scale [] = i
  scan i scale (z ∷ zs) = if lt scale z then i - 1 else scan (suc i) scale zs

  pub last_or : A → List A → A
  last_or a [] = a
  last_or a (z ∷ zs) = last_or z zs

  -- `calculateZoomLevel` at the levels `z ∷ zs`; `a >= b` is `not (lt a b)`.
  pub calculate_zoom_level : A → A → List A → ℕ
  unfolding scan last_or
  calculate_zoom_level scale z zs =
      if not (lt scale (last_or z zs))
      then length zs
      else if not (lt z scale)
      then 0
      else scan 0 scale (z ∷ zs)

  -- the level at an index is not above the scale
  abbrev pub fits : A → Option A → Bool
  fits scale none = false
  fits scale (some z) = not (lt scale z)

  abbrev pub exceeds : A → Option A → Bool
  exceeds scale none = true
  exceeds scale (some z) = lt scale z

  get_elem?-last : (z : A) (zs : List A) → get_elem? (z ∷ zs) (length zs) ≡ some (last_or z zs)
  unfolding last_or
  get_elem?-last z [] = refl
  get_elem?-last z (y ∷ zs) = get_elem?-last y zs

  get_elem?-end : (zs : List A) → get_elem? zs (length zs) ≡ none
  get_elem?-end [] = refl
  get_elem?-end (z ∷ zs) = get_elem?-end zs

  -- `scan` stops at the first level above the scale.
  scan_lem :
      (i : ℕ) (scale z : A) (zs : List A)
      → lt scale z ≡ false
      → lt scale (last_or z zs) ≡ true
      → (j : ℕ) × (scan (suc i) scale zs ≡ i + j)
        × (fits scale (get_elem? (z ∷ zs) j) ≡ true)
        × (exceeds scale (get_elem? zs j) ≡ true)
        × (j < length zs)
  unfolding scan last_or
  scan_lem i scale z [] low high = absurd (false≢true (sym low ∙ high))
  scan_lem i scale z (y ∷ zs) low high = elim (Bool-cases (lt scale y)) [
    | inl over ↦ (0, rw (over, scan) (omega arith), rw low refl, over, omega arith)
    | inr under ↦
        let (j, e, f, x, b) = scan_lem (suc i) scale y zs under high in
        (suc j, rw (under, scan) (e ∙ omega arith), f, x, omega arith)
  ]

  -- For a scale that is not below the first level and not equal to it, the level found is not above
  -- the scale, and the next one, if there is one, is. No order of the levels is needed for this.
  pub calculate_zoom_level-brackets :
      (scale z : A) (zs : List A)
      → lt z scale ≡ true
      → lt scale z ≡ false
      → (fits scale (get_elem? (z ∷ zs) (calculate_zoom_level scale z zs)) ≡ true)
        × (exceeds scale (get_elem? zs (calculate_zoom_level scale z zs)) ≡ true)
        × (calculate_zoom_level scale z zs ≤ length zs)
  unfolding calculate_zoom_level
  calculate_zoom_level-brackets scale z zs above low = elim (Bool-cases (lt scale (last_or z zs))) [
    | inr top ↦
        rw (top, calculate_zoom_level)
          (rw (get_elem?-last z zs) (rw top refl), rw (get_elem?-end zs) refl, omega arith)
    | inl inside ↦
        let (j, e, f, x, b) = scan_lem 0 scale z zs low inside in
        rw (inside, calculate_zoom_level)
          (rw above (rw (low, scan) (rw (e ∙ zero-add j) (f, x, omega arith))))
  ]
