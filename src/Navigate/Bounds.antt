-- ===== src/Navigate/Bounds.antt =====
-- The bounds of a drawn graph: `addBounds`, and the margin that `render` adds
-- (src/web/js/azkaban.svg.graph.view.js). Coordinates are floating-point numbers: the type and what
-- the code does with them are parameters. `truthy` is false at 0 and at no value.
use azkaban.Prelude.{
  List, [], ◌∷◌, Option, none, some, Bool, true, false, ◌≡◌, inl, inr, if◌then◌else◌, arith,
  Bool-cases,
}

pub record Box {ℓ} (A : Type ℓ) : Type ℓ where
  pub min_x : A
  pub min_y : A
  pub max_x : A
  pub max_y : A

-- A coordinate that is not set yet is `none`.
pub record Bounds {ℓ} (A : Type ℓ) : Type ℓ where
  pub min_x : Option A
  pub min_y : Option A
  pub max_x : Option A
  pub max_y : Option A

abbrev pub unset {ℓ} : {A : Type ℓ} → Bounds A
unset = record { min_x = none; min_y = none; max_x = none; max_y = none }

module _ {A : Type 0} (lt : A → A → Bool) (truthy : A → Bool) where
  -- `to ? Math.min(to, add) : add` for `lt`; with the order turned round, `Math.max`
  abbrev pub merge : (A → A → Bool) → Option A → A → Option A
  merge less none add = some add
  merge less (some to) add =
      if truthy to then (if less add to then some add else some to) else some add

  abbrev pub greater : A → A → Bool
  greater a b = lt b a

  -- `addBounds`
  unfoldable pub add_bounds : Bounds A → Box A → Bounds A
  add_bounds b box = record {
    min_x = merge lt b.min_x box.min_x;
    min_y = merge lt b.min_y box.min_y;
    max_x = merge greater b.max_x box.max_x;
    max_y = merge greater b.max_y box.max_y;
  }

  -- the calls of `addBounds` for the nodes that are drawn
  unfoldable pub add_all : Bounds A → List (Box A) → Bounds A
  unfolding add_bounds
  add_all b [] = b
  add_all b (box ∷ boxes) = add_all (add_bounds b box) boxes

  -- `bounds.minX = bounds.minX ? bounds.minX - margin : -margin`, and so on
  unfoldable pub widen : (A → A) → (A → A) → A → A → Bounds A → Box A
  widen less_margin more_margin minus_margin margin b =
      let pick = λ (f : A → A) (default : A) (o : Option A). elim o as (λ _. A) [
        | none ↦ default
        | some v ↦ if truthy v then f v else default
      ] in
      record {
        min_x = pick less_margin minus_margin b.min_x;
        min_y = pick less_margin minus_margin b.min_y;
        max_x = pick more_margin margin b.max_x;
        max_y = pick more_margin margin b.max_y;
      }

  -- The coordinate of the bounds is set and `a` is not beyond it.
  abbrev pub Within : (A → A → Bool) → Option A → A → Type 0
  Within less none a = ⊥
  Within less (some to) a = less a to ≡ false

  abbrev pub Covers : Bounds A → Box A → Type 0
  Covers b box =
      Within lt b.min_x box.min_x
      × Within lt b.min_y box.min_y
      × Within greater b.max_x box.max_x
      × Within greater b.max_y box.max_y

  abbrev pub AllCovered : Bounds A → List (Box A) → Type 0
  AllCovered b [] = Unit {0}
  AllCovered b (box ∷ boxes) = Covers b box × AllCovered b boxes

  -- No coordinate of a box is 0.
  abbrev pub AreTruthy : List (Box A) → Type 0
  AreTruthy [] = Unit {0}
  AreTruthy (box ∷ boxes) =
      ((truthy box.min_x ≡ true)
        × (truthy box.min_y ≡ true)
        × (truthy box.max_x ≡ true)
        × (truthy box.max_y ≡ true))
      × AreTruthy boxes

  abbrev TruthyOption : Option A → Type 0
  TruthyOption none = Unit {0}
  TruthyOption (some a) = truthy a ≡ true

  module _ (less : A → A → Bool) (irrefl : (a : A) → less a a ≡ false)
      (trans : (a b c : A) → less a b ≡ false → less b c ≡ false → less a c ≡ false)
      (asymm : (a b : A) → less a b ≡ true → less b a ≡ false) where
    merge-TruthyOption :
        (o : Option A) (add : A)
        → TruthyOption o
        → truthy add ≡ true
        → TruthyOption (merge less o add)
    merge-TruthyOption none add h k = k
    merge-TruthyOption (some to) add h k = elim (Bool-cases (less add to)) [
      | inl e ↦ rw (h, e) k
      | inr e ↦ rw (h, e) h
    ]

    merge-Within_new :
        (o : Option A) (add : A) → TruthyOption o → Within less (merge less o add) add
    merge-Within_new none add h = irrefl add
    merge-Within_new (some to) add h = elim (Bool-cases (less add to)) [
      | inl e ↦ rw (h, e) (irrefl add)
      | inr e ↦ rw (h, e) e
    ]

    merge-Within_old :
        (o : Option A) (add a : A)
        → TruthyOption o
        → Within less o a
        → Within less (merge less o add) a
    merge-Within_old none add a h w = absurd w
    merge-Within_old (some to) add a h w = elim (Bool-cases (less add to)) [
      | inl e ↦ rw (h, e) (trans a to add w (asymm add to e))
      | inr e ↦ rw (h, e) w
    ]

  module _ (irrefl : (a : A) → lt a a ≡ false)
      (trans : (a b c : A) → lt a b ≡ false → lt b c ≡ false → lt a c ≡ false)
      (asymm : (a b : A) → lt a b ≡ true → lt b a ≡ false) where
    abbrev AreSet : Bounds A → Type 0
    AreSet b =
        TruthyOption b.min_x × TruthyOption b.min_y × TruthyOption b.max_x × TruthyOption b.max_y

    abbrev IsTruthy : Box A → Type 0
    IsTruthy box =
        (truthy box.min_x ≡ true)
        × (truthy box.min_y ≡ true)
        × (truthy box.max_x ≡ true)
        × (truthy box.max_y ≡ true)

    trans_greater : (a b c : A) → greater a b ≡ false → greater b c ≡ false → greater a c ≡ false
    trans_greater a b c h k = trans c b a k h

    asymm_greater : (a b : A) → greater a b ≡ true → greater b a ≡ false
    asymm_greater a b h = asymm b a h

    add_bounds-AreSet :
        (b : Bounds A) (box : Box A) → AreSet b → IsTruthy box → AreSet (add_bounds b box)
    unfolding add_bounds
    add_bounds-AreSet b box (p, q, r, s) (p', q', r', s') = (
      merge-TruthyOption lt irrefl trans asymm b.min_x box.min_x p p',
      merge-TruthyOption lt irrefl trans asymm b.min_y box.min_y q q',
      merge-TruthyOption greater irrefl trans_greater asymm_greater b.max_x box.max_x r r',
      merge-TruthyOption greater irrefl trans_greater asymm_greater b.max_y box.max_y s s',
    )

    add_bounds-Covers_new : (b : Bounds A) (box : Box A) → AreSet b → Covers (add_bounds b box) box
    unfolding add_bounds
    add_bounds-Covers_new b box (p, q, r, s) = (
      merge-Within_new lt irrefl trans asymm b.min_x box.min_x p,
      merge-Within_new lt irrefl trans asymm b.min_y box.min_y q,
      merge-Within_new greater irrefl trans_greater asymm_greater b.max_x box.max_x r,
      merge-Within_new greater irrefl trans_greater asymm_greater b.max_y box.max_y s,
    )

    add_bounds-Covers_old :
        (b : Bounds A) (add box : Box A) → AreSet b → Covers b box → Covers (add_bounds b add) box
    unfolding add_bounds
    add_bounds-Covers_old b add box (p, q, r, s) (w, x, y, z) = (
      merge-Within_old lt irrefl trans asymm b.min_x add.min_x box.min_x p w,
      merge-Within_old lt irrefl trans asymm b.min_y add.min_y box.min_y q x,
      merge-Within_old greater irrefl trans_greater asymm_greater b.max_x add.max_x box.max_x r y,
      merge-Within_old greater irrefl trans_greater asymm_greater b.max_y add.max_y box.max_y s z,
    )

    add_all-Covers :
        (boxes : List (Box A)) (b : Bounds A) (box : Box A)
        → AreSet b
        → AreTruthy boxes
        → Covers b box
        → Covers (add_all b boxes) box
    unfolding add_all
    add_all-Covers [] b box s t c = c
    add_all-Covers (new ∷ boxes) b box s (t, ts) c =
        add_all-Covers boxes (add_bounds b new) box (add_bounds-AreSet b new s t) ts
          (add_bounds-Covers_old b new box s c)

    add_all-AllCovered_from :
        (boxes : List (Box A)) (b : Bounds A)
        → AreSet b
        → AreTruthy boxes
        → AllCovered (add_all b boxes) boxes
    unfolding add_all
    add_all-AllCovered_from [] b s t = tt
    add_all-AllCovered_from (box ∷ boxes) b s (t, ts) =
        let set = add_bounds-AreSet b box s t in
        (
          add_all-Covers boxes (add_bounds b box) box set ts (add_bounds-Covers_new b box s),
          add_all-AllCovered_from boxes (add_bounds b box) set ts,
        )

    -- Where the coordinates are totally ordered and none of the drawn nodes' is 0, the bounds that the
    -- calls of `addBounds` make, from none, cover the box of every node.
    pub add_all-AllCovered :
        (boxes : List (Box A)) → AreTruthy boxes → AllCovered (add_all unset boxes) boxes
    add_all-AllCovered boxes t = add_all-AllCovered_from boxes unset (tt, tt, tt, tt) t

  -- A bound that is 0 counts as none: the next box takes its place. So where a node's least
  -- coordinate is 0 and the next node's is above it, the bounds do not cover the first.
  pub add_all_misses :
      (a b : Box A)
      → truthy a.min_x ≡ false
      → lt a.min_x b.min_x ≡ true
      → AllCovered (add_all unset (a ∷ b ∷ [])) (a ∷ b ∷ [])
      → ⊥
  unfolding add_all add_bounds
  add_all_misses a b zero_a above covered = ground (arith, zero_a, above, covered.0.0)
