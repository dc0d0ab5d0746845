-- ===== src/Navigate/Drag.antt =====
-- Dragging with the mouse: `mouseUp`, `mouseDown`, `mouseOut`, `mouseMove`, `mouseDrag` and
-- `translateDeltaGraph` (src/web/js/svgNavigate.js). All events have the graph as their target.
use azkaban.Prelude.{
  ℕ, List, [], ◌∷◌, ◌++◌, Bool, true, false, ◌≡◌, ◌∙◌, ap, refl, ltb, if◌then◌else◌,
}
use azkaban.Prelude.Int.{ℤ, ◌+ℤ◌, ◌-ℤ◌, int_laws}

pub record Target : Type 0 where
  pub mx : ℤ
  pub my : ℤ
  pub m_down : Bool
  pub translate_x : ℤ
  pub translate_y : ℤ

pub data Event : Type 0 where
  up : ℕ → ℤ → ℤ → Event
  down : ℕ → ℤ → ℤ → Event
  out : ℤ → ℤ → Event
  move : ℤ → ℤ → Event

translate_delta_graph : Target → ℤ → ℤ → Target
translate_delta_graph t x y = record t {
  translate_x = t.translate_x +ℤ x;
  translate_y = t.translate_y +ℤ y;
}

-- Buttons above 1 are ignored.
handle : Target → Event → Target
unfolding translate_delta_graph
handle t (up button x y) = if ltb 1 button then t else record t { mx = x; my = y; m_down = false }
handle t (down button x y) = if ltb 1 button then t else record t { mx = x; my = y; m_down = true }
handle t (out x y) = record t { mx = x; my = y; m_down = false }
handle t (move x y) =
    let dragged = if t.m_down then translate_delta_graph t (x -ℤ t.mx) (y -ℤ t.my) else t in
    record dragged { mx = x; my = y }

pub handle_all : List Event → Target → Target
handle_all [] t = t
handle_all (e ∷ es) t = handle_all es (handle t e)

abbrev pub moves : List (ℤ × ℤ) → List Event
moves [] = []
moves ((x, y) ∷ ps) = move x y ∷ moves ps

-- the last point of a path that begins at `(x, y)`
abbrev last_point : ℤ → ℤ → List (ℤ × ℤ) → ℤ × ℤ
last_point x y [] = (x, y)
last_point x y ((x', y') ∷ ps) = last_point x' y' ps

abbrev pressed : ℤ → ℤ → ℤ → ℤ → Target
pressed x y tx ty = record { mx = x; my = y; m_down = true; translate_x = tx; translate_y = ty }

telescope : (t a b c : ℤ) → t +ℤ (b -ℤ a) +ℤ (c -ℤ b) ≡ t +ℤ (c -ℤ a)
telescope t a b c = omega int_laws

stays : (t a : ℤ) → t ≡ t +ℤ (a -ℤ a)
stays t a = omega int_laws

handle_all-moves :
    (ps : List (ℤ × ℤ)) (x y tx ty : ℤ)
    → handle_all (moves ps) (pressed x y tx ty)
      ≡ pressed
          (last_point x y ps).0
          (last_point x y ps).1
          (tx +ℤ ((last_point x y ps).0 -ℤ x))
          (ty +ℤ ((last_point x y ps).1 -ℤ y))
unfolding handle_all handle
handle_all-moves [] x y tx ty = λ i. pressed x y (stays tx x i) (stays ty y i)
handle_all-moves ((x', y') ∷ ps) x y tx ty =
    let (lx, ly) = last_point x' y' ps in
    handle_all-moves ps x' y' (tx +ℤ (x' -ℤ x)) (ty +ℤ (y' -ℤ y))
    ∙ (λ i. pressed lx ly (telescope tx x x' lx i) (telescope ty y y' ly i))

abbrev released : ℤ → ℤ → ℤ → ℤ → Target
released x y tx ty = record { mx = x; my = y; m_down = false; translate_x = tx; translate_y = ty }

released-moves :
    (qs : List (ℤ × ℤ)) (x y tx ty : ℤ)
    → ((handle_all (moves qs) (released x y tx ty)).translate_x ≡ tx)
      × ((handle_all (moves qs) (released x y tx ty)).translate_y ≡ ty)
unfolding handle_all handle
released-moves [] x y tx ty = (refl, refl)
released-moves ((x', y') ∷ qs) x y tx ty = released-moves qs x' y' tx ty

handle_all-append :
    (es fs : List Event) (t : Target) → handle_all (es ++ fs) t ≡ handle_all fs (handle_all es t)
unfolding handle_all
handle_all-append [] fs t = refl
handle_all-append (e ∷ es) fs t = handle_all-append es fs (handle t e)

-- Pressing the first button of the mouse, moving along any path and letting the button go shifts the
-- graph by the distance from where the button was pressed to the last point of the path, and further
-- moves shift it no more.
pub handle_all-drag :
    (t : Target) (x y x' y' : ℤ) (ps qs : List (ℤ × ℤ))
    → ((handle_all (down 0 x y ∷ (moves ps ++ up 0 x' y' ∷ moves qs)) t).translate_x
        ≡ t.translate_x +ℤ ((last_point x y ps).0 -ℤ x))
      × ((handle_all (down 0 x y ∷ (moves ps ++ up 0 x' y' ∷ moves qs)) t).translate_y
          ≡ t.translate_y +ℤ ((last_point x y ps).1 -ℤ y))
unfolding handle_all handle
handle_all-drag t x y x' y' ps qs =
    let start = pressed x y t.translate_x t.translate_y in
    let all = handle_all-append (moves ps) (up 0 x' y' ∷ moves qs) start in
    let dragged = handle_all-moves ps x y t.translate_x t.translate_y in
    let ends = all ∙ ap (λ s. handle_all (up 0 x' y' ∷ moves qs) s) dragged in
    let rest =
      released-moves qs x' y' (t.translate_x +ℤ ((last_point x y ps).0 -ℤ x))
        (t.translate_y +ℤ ((last_point x y ps).1 -ℤ y)) in
    (ap (λ s. s.translate_x) ends ∙ rest.0, ap (λ s. s.translate_y) ends ∙ rest.1)
