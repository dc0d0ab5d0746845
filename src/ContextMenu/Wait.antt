-- ===== src/ContextMenu/Wait.antt =====
-- The item where the mouse rests, and its timer (src/web/js/azkaban.context.menu.js).
use mathlib.Core.Bool.{false≢true}
use azkaban.Prelude.{
  ℕ, zero, suc, List, [], ◌∷◌, ◌++◌, none, some, true, false, ◌≡◌, ◌⊎◌, refl, sym, ◌∙◌, ap, arith,
  inl, inr, Bool-cases, get_elem?,
}
use azkaban.ContextMenu.{Div, is_shown}
use azkaban.ContextMenu.Hover.{
  Page, hide_sub_menus, show_div, mouse_enter, mouse_leave, time_out, click_body, open_menu,
  drop_timer, is_sub, with_divs, Step, enter, leave, end_timer, close, open_at, Reach, here, next,
  opened,
}

sub-hide : (n : ℕ) (divs : List Div) → is_sub n (hide_sub_menus divs) ≡ is_sub n divs
sub-hide n [] = refl
sub-hide n (d ∷ divs) = ground (arith, sub-hide n divs)

sub-show : (n i : ℕ) (divs : List Div) → is_sub n (show_div i divs) ≡ is_sub n divs
sub-show n i [] = refl
sub-show n i (d ∷ divs) = ground (arith, sub-show n i divs)

shown-show_self :
    (n : ℕ) (divs : List Div) → is_sub n divs ≡ true → is_shown n (show_div n divs) ≡ true
shown-show_self n [] h = absurd (ground (arith, h))
shown-show_self n (d ∷ divs) h = ground (arith, h, shown-show_self n divs)

shown-show_other :
    (n i : ℕ) (divs : List Div) → is_shown n divs ≡ true → is_shown n (show_div i divs) ≡ true
shown-show_other n i [] h = absurd (ground (arith, h))
shown-show_other n i (d ∷ divs) h = ground (arith, h, shown-show_other n i divs)

-- The item's timer runs.
abbrev Runs : ℕ → List ℕ → Type 0
Runs n timers = (i : ℕ) × (get_elem? timers i ≡ some n)

Runs-append : (n : ℕ) (timers : List ℕ) → Runs n (timers ++ n ∷ [])
Runs-append n [] = (0, refl)
Runs-append n (t ∷ timers) = let (i, e) = Runs-append n timers in (suc i, e)

-- the end of one timer
Runs-drop_timer :
    (n m : ℕ) (timers : List ℕ) (i : ℕ)
    → get_elem? timers i ≡ some m
    → Runs n timers
    → (n ≡ m) ⊎ Runs n (drop_timer i timers)
Runs-drop_timer n m [] i ends (j, at) = absurd (ground (arith, ends))
Runs-drop_timer n m (t ∷ timers) zero ends (zero, at) = inl (ground (arith, ends, at))
Runs-drop_timer n m (t ∷ timers) zero ends (suc j, at) = inr (j, at)
Runs-drop_timer n m (t ∷ timers) (suc i) ends (zero, at) = inr (zero, at)
Runs-drop_timer n m (t ∷ timers) (suc i) ends (suc j, at) =
    elim (Runs-drop_timer n m timers i ends (j, at)) [
      | inl same ↦ inl same
      | inr (k, later) ↦ inr (suc k, later)
    ]

-- The item that the mouse is over is selected, and its submenu is shown or its timer runs.
abbrev Waits : Page → Type 0
Waits p =
    (n : ℕ)
    → p.over ≡ some n
    → (p.selected n ≡ true)
      × (is_sub n p.document.placed ≡ true)
      × (Runs n p.timers ⊎ (is_shown n p.document.placed ≡ true))

some_injective : {a b : ℕ} → some a ≡ some b → b ≡ a
some_injective e = cc

enter-Waits : (n : ℕ) (p : Page) → is_sub n p.document.placed ≡ true → Waits (mouse_enter n p)
unfolding mouse_enter
enter-Waits n p there i at =
    let same : i ≡ n = some_injective at in
    rw same (ground arith, sub-hide n p.document.placed ∙ there, inl (Runs-append n p.timers))

-- The timer of a selected item ended, and its submenu is shown.
shown-Waits :
    (i m : ℕ) (p : Page)
    → get_elem? p.timers i ≡ some m
    → Waits p
    → Waits
        (record p { document = with_divs (show_div m) p.document; timers = drop_timer i p.timers })
shown-Waits i m p ends w n at =
    let (chosen, sub, waiting) = w n at in
    let divs = p.document.placed in
    (
      chosen,
      sub-show n m divs ∙ sub,
      elim waiting [
        | inl runs ↦ elim (Runs-drop_timer n m p.timers i ends runs) [
          | inl same ↦
              inr (ap (λ k. is_shown n (show_div k divs)) (sym same) ∙ shown-show_self n divs sub)
          | inr later ↦ inl later
        ]
        | inr before ↦ inr (shown-show_other n m divs before)
      ],
    )

-- The timer of an item that the mouse left ended.
missed-Waits :
    (i m : ℕ) (p : Page)
    → get_elem? p.timers i ≡ some m
    → p.selected m ≡ false
    → Waits p
    → Waits (record p { timers = drop_timer i p.timers })
missed-Waits i m p ends left w n at =
    let (chosen, sub, waiting) = w n at in
    (
      chosen,
      sub,
      elim waiting [
        | inl runs ↦ elim (Runs-drop_timer n m p.timers i ends runs) [
          | inl same ↦ absurd (false≢true (sym left ∙ (ap p.selected (sym same) ∙ chosen)))
          | inr later ↦ inl later
        ]
        | inr before ↦ inr before
      ],
    )

time_out-Waits :
    (i m : ℕ) (p : Page)
    → get_elem? p.timers i ≡ some m
    → Waits p
    → Waits (time_out m (record p { timers = drop_timer i p.timers }))
unfolding time_out
time_out-Waits i m p ends w = elim (Bool-cases (p.selected m)) [
  | inl chosen ↦ rw chosen (shown-Waits i m p ends w)
  | inr left ↦ rw left (missed-Waits i m p ends left w)
]

nowhere-Waits : (p : Page) → p.over ≡ none → Waits p
nowhere-Waits p away n at = absurd (ground (arith, at, away))

Step-Waits : {p q : Page} → Step p q → Waits p → Waits q
unfolding mouse_leave click_body open_menu
Step-Waits (enter n p there away) w = enter-Waits n p there
Step-Waits (leave n p at) w = nowhere-Waits (mouse_leave n p) refl
Step-Waits (end_timer i n p ends) w = time_out-Waits i n p ends w
Step-Waits (close p) w = nowhere-Waits (click_body p) refl
Step-Waits (open_at menu p) w = nowhere-Waits (open_menu menu p) refl

Reach-Waits : {p : Page} → Reach opened p → Waits p
Reach-Waits here = nowhere-Waits opened refl
Reach-Waits (next r st) = Step-Waits st (Reach-Waits r)

shown_now :
    (i n : ℕ) (p : Page)
    → p.selected n ≡ true
    → is_sub n p.document.placed ≡ true
    → (is_shown n (time_out n (record p { timers = drop_timer i p.timers })).document.placed ≡ true)
      × ((time_out n (record p { timers = drop_timer i p.timers })).over ≡ p.over)
unfolding time_out
shown_now i n p chosen sub = rw chosen (shown-show_self n p.document.placed sub, refl)

-- Wherever the mouse came to rest at an item with a submenu, the submenu is shown already, or the end of
-- the item's timer, with the mouse where it is, shows it.
pub Reach-time_out :
    (p : Page) (n : ℕ)
    → Reach opened p
    → p.over ≡ some n
    → (is_shown n p.document.placed ≡ true)
      ⊎ ((q : Page) × Step p q × (q.over ≡ some n) × (is_shown n q.document.placed ≡ true))
Reach-time_out p n r at =
    let (chosen, sub, waiting) = Reach-Waits r n at in
    elim waiting [
      | inl (i, runs) ↦
          let (seen, rests) = shown_now i n p chosen sub in
          inr (
            time_out n (record p { timers = drop_timer i p.timers }),
            end_timer i n p runs,
            rests ∙ at,
            seen,
          )
      | inr before ↦ inl before
    ]
