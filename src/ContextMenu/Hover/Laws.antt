-- ===== src/ContextMenu/Hover/Laws.antt =====
-- Which submenu is shown, after any events (src/web/js/azkaban.context.menu.js).
use azkaban.Prelude.{
  ℕ, ◌<◌, List, [], ◌∷◌, Option, none, some, Bool, true, false, ◌≡◌, ◌⊎◌, refl, sym, ◌∙◌, ap, arith,
  inl, inr, Bool-cases, leb,
}
use azkaban.ContextMenu.{Menu, Div, Document, find, remove_menus, is_shown}
use azkaban.ContextMenu.Setup.{IsFresh, show-NoneShown}
use azkaban.ContextMenu.Hover.{
  Page, hide_sub_menus, show_div, with_divs, mouse_enter, mouse_leave, time_out, click_body,
  open_menu, drop_timer, is_sub, is_placed, Step, enter, leave, end_timer, close, open_at, Reach,
  here, next, opened,
}

-- The item that the mouse came to last: only its submenu can be shown or wait to be.
record Sits (p : Page) : Type 0 where
  last : Option ℕ
  fresh : IsFresh p.document
  known : (n : ℕ) → p.selected n ≡ true → n < p.document.made
  at_mouse : (n : ℕ) → p.selected n ≡ true → is_placed n p.document.placed ≡ true → p.over ≡ some n
  at_last : (n : ℕ) → p.over ≡ some n → last ≡ some n
  shown : (n : ℕ) → is_shown n p.document.placed ≡ true → last ≡ some n

hidden_subs : (n : ℕ) (divs : List Div) → is_shown n (hide_sub_menus divs) ≡ false
hidden_subs n [] = refl
hidden_subs n (d ∷ divs) = ground (arith, hidden_subs n divs)

placed-hide : (n : ℕ) (divs : List Div) → is_placed n (hide_sub_menus divs) ≡ is_placed n divs
placed-hide n [] = refl
placed-hide n (d ∷ divs) = ground (arith, placed-hide n divs)

placed-show : (n i : ℕ) (divs : List Div) → is_placed n (show_div i divs) ≡ is_placed n divs
placed-show n i [] = refl
placed-show n i (d ∷ divs) = ground (arith, placed-show n i divs)

shown-show :
    (n i : ℕ) (divs : List Div)
    → is_shown n (show_div i divs) ≡ true
    → (is_shown n divs ≡ true) ⊎ ((n ≡ i) × (is_placed n divs ≡ true))
shown-show n i [] h = absurd (ground (arith, h))
shown-show n i (d ∷ divs) h = ground (arith, h, shown-show n i divs)

sub-placed : (n : ℕ) (divs : List Div) → is_sub n divs ≡ true → is_placed n divs ≡ true
sub-placed n divs h = ground (arith, h)

not_placed : (n : ℕ) (divs : List Div) → is_placed n divs ≡ false → find n divs ≡ none
not_placed n divs h = ground (arith, h)

same_placed-IsFresh :
    (doc : Document) (f : List Div → List Div)
    → ((n : ℕ) (divs : List Div) → is_placed n (f divs) ≡ is_placed n divs)
    → IsFresh doc
    → IsFresh (with_divs f doc)
same_placed-IsFresh doc f same fresh n above = not_placed n (f doc.placed) (
    same n doc.placed
    ∙ ap (λ o. elim o as (λ _. Bool) [ none ↦ false | some _ ↦ true ]) (fresh n above))

placed-made : (doc : Document) (n : ℕ) → IsFresh doc → is_placed n doc.placed ≡ true → n < doc.made
placed-made doc n fresh h = elim (Bool-cases (leb doc.made n)) [
  | inl above ↦ absurd (ground (arith, h, fresh n (ground (arith, above))))
  | inr below ↦ ground (arith, below)
]

enter-Sits :
    (n : ℕ) (p : Page)
    → is_placed n p.document.placed ≡ true
    → p.over ≡ none
    → Sits p
    → Sits (mouse_enter n p)
unfolding mouse_enter
enter-Sits n p there away s = record {
  last = some n;
  fresh = same_placed-IsFresh p.document hide_sub_menus placed-hide s.fresh;
  known = λ i h. ground (arith, h, s.known i, placed-made p.document n s.fresh there);
  at_mouse = λ i h k.
      let before : is_placed i p.document.placed ≡ true =
        sym (placed-hide i p.document.placed) ∙ k in
      ground (arith, h, away, s.at_mouse i, before);
  at_last = λ i h. h;
  shown = λ i h. absurd (ground (arith, h, hidden_subs i p.document.placed));
}

leave-Sits : (n : ℕ) (p : Page) → p.over ≡ some n → Sits p → Sits (mouse_leave n p)
unfolding mouse_leave
leave-Sits n p at s = record {
  last = s.last;
  fresh = s.fresh;
  known = λ i h. ground (arith, h, s.known i);
  at_mouse = λ i h k. absurd (ground (arith, h, k, at, s.at_mouse i));
  at_last = λ i h. absurd (ground (arith, h));
  shown = s.shown;
}

time_out-Sits :
    (n : ℕ) (p : Page) (timers : List ℕ) → Sits p → Sits (time_out n (record p { timers = timers }))
unfolding time_out
time_out-Sits n p timers s = elim (Bool-cases (p.selected n)) [
  | inl e ↦ rw e (record {
    last = s.last;
    fresh = same_placed-IsFresh p.document (show_div n) (λ i. placed-show i n) s.fresh;
    known = s.known;
    at_mouse = λ i h k. s.at_mouse i h (sym (placed-show i n p.document.placed) ∙ k);
    at_last = s.at_last;
    shown = λ i h. elim (shown-show i n p.document.placed h) [
      | inl before ↦ s.shown i before
      | inr (same, there) ↦ s.at_last i (s.at_mouse i (ap p.selected same ∙ e) there)
    ];
  })
  | inr e ↦ rw e (record {
    last = s.last;
    fresh = s.fresh;
    known = s.known;
    at_mouse = s.at_mouse;
    at_last = s.at_last;
    shown = s.shown;
  })
]

close-Sits : (p : Page) → Sits p → Sits (click_body p)
unfolding click_body remove_menus
close-Sits p s = record {
  last = none;
  fresh = λ n above. refl;
  known = s.known;
  at_mouse = λ i h k. absurd (ground (arith, k));
  at_last = λ i h. h;
  shown = λ i h. absurd (ground (arith, h));
}

open-Sits : (menu : Menu) (p : Page) → Sits p → Sits (open_menu menu p)
unfolding open_menu
open-Sits menu p s =
    let (fresh', none_shown, more, gone) = show-NoneShown menu p.document in
    record {
      last = none;
      fresh = fresh';
      known = λ i h. omega (arith, more, s.known i h);
      at_mouse = λ i h k. absurd (ground (arith, k, gone i (s.known i h)));
      at_last = λ i h. h;
      shown = λ i h. absurd (ground (arith, h, none_shown i));
    }

Step-Sits : {p q : Page} → Step p q → Sits p → Sits q
Step-Sits (enter n p there away) s = enter-Sits n p (sub-placed n p.document.placed there) away s
Step-Sits (leave n p at) s = leave-Sits n p at s
Step-Sits (end_timer i n p waits) s = time_out-Sits n p (drop_timer i p.timers) s
Step-Sits (close p) s = close-Sits p s
Step-Sits (open_at menu p) s = open-Sits menu p s

Reach-Sits : {p q : Page} → Reach p q → Sits p → Sits q
Reach-Sits here s = s
Reach-Sits (next r st) s = Step-Sits st (Reach-Sits r s)

opened-Sits : Sits opened
opened-Sits = record {
  last = none;
  fresh = λ n above. refl;
  known = λ n h. absurd (ground (arith, h));
  at_mouse = λ n h k. absurd (ground (arith, h));
  at_last = λ n h. h;
  shown = λ n h. absurd (ground (arith, h));
}

-- However the mouse moves, timers end, menus are opened and clicks come in turn, at most one submenu is
-- shown; where the mouse is over an item with a submenu, no other one's is.
pub Reach-is_shown :
    (p : Page) (i j : ℕ)
    → Reach opened p
    → is_shown i p.document.placed ≡ true
    → (is_shown j p.document.placed ≡ true → i ≡ j) × (p.over ≡ some j → i ≡ j)
Reach-is_shown p i j r shown =
    let s = Reach-Sits r opened-Sits in
    let at_i = s.shown i shown in
    (λ other. ground (arith, at_i, s.shown j other), λ over. ground (arith, at_i, s.at_last j over))
