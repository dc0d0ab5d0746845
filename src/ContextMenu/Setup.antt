-- ===== src/ContextMenu/Setup.antt =====
-- The elements that `setupMenu` makes, and the menu that they are made from
-- (src/web/js/azkaban.context.menu.js).
use azkaban.Prelude.{
  ℕ, ◌≤◌, ◌<◌, List, [], ◌∷◌, none, some, Bool, true, false, not, ◌≡◌, refl, ◌∙◌, arith, inl, inr,
  Bool-cases, ltb, ltb→lt,
}
use azkaban.Prelude.Sort.{count}
use azkaban.ContextMenu.{
  Entry, Menu, separator, plain, with_submenu, nil, cons, MenuItem, break_item, item, Div, Document,
  new_div, place, as_sub_menu, made_one, setup_items, setup_item, setup_menu, remove_menus, show,
  find, is_shown,
}

-- The items show the entries in order, and each submenu in a hidden `div` of its own.
abbrev mutual
  pub ShowsItems : List Div → Menu → List MenuItem → Type 0
  ShowsItems divs nil [] = Unit {0}
  ShowsItems divs nil (_ ∷ _) = ⊥
  ShowsItems divs (cons e es) [] = ⊥
  ShowsItems divs (cons e es) (it ∷ its) = ShowsItem divs e it × ShowsItems divs es its

  pub ShowsItem : List Div → Entry → MenuItem → Type 0
  ShowsItem divs separator break_item = Unit {0}
  ShowsItem divs separator (item _ _) = ⊥
  ShowsItem divs (plain title) break_item = ⊥
  ShowsItem divs (plain title) (item label none) = label ≡ title
  ShowsItem divs (plain title) (item label (some _)) = ⊥
  ShowsItem divs (with_submenu title menu) break_item = ⊥
  ShowsItem divs (with_submenu title menu) (item label none) = ⊥
  ShowsItem divs (with_submenu title menu) (item label (some n)) =
      (label ≡ title)
      × (div : Div) × (find n divs ≡ some div)
      × (div.is_sub_menu ≡ true)
      × (div.is_hidden ≡ true)
      × ShowsItems divs menu div.items

abbrev Extends : List Div → List Div → Type 0
Extends divs divs' = (n : ℕ) (div : Div) → find n divs ≡ some div → find n divs' ≡ some div

mutual
  ShowsItems-Extends :
      (divs divs' : List Div) (es : Menu) (its : List MenuItem)
      → Extends divs divs'
      → ShowsItems divs es its
      → ShowsItems divs' es its
  ShowsItems-Extends divs divs' nil [] x s = tt
  ShowsItems-Extends divs divs' nil (_ ∷ _) x s = absurd s
  ShowsItems-Extends divs divs' (cons e es) [] x s = absurd s
  ShowsItems-Extends divs divs' (cons e es) (it ∷ its) x (s, ss) =
      (ShowsItem-Extends divs divs' e it x s, ShowsItems-Extends divs divs' es its x ss)

  ShowsItem-Extends :
      (divs divs' : List Div) (e : Entry) (it : MenuItem)
      → Extends divs divs'
      → ShowsItem divs e it
      → ShowsItem divs' e it
  ShowsItem-Extends divs divs' separator break_item x s = tt
  ShowsItem-Extends divs divs' separator (item _ _) x s = absurd s
  ShowsItem-Extends divs divs' (plain title) break_item x s = absurd s
  ShowsItem-Extends divs divs' (plain title) (item label none) x s = s
  ShowsItem-Extends divs divs' (plain title) (item label (some _)) x s = absurd s
  ShowsItem-Extends divs divs' (with_submenu title menu) break_item x s = absurd s
  ShowsItem-Extends divs divs' (with_submenu title menu) (item label none) x s = absurd s
  ShowsItem-Extends divs divs' (with_submenu title menu) (item label (some n)) x
        (e, div, found, sub, hidden, s) =
      (e, div, x n div found, sub, hidden, ShowsItems-Extends divs divs' menu div.items x s)

-- No element has a number that is not given yet.
abbrev pub IsFresh : Document → Type 0
IsFresh doc = (n : ℕ) → doc.made ≤ n → find n doc.placed ≡ none

abbrev pub is_open : Div → Bool
is_open div = not div.is_hidden

abbrev pub NoneShown : Document → Type 0
NoneShown doc = (n : ℕ) → is_shown n doc.placed ≡ false

-- What making more elements keeps.
record Grown (doc doc' : Document) : Type 0 where
  more : doc.made ≤ doc'.made
  old : (n : ℕ) → n < doc.made → find n doc'.placed ≡ find n doc.placed
  fresh : IsFresh doc'
  opened : count is_open doc'.placed ≡ count is_open doc.placed
  shown : NoneShown doc → NoneShown doc'

Grown-Extends :
    (doc doc' : Document) → IsFresh doc → Grown doc doc' → Extends doc.placed doc'.placed
Grown-Extends doc doc' f g n div found = elim (Bool-cases (ltb n doc.made)) [
  | inl below ↦ g.old n (ltb→lt n doc.made below) ∙ found
  | inr above ↦ ground (arith, f n (ground (arith, above)), found)
]

Grown-trans : (a b c : Document) → Grown a b → Grown b c → Grown a c
Grown-trans a b c g h =
    let first = g.more in
    let second = h.more in
    record {
      more = omega (arith, first, second);
      old = λ n below. h.old n (omega (arith, first, below)) ∙ g.old n below;
      fresh = h.fresh;
      opened = h.opened ∙ g.opened;
      shown = λ s. h.shown (g.shown s);
    }

-- A submenu goes to a document that grew from one where its number was the next.
Grown-place :
    (doc doc' : Document) (div : Div)
    → div.number ≡ doc.made
    → is_open div ≡ false
    → Grown (made_one doc) doc'
    → Grown doc (place div doc')
Grown-place doc doc' div e closed g =
    let more' = g.more in
    record {
      more = omega (arith, more');
      old = λ n below. ground (arith, e, below, g.old n (omega (arith, below)));
      fresh = λ n above. ground (arith, e, above, more', g.fresh n (omega (arith, above)));
      opened = ground (arith, closed, g.opened);
      shown = λ s n. ground (arith, closed, g.shown s n);
    }

made_one-IsFresh : (doc : Document) → IsFresh doc → IsFresh (made_one doc)
made_one-IsFresh doc f n above = f n (omega (arith, above))

mutual
  unfolding setup_items

  setup_items-Grown :
      (own : ℕ) (es : Menu) (doc : Document) → IsFresh doc → Grown doc (setup_items own es doc).1
  setup_items-Grown own nil doc f = record {
    more = omega arith;
    old = λ n below. refl;
    fresh = f;
    opened = refl;
    shown = λ s. s;
  }
  setup_items-Grown own (cons e es) doc f =
      let doc' = (setup_item own e doc).1 in
      let g = setup_item-Grown own e doc f in
      Grown-trans doc doc' (setup_items own es doc').1 g (setup_items-Grown own es doc' g.fresh)

  setup_item-Grown :
      (own : ℕ) (e : Entry) (doc : Document) → IsFresh doc → Grown doc (setup_item own e doc).1
  setup_item-Grown own separator doc f = record {
    more = omega arith;
    old = λ n below. refl;
    fresh = f;
    opened = refl;
    shown = λ s. s;
  }
  setup_item-Grown own (plain title) doc f = record {
    more = omega arith;
    old = λ n below. refl;
    fresh = f;
    opened = refl;
    shown = λ s. s;
  }
  setup_item-Grown own (with_submenu title menu) doc f =
      Grown-place doc (setup_items doc.made menu (made_one doc)).1
        (as_sub_menu own (new_div doc.made (setup_items doc.made menu (made_one doc)).0)) refl refl
        (setup_items-Grown doc.made menu (made_one doc) (made_one-IsFresh doc f))

find-placed :
    (doc doc' : Document) (div : Div)
    → div.number ≡ doc.made
    → find doc.made (place div doc').placed ≡ some div
find-placed doc doc' div e = ground (arith, e)

-- A number that no element has is nobody's: placing it takes none from view.
place-Extends :
    (doc : Document) (div : Div)
    → find div.number doc.placed ≡ none
    → Extends doc.placed (place div doc).placed
place-Extends doc div free n d found = ground (arith, free, found)

mutual
  unfolding setup_items

  setup_items-ShowsItems :
      (own : ℕ) (es : Menu) (doc : Document)
      → IsFresh doc
      → ShowsItems (setup_items own es doc).1.placed es (setup_items own es doc).0
  setup_items-ShowsItems own nil doc f = tt
  setup_items-ShowsItems own (cons e es) doc f =
      let doc' = (setup_item own e doc).1 in
      let doc'' = (setup_items own es doc').1 in
      let f' = (setup_item-Grown own e doc f).fresh in
      let grown = Grown-Extends doc' doc'' f' (setup_items-Grown own es doc' f') in
      (
        ShowsItem-Extends doc'.placed doc''.placed e (setup_item own e doc).0 grown
            (setup_item-ShowsItem own e doc f),
        setup_items-ShowsItems own es doc' f',
      )

  setup_item-ShowsItem :
      (own : ℕ) (e : Entry) (doc : Document)
      → IsFresh doc
      → ShowsItem (setup_item own e doc).1.placed e (setup_item own e doc).0
  setup_item-ShowsItem own separator doc f = tt
  setup_item-ShowsItem own (plain title) doc f = refl
  setup_item-ShowsItem own (with_submenu title menu) doc f =
      let made = setup_items doc.made menu (made_one doc) in
      let div = as_sub_menu own (new_div doc.made made.0) in
      let f' = made_one-IsFresh doc f in
      let g = setup_items-Grown doc.made menu (made_one doc) f' in
      let free = g.old doc.made (omega arith) ∙ f doc.made (omega arith) in
      (
        refl,
        div,
        find-placed doc made.1 div refl,
        refl,
        refl,
        ShowsItems-Extends made.1.placed (place div made.1).placed menu made.0
            (place-Extends made.1 div free)
            (setup_items-ShowsItems doc.made menu (made_one doc) f'),
      )

emptied-IsFresh : (doc : Document) → IsFresh (remove_menus doc)
unfolding remove_menus
emptied-IsFresh doc n above = refl

-- After `show` no submenu is shown, and no element has a number that was given before.
pub show-NoneShown :
    (menu : Menu) (doc : Document)
    → IsFresh (show menu doc)
      × NoneShown (show menu doc)
      × (doc.made ≤ (show menu doc).made)
      × ((n : ℕ) → n < doc.made → find n (show menu doc).placed ≡ none)
unfolding show setup_menu remove_menus
show-NoneShown menu doc =
    let start = made_one (remove_menus doc) in
    let g =
      setup_items-Grown doc.made menu start
        (made_one-IsFresh (remove_menus doc) (emptied-IsFresh doc)) in
    let more' = g.more in
    (
      λ n above. ground (arith, more', above, g.fresh n above),
      λ n. ground (arith, g.shown (λ _. refl) n),
      omega (arith, more'),
      λ n below. ground (arith, below, g.old n (omega (arith, below))),
    )

-- After `show`, the element that it makes is in the document and shows the entries of the menu in their
-- order, with each submenu of them, at every depth, in a hidden element of its own; no other element is
-- open, whatever menus were there before.
pub show-ShowsItems :
    (menu : Menu) (doc : Document)
    → (div : Div) × (find doc.made (show menu doc).placed ≡ some div)
      × ShowsItems (show menu doc).placed menu div.items
      × (count is_open (show menu doc).placed ≡ 1)
unfolding show setup_menu remove_menus
show-ShowsItems menu doc =
    let start = made_one (remove_menus doc) in
    let f = made_one-IsFresh (remove_menus doc) (emptied-IsFresh doc) in
    let made = setup_items doc.made menu start in
    let div = new_div doc.made made.0 in
    let g = setup_items-Grown doc.made menu start f in
    let opened = g.opened in
    let free = g.old doc.made (omega arith) in
    (
      div,
      find-placed doc made.1 div refl,
      ShowsItems-Extends made.1.placed (place div made.1).placed menu made.0
          (place-Extends made.1 div free) (setup_items-ShowsItems doc.made menu start f),
      omega (arith, opened),
    )
