-- ===== src/Classes/Laws.antt =====
-- The class attribute as the list of the classes in it (src/web/js/azkaban.job.status.utils.js).
use azkaban.Prelude.{
  ℕ, List, [], ◌∷◌, ◌++◌, none, some, Bool, true, false, not, ◌≡◌, refl, ap, sym, ◌∙◌, ◌&&◌, ◌||◌,
  all, any, length, if◌then◌else◌, ◌==◌, arith, inl, inr, Bool-cases,
}
use mathlib.Core.Bool.{false≢true}
use azkaban.Texts.{Text, text_eq, text_eq_iff, is_space, is_empty}
use azkaban.Classes.{match_here, match_later, has_class, add_class}

-- A word in front of others, where it is not empty.
abbrev pub flush : Text → List Text → List Text
flush [] ws = ws
flush (c ∷ w) ws = (c ∷ w) ∷ ws

-- The word at the start of a text, which may be empty, and the words after it.
abbrev pub head_word : Text → Text
head_word [] = []
head_word (c ∷ t) = if is_space c then [] else c ∷ head_word t

abbrev pub more_words : Text → List Text
more_words [] = []
more_words (c ∷ t) = if is_space c then flush (head_word t) (more_words t) else more_words t

-- the classes of an attribute, in order
abbrev pub words : Text → List Text
words t = flush (head_word t) (more_words t)

abbrev pub has_word : Text → List Text → Bool
has_word name = any (λ w. text_eq name w)

abbrev pub are_letters : Text → Bool
are_letters = all (λ c. not (is_space c))

abbrev pub is_word : Text → Bool
is_word name = not (is_empty name) && are_letters name

or_cong : {p p' q q' : Bool} → p ≡ p' → q ≡ q' → (p || q) ≡ (p' || q')
or_cong e f = cc

pub split_letters :
    (a : ℕ) (name : Text)
    → are_letters (a ∷ name) ≡ true
    → (is_space a ≡ false) × (are_letters name ≡ true)
split_letters a name h = elim (Bool-cases (is_space a)) [
  | inl e ↦ absurd (false≢true (ap (λ b. not b && are_letters name) (sym e) ∙ h))
  | inr e ↦ (e, ap (λ b. not b && are_letters name) (sym e) ∙ h)
]

pub differ : (p : ℕ → Bool) (a c : ℕ) → p a ≡ false → p c ≡ true → (a == c) ≡ false
differ p a c ha hc = elim (Bool-cases (a == c)) [
  | inl e ↦ let same : a ≡ c = ground (arith, e) in absurd (false≢true (sym ha ∙ (ap p same ∙ hc)))
  | inr e ↦ e
]

match_here-head_word :
    (name t : Text) → are_letters name ≡ true → match_here name t ≡ text_eq name (head_word t)
match_here-head_word [] [] h = refl
match_here-head_word [] (c ∷ t) h = elim (Bool-cases (is_space c)) [
  | inl e ↦ rw e refl
  | inr e ↦ rw e refl
]
match_here-head_word (a ∷ name) [] h = refl
match_here-head_word (a ∷ name) (c ∷ t) h =
    let (ha, hn) = split_letters a name h in
    let ih = match_here-head_word name t hn in
    elim (Bool-cases (is_space c)) [
      | inl e ↦ rw e (ap (◌&& match_here name t) (differ is_space a c ha e))
      | inr e ↦ rw e (ap (a == c &&◌) ih)
    ]

pub has_word-flush :
    (name w : Text) (ws : List Text)
    → is_empty name ≡ false
    → has_word name (flush w ws) ≡ (text_eq name w || has_word name ws)
has_word-flush [] w ws h = absurd (false≢true (sym h))
has_word-flush (a ∷ name) [] ws h = refl
has_word-flush (a ∷ name) (c ∷ w) ws h = refl

match_later-more_words :
    (name t : Text)
    → is_empty name ≡ false
    → are_letters name ≡ true
    → match_later name t ≡ has_word name (more_words t)
match_later-more_words name [] ne h = refl
match_later-more_words name (c ∷ t) ne h = elim (Bool-cases (is_space c)) [
  | inl e ↦ rw e (
      or_cong (match_here-head_word name t h) (match_later-more_words name t ne h)
      ∙ sym (has_word-flush name (head_word t) (more_words t) ne))
  | inr e ↦ rw e (match_later-more_words name t ne h)
]

pub is_word-split :
    (name : Text) → is_word name ≡ true → (is_empty name ≡ false) × (are_letters name ≡ true)
is_word-split [] h = absurd (false≢true h)
is_word-split (a ∷ name) h = (refl, h)

-- For a word, `hasClass` tells whether it is one of the classes of the attribute.
pub has_class-words :
    (t name : Text) → is_word name ≡ true → has_class (some t) name ≡ has_word name (words t)
unfolding has_class
has_class-words t name h =
    let (ne, letters) = is_word-split name h in
    or_cong (match_here-head_word name t letters) (match_later-more_words name t ne letters)
    ∙ sym (has_word-flush name (head_word t) (more_words t) ne)

head_word-letters : (name : Text) → are_letters name ≡ true → head_word name ≡ name
head_word-letters [] h = refl
head_word-letters (a ∷ name) h =
    let (ha, hn) = split_letters a name h in rw ha (ap (a ∷◌) (head_word-letters name hn))

more_words-letters : (name : Text) → are_letters name ≡ true → more_words name ≡ []
more_words-letters [] h = refl
more_words-letters (a ∷ name) h =
    let (ha, hn) = split_letters a name h in rw ha (more_words-letters name hn)

words-letters : (name : Text) → is_word name ≡ true → words name ≡ name ∷ []
words-letters [] h = absurd (false≢true h)
words-letters (a ∷ name) h =
    rw (head_word-letters (a ∷ name) h) (ap (flush (a ∷ name)) (more_words-letters (a ∷ name) h))

flush-append : (w : Text) (ws us : List Text) → flush w (ws ++ us) ≡ flush w ws ++ us
flush-append [] ws us = refl
flush-append (c ∷ w) ws us = refl

head_word-append : (t u : Text) → head_word (t ++ 32 ∷ u) ≡ head_word t
head_word-append [] u = refl
head_word-append (c ∷ t) u = ap (λ w. if is_space c then [] else c ∷ w) (head_word-append t u)

more_words-append : (t u : Text) → more_words (t ++ 32 ∷ u) ≡ more_words t ++ words u
more_words-append [] u = refl
more_words-append (c ∷ t) u =
    let ih = more_words-append t u in
    elim (Bool-cases (is_space c)) [
      | inl e ↦ rw e (
          ap (flush (head_word (t ++ 32 ∷ u))) ih
          ∙ (ap (λ w. flush w (more_words t ++ words u)) (head_word-append t u)
              ∙ flush-append (head_word t) (more_words t) (words u)))
      | inr e ↦ rw e ih
    ]

words-append : (t u : Text) → words (t ++ 32 ∷ u) ≡ words t ++ words u
words-append t u =
    ap (flush (head_word (t ++ 32 ∷ u))) (more_words-append t u)
    ∙ (ap (λ w. flush w (more_words t ++ words u)) (head_word-append t u)
        ∙ flush-append (head_word t) (more_words t) (words u))

words-added :
    (t name : Text)
    → is_word name ≡ true
    → words (if is_empty t then name else t ++ 32 ∷ name) ≡ words t ++ name ∷ []
words-added [] name h = words-letters name h
words-added (c ∷ t) name h =
    words-append (c ∷ t) name ∙ ap (words (c ∷ t) ++◌) (words-letters name h)

-- `addClass` with a word puts it behind the classes of the attribute where it is not one of them, and
-- changes nothing where it is.
pub add_class-words :
    (t name : Text)
    → is_word name ≡ true
    → (u : Text) × (add_class (some t) name ≡ some u)
      × (words u ≡ (if has_word name (words t) then words t else words t ++ name ∷ []))
unfolding add_class
add_class-words t name h = elim (Bool-cases (has_word name (words t))) [
  | inl present ↦ (t, rw (has_class-words t name h) (rw present refl), rw present refl)
  | inr missing ↦ (
    if is_empty t then name else t ++ 32 ∷ name,
    rw (has_class-words t name h) (rw missing refl),
    rw missing (words-added t name h),
  )
]

longer : (name : Text) → text_eq name (110 ∷ 117 ∷ 108 ∷ 108 ∷ name) ≡ false
longer name = elim (Bool-cases (text_eq name (110 ∷ 117 ∷ 108 ∷ 108 ∷ name))) [
  | inl e ↦
      absurd (omega (arith, ap length ((text_eq_iff name (110 ∷ 117 ∷ 108 ∷ 108 ∷ name)).0 e)))
  | inr e ↦ e
]

-- Where an element has no class attribute, `addClass` gives it one, but not the class: the attribute is
-- "null" and the name in one word.
pub add_class-missing :
    (name : Text) → is_word name ≡ true → has_class (add_class none name) name ≡ false
unfolding add_class
add_class-missing name h =
    let (_, letters) = is_word-split name h in
    has_class-words (110 ∷ 117 ∷ 108 ∷ 108 ∷ name) name h
    ∙ (ap (has_word name) (words-letters (110 ∷ 117 ∷ 108 ∷ 108 ∷ name) letters)
        ∙ ap (λ b. b || false) (longer name))
