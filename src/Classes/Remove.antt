-- ===== src/Classes/Remove.antt =====
-- What `removeClass` leaves of the classes of an attribute (src/web/js/azkaban.job.status.utils.js).
use azkaban.Prelude.{
  ℕ, List, [], ◌∷◌, none, some, Bool, true, false, ◌≡◌, ◌⊎◌, refl, ap, sym, ◌∙◌, ◌&&◌, ◌||◌,
  if◌then◌else◌, ◌==◌, arith, inl, inr, Bool-cases, Option-cases,
}
use mathlib.Core.Bool.{false≢true}
use azkaban.Texts.{Text, text_eq, is_space, is_empty, trim, trim_start, trim_end}
use azkaban.Classes.{cut_here, replace_later, replace_first, remove_class}
use azkaban.Classes.Laws.{
  head_word, more_words, flush, words, has_word, are_letters, is_word, split_letters, differ,
  is_word-split, has_class-words,
}

-- Without the first word that is the name.
abbrev pub erase : Text → List Text → List Text
erase name [] = []
erase name (w ∷ ws) = if text_eq name w then ws else w ∷ erase name ws

erase-absent : (name : Text) (ws : List Text) → has_word name ws ≡ false → erase name ws ≡ ws
erase-absent name [] h = refl
erase-absent name (w ∷ ws) h = elim (Bool-cases (text_eq name w)) [
  | inl e ↦ absurd (false≢true (sym h ∙ ap (λ b. b || has_word name ws) e))
  | inr e ↦ rw e (ap (w ∷◌) (erase-absent name ws (ap (λ b. b || has_word name ws) (sym e) ∙ h)))
]

erase-flush_other :
    (name w : Text) (ws : List Text)
    → text_eq name w ≡ false
    → erase name (flush w ws) ≡ flush w (erase name ws)
erase-flush_other name [] ws h = refl
erase-flush_other name (c ∷ w) ws h = rw h refl

erase-flush_same :
    (name w : Text) (ws : List Text)
    → is_empty name ≡ false
    → text_eq name w ≡ true
    → erase name (flush w ws) ≡ ws
erase-flush_same [] w ws ne h = absurd (false≢true (sym ne))
erase-flush_same (a ∷ name) [] ws ne h = absurd (false≢true h)
erase-flush_same (a ∷ name) (c ∷ w) ws ne h = rw h refl

-- What a match at the start of a text leaves of its words.
abbrev CutCases : Text → Text → Type 0
CutCases name t =
    ((cut_here name t ≡ none) × (text_eq name (head_word t) ≡ false))
    ⊎ ((r : Text) × (cut_here name t ≡ some r)
        × (text_eq name (head_word t) ≡ true)
        × (more_words t ≡ words r))

cut_here-cases : (name t : Text) → are_letters name ≡ true → CutCases name t
cut_here-cases [] [] h = inr ([], refl, refl, refl)
cut_here-cases [] (c ∷ t) h = elim (Bool-cases (is_space c)) [
  | inl e ↦ inr (t, rw e refl, rw e refl, rw e refl)
  | inr e ↦ inl (rw e refl, rw e refl)
]
cut_here-cases (a ∷ name) [] h = inl (refl, refl)
cut_here-cases (a ∷ name) (c ∷ t) h =
    let (ha, hn) = split_letters a name h in
    elim (Bool-cases (is_space c)) [
      | inl e ↦ let ne = differ is_space a c ha e in inl (rw ne refl, rw e refl)
      | inr e ↦ elim (Bool-cases (a == c)) [
        | inr other ↦ inl (rw other refl, rw e (rw other refl))
        | inl same ↦ elim (cut_here-cases name t hn) [
          | inl (cut, off) ↦ inl (rw same cut, rw e (rw same off))
          | inr (r, cut, at, more) ↦ inr (r, rw same cut, rw e (rw same at), rw e more)
        ]
      ]
    ]

head_word-replace_later : (name t : Text) → head_word (replace_later name t) ≡ head_word t
head_word-replace_later name [] = refl
head_word-replace_later name (c ∷ t) = elim (Bool-cases (is_space c)) [
  | inr e ↦ rw e (rw e (ap (c ∷◌) (head_word-replace_later name t)))
  | inl e ↦ elim (Option-cases (cut_here name t)) [
    | inl cut ↦ rw e (rw cut (rw e refl))
    | inr (r, cut) ↦ rw e (rw cut refl)
  ]
]

flush_later :
    (name t : Text)
    → more_words (replace_later name t) ≡ erase name (more_words t)
    → words (replace_later name t) ≡ flush (head_word t) (erase name (more_words t))
flush_later name t ih =
    ap (flush (head_word (replace_later name t))) ih
    ∙ ap (λ w. flush w (erase name (more_words t))) (head_word-replace_later name t)

more_words-replace_later :
    (name t : Text)
    → is_empty name ≡ false
    → are_letters name ≡ true
    → more_words (replace_later name t) ≡ erase name (more_words t)
more_words-replace_later name [] ne h = refl
more_words-replace_later name (c ∷ t) ne h =
    let ih = more_words-replace_later name t ne h in
    elim (Bool-cases (is_space c)) [
      | inr e ↦ rw e (rw e ih)
      | inl e ↦ elim (cut_here-cases name t h) [
        | inl (cut, off) ↦ rw e (
            rw cut (
              rw e (
                flush_later name t ih
                ∙ sym (erase-flush_other name (head_word t) (more_words t) off))))
        | inr (r, cut, at, more) ↦
            rw e
              (rw cut (sym more ∙ sym (erase-flush_same name (head_word t) (more_words t) ne at)))
      ]
    ]

words-replace_first :
    (t name : Text) → is_word name ≡ true → words (replace_first name t) ≡ erase name (words t)
words-replace_first t name h =
    let (ne, letters) = is_word-split name h in
    elim (cut_here-cases name t letters) [
      | inl (cut, off) ↦
          rw (replace_first, cut)
            (flush_later name t (more_words-replace_later name t ne letters)
              ∙ sym (erase-flush_other name (head_word t) (more_words t) off))
      | inr (r, cut, at, more) ↦
          rw (replace_first, cut)
            (sym more ∙ sym (erase-flush_same name (head_word t) (more_words t) ne at))
    ]

flush_cong : {v w : Text} {us ws : List Text} → v ≡ w → us ≡ ws → flush v us ≡ flush w ws
flush_cong e f = cc

cond_cong :
    {us vs ws xs : List Text} (b : Bool)
    → us ≡ vs
    → ws ≡ xs
    → (if b then us else ws) ≡ (if b then vs else xs)
cond_cong true e f = e
cond_cong false e f = f

blank_end :
    (c : ℕ) (t : Text)
    → (is_empty (trim_end t) && is_space c) ≡ true
    → (trim_end t ≡ []) × (is_space c ≡ true)
blank_end c t h = ground (arith, h)

trim_end-words :
    (t : Text) → (head_word (trim_end t) ≡ head_word t) × (more_words (trim_end t) ≡ more_words t)
unfolding trim_end
trim_end-words [] = (refl, refl)
trim_end-words (c ∷ t) =
    let (head, more) = trim_end-words t in
    elim (Bool-cases (is_empty (trim_end t) && is_space c)) [
      | inr e ↦ rw e (
        ap (λ w. if is_space c then [] else c ∷ w) head,
        cond_cong (is_space c) (flush_cong head more) more,
      )
      | inl e ↦
          let (none_left, space) = blank_end c t e in
          rw e (rw space refl, rw space (ap words (sym none_left) ∙ flush_cong head more))
    ]

words-trim_start : (t : Text) → words (trim_start t) ≡ words t
unfolding trim_start
words-trim_start [] = refl
words-trim_start (c ∷ t) = elim (Bool-cases (is_space c)) [
  | inl e ↦ rw e (words-trim_start t)
  | inr e ↦ rw e (rw e refl)
]

words-trim : (t : Text) → words (trim t) ≡ words t
unfolding trim
words-trim t =
    let (head, more) = trim_end-words (trim_start t) in flush_cong head more ∙ words-trim_start t

-- `removeClass` with a word takes its first occurrence out of the classes of the attribute, and keeps the
-- others in their order.
pub remove_class-words :
    (t name : Text)
    → is_word name ≡ true
    → (u : Text) × (remove_class (some t) name ≡ some u) × (words u ≡ erase name (words t))
unfolding remove_class
remove_class-words t name h = elim (Bool-cases (has_word name (words t))) [
  | inl present ↦ (
    trim (replace_first name t),
    rw (has_class-words t name h) (rw present refl),
    words-trim (replace_first name t) ∙ words-replace_first t name h,
  )
  | inr missing ↦ (
    t,
    rw (has_class-words t name h) (rw missing refl),
    sym (erase-absent name (words t) missing),
  )
]
