-- ===== src/Texts.antt =====
-- Texts as lists of code units: `trim`, `indexOf` and `substring` as src/web/js/azkaban.flow.job.view.js
-- uses them.
pub mod Numbers
use mathlib.Core.Bool.{false≢true}
use native.Mathlib.Nat.{zero-add, suc-add}
use azkaban.Prelude.{
  ℕ, zero, suc, ◌+◌, List, [], ◌∷◌, ◌++◌, Option, none, some, Bool, true, false, ◌≡◌, ◌↔◌, refl,
  ◌&&◌, ◌||◌, length, if◌then◌else◌, leb, ◌==◌, arith, ap, sym, ◌∙◌, inl, inr, Bool-cases,
  Option-cases,
}

abbrev pub Text : Type 0
Text = List ℕ

abbrev pub text_eq : Text → Text → Bool
text_eq [] [] = true
text_eq [] (_ ∷ _) = false
text_eq (_ ∷ _) [] = false
text_eq (a ∷ s) (b ∷ t) = a == b && text_eq s t

pub text_eq_iff : (s t : Text) → (text_eq s t ≡ true) ↔ (s ≡ t)
text_eq_iff [] [] = (λ _. refl, λ _. refl)
text_eq_iff [] (b ∷ t) = (λ h. absurd (false≢true h), λ e. cc)
text_eq_iff (a ∷ s) [] = (λ h. absurd (false≢true h), λ e. cc)
text_eq_iff (a ∷ s) (b ∷ t) =
    let ih = text_eq_iff s t in (λ h. ground (arith, h, ih), λ e. ground (arith, e, ih))

abbrev pub is_empty : Text → Bool
is_empty [] = true
is_empty (_ ∷ _) = false

-- the white space and line ends of ECMAScript
abbrev pub is_space : ℕ → Bool
is_space c =
    (leb 9 c && leb c 13)
    || c == 32
    || c == 160
    || c == 5760
    || (leb 8192 c && leb c 8202)
    || c == 8232
    || c == 8233
    || c == 8239
    || c == 8287
    || c == 12288
    || c == 65279

unfoldable pub trim_start : Text → Text
trim_start [] = []
trim_start (c ∷ t) = if is_space c then trim_start t else c ∷ t

unfoldable pub trim_end : Text → Text
trim_end [] = []
trim_end (c ∷ t) = let rest = trim_end t in if is_empty rest && is_space c then [] else c ∷ rest

unfoldable pub trim : Text → Text
unfolding trim_start trim_end
trim t = trim_end (trim_start t)

abbrev starts_with : Text → Text → Bool
starts_with [] t = true
starts_with (a ∷ f) [] = false
starts_with (a ∷ f) (b ∷ t) = a == b && starts_with f t

-- `none` is -1.
pub index_of : Text → Text → Option ℕ
index_of f [] = if starts_with f [] then some 0 else none
index_of f (c ∷ t) =
    let rest = index_of f t in
    if starts_with f (c ∷ t) then some 0 else elim rest [ none ↦ none | some i ↦ some (suc i) ]

-- `t.substring(i, j)` for `i` not above `j`
pub substring : ℕ → ℕ → Text → Text
substring i zero t = []
substring i (suc j) [] = []
substring zero (suc j) (c ∷ t) = c ∷ substring zero j t
substring (suc i) (suc j) (c ∷ t) = substring i j t

abbrev pub Occurs : Text → Text → Type 0
Occurs f t = (a : Text) × (b : Text) × (t ≡ a ++ (f ++ b))

starts_with-true : (f t : Text) → starts_with f t ≡ true → (b : Text) × (t ≡ f ++ b)
starts_with-true [] t h = (t, refl)
starts_with-true (a ∷ f) [] h = absurd (false≢true h)
starts_with-true (a ∷ f) (b ∷ t) h =
    let (u, e) = starts_with-true f t (ground (arith, h)) in (u, ground (arith, h, e))

starts_with-append : (f b : Text) → starts_with f (f ++ b) ≡ true
starts_with-append [] b = refl
starts_with-append (a ∷ f) b = ground (arith, starts_with-append f b)

pub index_of-some :
    (f t : Text) (i : ℕ)
    → index_of f t ≡ some i
    → (a : Text) × (b : Text) × (t ≡ a ++ (f ++ b)) × (length a ≡ i)
unfolding index_of
index_of-some f [] i h = elim (Bool-cases (starts_with f [])) [
  | inl at ↦ let (b, e) = starts_with-true f [] at in ([], b, e, ground (arith, h, at))
  | inr other ↦ absurd (ground (arith, h, other))
]
index_of-some f (c ∷ t) i h = elim (Bool-cases (starts_with f (c ∷ t))) [
  | inl at ↦ let (b, e) = starts_with-true f (c ∷ t) at in ([], b, e, ground (arith, h, at))
  | inr other ↦ elim (Option-cases (index_of f t)) [
    | inl absent ↦ absurd (ground (arith, h, other, absent))
    | inr (j, found) ↦
        let (a, b, e, at) = index_of-some f t j found in
        (c ∷ a, b, ap (c ∷◌) e, ground (arith, h, other, found, at))
  ]
]

index_of-append : (f a b : Text) → index_of f (a ++ (f ++ b)) ≡ none → ⊥
unfolding index_of
index_of-append [] [] [] h = ground (arith, h)
index_of-append [] [] (c ∷ b) h = ground (arith, h)
index_of-append (x ∷ f) [] b h = ground (arith, h, starts_with-append f b)
index_of-append f (c ∷ a) b h = index_of-append f a b (ground (arith, h))

pub index_of-none : (f t : Text) → index_of f t ≡ none → Occurs f t → ⊥
index_of-none f t h (a, b, e) = index_of-append f a b (ap (index_of f) (sym e) ∙ h)

pub substring-before : (a b : Text) → substring 0 (length a) (a ++ b) ≡ a
unfolding substring
substring-before [] b = refl
substring-before (c ∷ a) b = ap (c ∷◌) (substring-before a b)

pub substring-match :
    (a f b : Text) → substring (length a) (length a + length f) (a ++ (f ++ b)) ≡ f
unfolding substring
substring-match [] f b = rw zero-add (substring-before f b)
substring-match (c ∷ a) f b = rw suc-add (substring-match a f b)

substring-all : (a : Text) → substring 0 (length a) a ≡ a
unfolding substring
substring-all [] = refl
substring-all (c ∷ a) = ap (c ∷◌) (substring-all a)

substring-suffix : (f b : Text) → substring (length f) (length (f ++ b)) (f ++ b) ≡ b
unfolding substring
substring-suffix [] b = substring-all b
substring-suffix (c ∷ f) b = substring-suffix f b

pub substring-after :
    (a f b : Text) → substring (length a + length f) (length (a ++ (f ++ b))) (a ++ (f ++ b)) ≡ b
unfolding substring
substring-after [] f b = rw zero-add (substring-suffix f b)
substring-after (c ∷ a) f b = rw suc-add (substring-after a f b)
