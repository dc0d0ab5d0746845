-- ===== src/Classes.antt =====
-- The class attribute of an SVG element: `hasClass`, `addClass` and `removeClass`
-- (src/web/js/azkaban.job.status.utils.js). The attribute is a text, which the functions search with
-- the regular expression `(\s|^)name(\s|$)`. A name is a word: not empty, without white space and
-- without characters that a regular expression reads otherwise.
pub mod Laws
pub mod Remove
use azkaban.Prelude.{
  ℕ, List, [], ◌∷◌, ◌++◌, Option, none, some, Bool, true, false, not, ◌&&◌, ◌||◌, all,
  if◌then◌else◌, ◌==◌,
}
use azkaban.Texts.{Text, is_space, is_empty, trim}

-- `name(\s|$)` matches at the start of the text.
abbrev pub match_here : Text → Text → Bool
match_here [] [] = true
match_here [] (c ∷ t) = is_space c
match_here (a ∷ name) [] = false
match_here (a ∷ name) (c ∷ t) = a == c && match_here name t

-- `\sname(\s|$)` matches somewhere.
abbrev pub match_later : Text → Text → Bool
match_later name [] = false
match_later name (c ∷ t) = (is_space c && match_here name t) || match_later name t

-- `hasClass`; the attribute may be missing.
pub has_class : Option Text → Text → Bool
has_class none name = false
has_class (some t) name = match_here name t || match_later name t

-- `addClass`. Where the attribute is missing, `classes` is null, and `+=` makes the text "null" of it.
pub add_class : Option Text → Text → Option Text
unfolding has_class
add_class none name = some (110 ∷ 117 ∷ 108 ∷ 108 ∷ name)
add_class (some t) name =
    if has_class (some t) name then some t else some (if is_empty t then name else t ++ 32 ∷ name)

-- the text after a match of `name(\s|$)` at the start
abbrev pub cut_here : Text → Text → Option Text
cut_here [] [] = some []
cut_here [] (c ∷ t) = if is_space c then some t else none
cut_here (a ∷ name) [] = none
cut_here (a ∷ name) (c ∷ t) = if a == c then cut_here name t else none

-- The text with a blank for the first match of `\sname(\s|$)`; without one, the text itself.
abbrev pub replace_later : Text → Text → Text
replace_later name [] = []
replace_later name (c ∷ t) =
    let rest = c ∷ replace_later name t in
    if is_space c then elim (cut_here name t) [ none ↦ rest | some r ↦ 32 ∷ r ] else rest

-- the same for `(\s|^)name(\s|$)`
abbrev pub replace_first : Text → Text → Text
replace_first name t = elim (cut_here name t) [ none ↦ replace_later name t | some r ↦ 32 ∷ r ]

-- `removeClass`
pub remove_class : Option Text → Text → Option Text
unfolding has_class
remove_class none name = none
remove_class (some t) name =
    if has_class (some t) name then some (trim (replace_first name t)) else some t
