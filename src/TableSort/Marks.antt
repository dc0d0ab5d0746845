-- ===== src/TableSort/Marks.antt =====
-- The marks of the headers (src/web/js/azkaban.table.sort.js).
use mathlib.Core.Path.{subst}
use azkaban.Prelude.{
  ℕ, zero, suc, List, [], ◌∷◌, map, some, Bool, true, false, ◌≡◌, refl, not, get_elem?, modify, any,
  if◌then◌else◌, arith, sym, ◌∙◌,
}
use azkaban.TableSort.{Mark, unmarked, asc, desc, toggle_mark, toggle_sort, is_marked}

abbrev pub at_most_one : List Mark → Bool
at_most_one [] = true
at_most_one (m ∷ ms) = if is_marked m then not (any is_marked ms) else at_most_one ms

no_marks : (marks : List Mark) → any is_marked (map (λ _. unmarked) marks) ≡ false
no_marks [] = refl
no_marks (m ∷ ms) = no_marks ms

one_of_cleared :
    (i : ℕ) (marks : List Mark)
    → at_most_one (modify (map (λ _. unmarked) marks) i (λ _. asc)) ≡ true
one_of_cleared i [] = refl
one_of_cleared zero (m ∷ ms) = ground (arith, no_marks ms)
one_of_cleared (suc i) (m ∷ ms) = one_of_cleared i ms

get_elem?-modify :
    (i : ℕ) (marks : List Mark) (m m' : Mark)
    → get_elem? marks i ≡ some m
    → get_elem? (modify marks i (λ _. m')) i ≡ some m'
get_elem?-modify i [] m m' e = ground (arith, e)
get_elem?-modify zero (x ∷ marks) m m' e = refl
get_elem?-modify (suc i) (x ∷ marks) m m' e = get_elem?-modify i marks m m' e

get_elem?-cleared :
    (i : ℕ) (marks : List Mark) (m : Mark)
    → get_elem? marks i ≡ some m
    → get_elem? (map (λ _. unmarked) marks) i ≡ some unmarked
get_elem?-cleared i [] m e = ground (arith, e)
get_elem?-cleared zero (x ∷ marks) m e = refl
get_elem?-cleared (suc i) (x ∷ marks) m e = get_elem?-cleared i marks m e

module _ (m m' : Mark) (same : is_marked m ≡ is_marked m') where
  any-modify :
      (i : ℕ) (marks : List Mark)
      → get_elem? marks i ≡ some m
      → any is_marked (modify marks i (λ _. m')) ≡ any is_marked marks
  any-modify i [] e = refl
  any-modify zero (x ∷ marks) e = ground (arith, e, same)
  any-modify (suc i) (x ∷ marks) e = ground (arith, any-modify i marks e)

  at_most_one-modify :
      (i : ℕ) (marks : List Mark)
      → get_elem? marks i ≡ some m
      → at_most_one (modify marks i (λ _. m')) ≡ at_most_one marks
  at_most_one-modify i [] e = refl
  at_most_one-modify zero (x ∷ marks) e = ground (arith, e, same)
  at_most_one-modify (suc i) (x ∷ marks) e =
      ground (arith, any-modify i marks e, at_most_one-modify i marks e)

IsToggled : ℕ → List Mark → Mark → List Mark × Bool → Type 0
IsToggled i marks m r =
    (at_most_one r.0 ≡ true)
    × (get_elem? r.0 i ≡ some (elim m [ asc ↦ desc | _ ↦ asc ]))
    × (r.1 ≡ elim m [ asc ↦ true | _ ↦ false ])

toggle_mark-IsToggled :
    (i : ℕ) (marks : List Mark) (m : Mark)
    → at_most_one marks ≡ true
    → get_elem? marks i ≡ some m
    → IsToggled i marks m (toggle_mark (some m) i marks)
unfolding toggle_mark IsToggled
toggle_mark-IsToggled i marks unmarked h e = (
  one_of_cleared i marks,
  get_elem?-modify i (map (λ _. unmarked) marks) unmarked asc
      (get_elem?-cleared i marks unmarked e),
  refl,
)
toggle_mark-IsToggled i marks asc h e =
    (at_most_one-modify asc desc refl i marks e ∙ h, get_elem?-modify i marks asc desc e, refl)
toggle_mark-IsToggled i marks desc h e =
    (at_most_one-modify desc asc refl i marks e ∙ h, get_elem?-modify i marks desc asc e, refl)

-- Where at most one header is marked, a click keeps it so, and marks the header that is clicked on:
-- with `desc` if it had `asc`, otherwise with `asc`; the table is sorted down in the first case only.
pub toggle_sort-marks :
    (i : ℕ) (marks : List Mark) (m : Mark)
    → at_most_one marks ≡ true
    → get_elem? marks i ≡ some m
    → (at_most_one (toggle_sort i marks).0 ≡ true)
      × (get_elem? (toggle_sort i marks).0 i ≡ some (elim m [ asc ↦ desc | _ ↦ asc ]))
      × ((toggle_sort i marks).1 ≡ elim m [ asc ↦ true | _ ↦ false ])
unfolding toggle_sort IsToggled
toggle_sort-marks i marks m h e =
    subst (λ o. IsToggled i marks m (toggle_mark o i marks)) (sym e)
      (toggle_mark-IsToggled i marks m h e)
