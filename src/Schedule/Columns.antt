-- ===== src/Schedule/Columns.antt =====
-- Packing the items of one day into columns (`renderDays`, `intersectArray` and `filterApplies` in
-- src/web/js/azkaban.schedule.svg.js).
use azkaban.Prelude.{
  ℕ, suc, ◌+◌, List, [], ◌∷◌, ◌++◌, Bool, true, false, ◌≡◌, refl, not, ◌&&◌, ◌||◌, any, arith,
  str_eq, ltb, if◌then◌else◌, Bool-cases, inl, inr,
}
use azkaban.Schedule.{Piece}

-- `intersectArray`
pub intersects : Piece → Piece → Bool
intersects a b = ltb a.time (b.time + b.length) && ltb b.time (a.time + a.length)

intersect_array : Piece → List Piece → Bool
unfolding intersects
intersect_array a arry = any (intersects a) arry

-- `filterApplies`: the item belongs to a hidden project or is of a hidden flow.
pub filter_applies : List Piece → List Piece → Piece → Bool
filter_applies filter_project filter_flow p =
    any (λ f. str_eq p.project_name f.project_name) filter_project
    || any (λ f. str_eq p.project_name f.project_name && str_eq p.flow_name f.flow_name) filter_flow

-- The loop over the columns: the first without an item that intersects takes the item; with none, a
-- new column is added at the end.
put_in_column : Piece → List (List Piece) → List (List Piece)
put_in_column p [] = (p ∷ []) ∷ []
put_in_column p (c ∷ cs) =
    let rest = put_in_column p cs in if intersect_array p c then c ∷ rest else (c ++ p ∷ []) ∷ cs

place_all : (Piece → Bool) → List Piece → List (List Piece) → List (List Piece)
place_all hidden [] cs = cs
place_all hidden (p ∷ ps) cs = place_all hidden ps (if hidden p then cs else put_in_column p cs)

-- the columns of a day, from its items in order
pub columns_of : List Piece → List Piece → List Piece → List (List Piece)
unfolding filter_applies put_in_column place_all intersect_array
columns_of filter_project filter_flow ps =
    place_all (filter_applies filter_project filter_flow) ps ([] ∷ [])

-- No two items of the column intersect.
abbrev pub Apart : List Piece → Type 0
Apart [] = Unit {0}
Apart (p ∷ ps) = (any (λ q. intersects q p) ps ≡ false) × Apart ps

abbrev pub AllApart : List (List Piece) → Type 0
AllApart [] = Unit {0}
AllApart (c ∷ cs) = Apart c × AllApart cs

intersects_comm : (a b : Piece) → intersects a b ≡ intersects b a
unfolding intersects
intersects_comm a b = ground arith

any-append : (f : Piece → Bool) (ps qs : List Piece) → any f (ps ++ qs) ≡ (any f ps || any f qs)
any-append f [] qs = refl
any-append f (p ∷ ps) qs = ground (arith, any-append f ps qs)

Apart-snoc :
    (p : Piece) (c : List Piece) → any (intersects p) c ≡ false → Apart c → Apart (c ++ p ∷ [])
Apart-snoc p [] e h = (refl, tt)
Apart-snoc p (q ∷ c) e (first, rest) = (
  ground (arith, any-append (λ r. intersects r q) c (p ∷ []), first),
  Apart-snoc p c (ground arith) rest,
)

put_in_column-AllApart :
    (p : Piece) (cs : List (List Piece)) → AllApart cs → AllApart (put_in_column p cs)
unfolding put_in_column intersect_array
put_in_column-AllApart p [] h = ((refl, tt), tt)
put_in_column-AllApart p (c ∷ cs) (h, hs) = elim (Bool-cases (any (intersects p) c)) [
  | inl hit ↦ rw (hit, put_in_column) (h, put_in_column-AllApart p cs hs)
  | inr free ↦ rw (free, put_in_column) (Apart-snoc p c free h, hs)
]

place_all-AllApart :
    (hidden : Piece → Bool) (ps : List Piece) (cs : List (List Piece))
    → AllApart cs
    → AllApart (place_all hidden ps cs)
unfolding place_all
place_all-AllApart hidden [] cs h = h
place_all-AllApart hidden (p ∷ ps) cs h =
    place_all-AllApart hidden ps (if hidden p then cs else put_in_column p cs) (kept (hidden p))
  where
    kept : (b : Bool) → AllApart (if b then cs else put_in_column p cs)
    kept true = h
    kept false = put_in_column-AllApart p cs h

-- how often the pieces that a test picks are drawn
abbrev pub count : (Piece → Bool) → List Piece → ℕ
count f [] = 0
count f (p ∷ ps) = if f p then suc (count f ps) else count f ps

abbrev pub count_all : (Piece → Bool) → List (List Piece) → ℕ
count_all f [] = 0
count_all f (c ∷ cs) = count f c + count_all f cs

module _ (f : Piece → Bool) where
  count-append : (ps qs : List Piece) → count f (ps ++ qs) ≡ count f ps + count f qs
  count-append [] qs = omega arith
  count-append (p ∷ ps) qs = ground (arith, count-append ps qs)

  count_all-put_in_column :
      (p : Piece) (cs : List (List Piece))
      → count_all f (put_in_column p cs) ≡ count_all f cs + count f (p ∷ [])
  unfolding put_in_column
  count_all-put_in_column p [] = omega arith
  count_all-put_in_column p (c ∷ cs) =
      ground (arith, count-append c (p ∷ []), count_all-put_in_column p cs)

  count_all-place_all :
      (hidden : Piece → Bool) (ps : List Piece) (cs : List (List Piece))
      → count_all f (place_all hidden ps cs)
        ≡ count_all f cs + count (λ p. f p && not (hidden p)) ps
  unfolding place_all
  count_all-place_all hidden [] cs = omega arith
  count_all-place_all hidden (p ∷ ps) cs = ground (
    arith,
    count_all-place_all hidden ps (if hidden p then cs else put_in_column p cs),
    count_all-put_in_column p cs,
  )

-- The columns of a day: no two items of one column intersect, and each item that is not hidden
-- stands in the columns as often as in the day, a hidden one nowhere.
pub columns_of-AllApart :
    (filter_project filter_flow ps : List Piece)
    → AllApart (columns_of filter_project filter_flow ps)
      × ((f : Piece → Bool)
          → count_all f (columns_of filter_project filter_flow ps)
            ≡ count (λ p. f p && not (filter_applies filter_project filter_flow p)) ps)
unfolding columns_of
columns_of-AllApart filter_project filter_flow ps = (
  place_all-AllApart (filter_applies filter_project filter_flow) ps ([] ∷ []) (tt, tt),
  λ f.
      omega (arith, count_all-place_all f (filter_applies filter_project filter_flow) ps ([] ∷ [])),
)
