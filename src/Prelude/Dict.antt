-- ===== src/Prelude/Dict.antt =====
-- A JavaScript object used as a dictionary from texts: its own properties in the order of their
-- insertion. An assignment to a property that is there keeps its place.
use Prim.Native.String.{String}
use mathlib.Core.Path.{◌≡◌, refl, ap, sym, ◌∙◌}
use mathlib.Core.Logic.{inl, inr}
use mathlib.Core.List.{List, [], ◌∷◌}
use mathlib.Core.Option.{Option, none, some}
use native.Mathlib.Omega.{arith}
use text.Mathlib.Text.{◌==◌ as str_eq}
use text.Mathlib.TextEquality.{eq_iff}
use azkaban.Prelude.Tests.{if◌then◌else◌, Bool-cases}

module _ {ℓ} {V : Type ℓ} where
  -- `o[k]`, where `none` is `undefined`.
  unfoldable pub get : String → List (String × V) → Option V
  get k [] = none
  get k ((j, v) ∷ m) = if str_eq j k then some v else get k m

  -- `o[k] = v`
  unfoldable pub put : String → V → List (String × V) → List (String × V)
  put k v [] = (k, v) ∷ []
  put k v ((j, w) ∷ m) = if str_eq j k then (j, v) ∷ m else (j, w) ∷ put k v m

  -- `delete o[k]`
  unfoldable pub delete : String → List (String × V) → List (String × V)
  delete k [] = []
  delete k ((j, w) ∷ m) = if str_eq j k then delete k m else (j, w) ∷ delete k m

  -- the keys that `for (var k in o)` visits
  abbrev pub keys : List (String × V) → List String
  keys [] = []
  keys ((k, v) ∷ m) = k ∷ keys m

  -- `o[k]` after a change of it; without one, none
  unfoldable pub change : String → (V → V) → List (String × V) → List (String × V)
  change k f m = elim (get k m) [ none ↦ m | some v ↦ put k (f v) m ]

  abbrev pub changed : (V → V) → Option V → Option V
  changed f none = none
  changed f (some v) = some (f v)

  pub get-put :
      (j k : String) (v : V) (m : List (String × V))
      → get j (put k v m) ≡ (if str_eq k j then some v else get j m)
  unfolding get put
  get-put j k v [] = refl
  get-put j k v ((i, w) ∷ m) = ground (arith, eq_iff k j, eq_iff i k, eq_iff i j, get-put j k v m)

  pub get-delete :
      (j k : String) (m : List (String × V))
      → get j (delete k m) ≡ (if str_eq k j then none else get j m)
  unfolding get delete
  get-delete j k [] = ground arith
  get-delete j k ((i, w) ∷ m) = ground (arith, eq_iff k j, eq_iff i k, eq_iff i j, get-delete j k m)

  change-found :
      (k : String) (f : V → V) (m : List (String × V)) (o : Option V)
      → get k m ≡ o
      → change k f m ≡ elim o [ none ↦ m | some v ↦ put k (f v) m ]
  unfolding change
  change-found k f m o e =
      ap (λ p. elim p as (λ _. List (String × V)) [ none ↦ m | some v ↦ put k (f v) m ]) e

  get-change_at :
      (j k : String) (f : V → V) (m : List (String × V)) (o : Option V)
      → get k m ≡ o
      → get j (change k f m) ≡ (if str_eq k j then changed f (get j m) else get j m)
  get-change_at j k f m none e =
      ap (get j) (change-found k f m none e) ∙ (elim (Bool-cases (str_eq k j)) [
        | inl same ↦
            let at_j : get j m ≡ none = ap (λ i. get i m) (sym ((eq_iff k j).0 same)) ∙ e in
            rw same (at_j ∙ ap (changed f) (sym at_j))
        | inr other ↦ rw other refl
      ])
  get-change_at j k f m (some v) e =
      ap (get j) (change-found k f m (some v) e)
      ∙ (get-put j k (f v) m ∙ elim (Bool-cases (str_eq k j)) [
        | inl same ↦
            let at_j : get j m ≡ some v = ap (λ i. get i m) (sym ((eq_iff k j).0 same)) ∙ e in
            rw same (ap (changed f) (sym at_j))
        | inr other ↦ rw other refl
      ])

  pub get-change :
      (j k : String) (f : V → V) (m : List (String × V))
      → get j (change k f m) ≡ (if str_eq k j then changed f (get j m) else get j m)
  get-change j k f m = get-change_at j k f m (get k m) refl
