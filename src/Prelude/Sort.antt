-- ===== src/Prelude/Sort.antt =====
-- A stable sort, as `Array.prototype.sort` is, and what it keeps.
use Prim.Native.Nat.{ℕ, ◌+◌}
use mathlib.Core.Path.{◌≡◌, refl, ap}
use mathlib.Core.Logic.{inl, inr}
use mathlib.Core.Bool.{Bool, true, false}
use mathlib.Core.List.{List, [], ◌∷◌, ◌++◌}
use native.Mathlib.Omega.{arith}
use azkaban.Prelude.Tests.{if◌then◌else◌, Bool-cases}
use azkaban.Prelude.Lists.{any}

pub append_assoc : {A : Type 0} (xs ys zs : List A) → (xs ++ ys) ++ zs ≡ xs ++ (ys ++ zs)
append_assoc [] ys zs = refl
append_assoc (x ∷ xs) ys zs = ap (x ∷◌) (append_assoc xs ys zs)

pub append_nil : {A : Type 0} (xs : List A) → xs ++ [] ≡ xs
append_nil [] = refl
append_nil (x ∷ xs) = ap (x ∷◌) (append_nil xs)

module _ {A : Type 0} (lt : A → A → Bool) where
  abbrev pub insert : A → List A → List A
  insert x [] = x ∷ []
  insert x (y ∷ ys) = if lt y x then y ∷ insert x ys else x ∷ y ∷ ys

  abbrev pub sort_by : List A → List A
  sort_by [] = []
  sort_by (x ∷ xs) = insert x (sort_by xs)

  -- No element comes before the one that it follows.
  abbrev pub IsSorted : List A → Type 0
  IsSorted [] = Unit {0}
  IsSorted (x ∷ xs) = (elim xs [ [] ↦ false | y ∷ _ ↦ lt y x ] ≡ false) × IsSorted xs

abbrev pub count {ℓ} : {A : Type ℓ} → (A → Bool) → List A → ℕ
count p [] = 0
count p (x ∷ xs) = (if p x then 1 else 0) + count p xs

module _ {A : Type 0} (lt : A → A → Bool) (asymm : (a b : A) → lt a b ≡ true → lt b a ≡ false) where
  insert-IsSorted : (x : A) (xs : List A) → IsSorted lt xs → IsSorted lt (insert lt x xs)
  insert-IsSorted x [] h = (refl, tt)
  insert-IsSorted x (y ∷ []) h = elim (Bool-cases (lt y x)) [
    | inl first ↦ rw first (asymm y x first, (refl, tt))
    | inr other ↦ rw other (other, h)
  ]
  insert-IsSorted x (y ∷ z ∷ ys) h = elim (Bool-cases (lt y x)) [
    | inl first ↦ rw first (ground (arith, asymm y x first, h.0), insert-IsSorted x (z ∷ ys) h.1)
    | inr other ↦ rw other (other, h)
  ]

  pub sort_by-IsSorted : (xs : List A) → IsSorted lt (sort_by lt xs)
  sort_by-IsSorted [] = tt
  sort_by-IsSorted (x ∷ xs) = insert-IsSorted x (sort_by lt xs) (sort_by-IsSorted xs)

count-insert :
    {A : Type 0} (lt : A → A → Bool) (p : A → Bool) (x : A) (xs : List A)
    → count p (insert lt x xs) ≡ count p (x ∷ xs)
count-insert lt p x [] = refl
count-insert lt p x (y ∷ ys) = ground (arith, count-insert lt p x ys)

pub count-sort_by :
    {A : Type 0} (lt : A → A → Bool) (p : A → Bool) (xs : List A)
    → count p (sort_by lt xs) ≡ count p xs
count-sort_by lt p [] = refl
count-sort_by lt p (x ∷ xs) =
    ground (arith, count-insert lt p x (sort_by lt xs), count-sort_by lt p xs)

pub count-append :
    {A : Type 0} (p : A → Bool) (xs ys : List A) → count p (xs ++ ys) ≡ count p xs + count p ys
count-append p [] ys = ground arith
count-append p (x ∷ xs) ys = ground (arith, count-append p xs ys)

any-insert :
    {A : Type 0} (lt : A → A → Bool) (p : A → Bool) (x : A) (xs : List A)
    → any p (insert lt x xs) ≡ any p (x ∷ xs)
any-insert lt p x [] = refl
any-insert lt p x (y ∷ ys) = ground (arith, any-insert lt p x ys)

pub any-sort_by :
    {A : Type 0} (lt : A → A → Bool) (p : A → Bool) (xs : List A) → any p (sort_by lt xs) ≡ any p xs
any-sort_by lt p [] = refl
any-sort_by lt p (x ∷ xs) = ground (arith, any-insert lt p x (sort_by lt xs), any-sort_by lt p xs)
