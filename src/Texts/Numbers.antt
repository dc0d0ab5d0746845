-- ===== src/Texts/Numbers.antt =====
-- Numbers as texts: what a number is as part of a text, and `parseInt` without a radix, as
-- src/web/js/azkaban.staging.flow.view.js uses them. NaN is `none`.
use azkaban.Prelude.{
  ℕ, zero, suc, ◌+◌, ◌-◌, ◌*◌, ◌/◌, ◌%◌, ◌≤◌, ◌<◌, [], ◌∷◌, ◌++◌, Option, none, some, Bool, true,
  false, ◌≡◌, refl, sym, ◌∙◌, ap, ◌&&◌, ◌||◌, if◌then◌else◌, leb, ltb, all, ◌==◌, arith, inl, inr,
  Bool-cases,
}
use azkaban.Prelude.Int.{ℤ, pos, negsuc}
use azkaban.Texts.{Text, is_space, trim_start}

-- the decimal digits of a number that is below ten to the power of `fuel + 1`
unfoldable pub decimal_with : ℕ → ℕ → Text
decimal_with zero n = (48 + n) ∷ []
decimal_with (suc fuel) n =
    let rest = decimal_with fuel (n / 10) in
    if ltb n 10 then (48 + n) ∷ [] else rest ++ (48 + n % 10) ∷ []

-- `"" + n`
unfoldable pub decimal : ℕ → Text
unfolding decimal_with
decimal n = decimal_with n n

abbrev pub letter_value : ℕ → ℕ
letter_value c =
    if leb 48 c && leb c 57
    then c - 48
    else if leb 97 c && leb c 102
    then c - 87
    else if leb 65 c && leb c 70
    then c - 55
    else 16

-- the value of a digit, for the bases 10 and 16
abbrev pub digit_value : ℕ → ℕ → Option ℕ
digit_value base c = if ltb (letter_value c) base then some (letter_value c) else none

-- the number that the digits at the start of a text continue
unfoldable pub read_digits : ℕ → ℕ → Text → ℕ
read_digits base acc [] = acc
read_digits base acc (c ∷ t) = elim (digit_value base c) [
  | none ↦ acc
  | some d ↦ read_digits base (acc * base + d) t
]

unfoldable pub read_number : ℕ → Text → Option ℕ
unfolding read_digits
read_number base [] = none
read_number base (c ∷ t) = elim (digit_value base c) [
  | none ↦ none
  | some d ↦ some (read_digits base d t)
]

-- with "0x" or "0X" in front, hexadecimal
unfoldable pub read_natural : Text → Option ℕ
unfolding read_number
read_natural (c ∷ x ∷ t) =
    if c == 48 && (x == 120 || x == 88) then read_number 16 t else read_number 10 (c ∷ x ∷ t)
read_natural t = read_number 10 t

abbrev pub negated : ℕ → ℤ
negated zero = pos 0
negated (suc n) = negsuc n

-- the sign
unfoldable pub read_signed : Text → Option ℤ
unfolding read_natural
read_signed [] = none
read_signed (c ∷ t) =
    if c == 45
    then elim (read_natural t) [ none ↦ none | some n ↦ some (negated n) ]
    else elim (read_natural (if c == 43 then t else c ∷ t)) [ none ↦ none | some n ↦ some (pos n) ]

-- `parseInt`
unfoldable pub parse_int : Text → Option ℤ
unfolding trim_start read_signed
parse_int t = read_signed (trim_start t)

abbrev pub is_digit : ℕ → Bool
is_digit c = leb 48 c && leb c 57

all-append : (p : ℕ → Bool) (s t : Text) → all p s ≡ true → all p t ≡ true → all p (s ++ t) ≡ true
all-append p [] t h k = k
all-append p (c ∷ s) t h k = ground (arith, h, all-append p s t, k)

quotient_le : (fuel n : ℕ) → n ≤ suc fuel → n / 10 ≤ fuel
quotient_le fuel n h = omega (arith, h)

last_digit : (n : ℕ) → n % 10 < 10
last_digit n = omega arith

decimal_with-digits : (fuel n : ℕ) → n ≤ fuel → all is_digit (decimal_with fuel n) ≡ true
unfolding decimal_with
decimal_with-digits zero n h = ground (arith, h)
decimal_with-digits (suc fuel) n h = elim (Bool-cases (ltb n 10)) [
  | inl small ↦ rw small (ground (arith, small))
  | inr large ↦ rw large (
      all-append is_digit (decimal_with fuel (n / 10)) ((48 + n % 10) ∷ [])
        (decimal_with-digits fuel (n / 10) (quotient_le fuel n h)) (ground (arith, last_digit n)))
]

digit_value_digit : (d : ℕ) → d < 10 → digit_value 10 (48 + d) ≡ some d
digit_value_digit d h = ground (arith, h)

read_digits-append :
    (s : Text) (acc d : ℕ)
    → all is_digit s ≡ true
    → d < 10
    → read_digits 10 acc (s ++ (48 + d) ∷ []) ≡ read_digits 10 acc s * 10 + d
unfolding read_digits
read_digits-append [] acc d h k = rw (digit_value_digit d k, read_digits) refl
read_digits-append (c ∷ s) acc d h k =
    let digit : digit_value 10 c ≡ some (c - 48) = ground (arith, h) in
    rw (digit, read_digits) (read_digits-append s (acc * 10 + (c - 48)) d (ground (arith, h)) k)

read_digits-decimal : (fuel n : ℕ) → n ≤ fuel → read_digits 10 0 (decimal_with fuel n) ≡ n
unfolding decimal_with read_digits
read_digits-decimal zero n h = ground (arith, h)
read_digits-decimal (suc fuel) n h = elim (Bool-cases (ltb n 10)) [
  | inl small ↦ rw small (ground (arith, small))
  | inr large ↦ rw large (
      read_digits-append (decimal_with fuel (n / 10)) 0 (n % 10)
        (decimal_with-digits fuel (n / 10) (quotient_le fuel n h)) (last_digit n)
      ∙ (ap (λ q. q * 10 + n % 10) (read_digits-decimal fuel (n / 10) (quotient_le fuel n h))
          ∙ omega arith))
]

read_number-digits :
    (c : ℕ) (s : Text)
    → is_digit c ≡ true
    → read_number 10 (c ∷ s) ≡ some (read_digits 10 0 (c ∷ s))
unfolding read_number read_digits
read_number-digits c s h =
    let digit : digit_value 10 c ≡ some (c - 48) = ground (arith, h) in
    rw (digit, read_number, read_digits) (ap (λ n. some (read_digits 10 n s)) (omega arith))

read_natural-digits :
    (c : ℕ) (s : Text)
    → all is_digit (c ∷ s) ≡ true
    → read_natural (c ∷ s) ≡ some (read_digits 10 0 (c ∷ s))
unfolding read_natural
read_natural-digits c [] h = read_number-digits c [] (ground (arith, h))
read_natural-digits c (x ∷ s) h =
    let plain : (c == 48 && (x == 120 || x == 88)) ≡ false = ground (arith, h) in
    rw plain (read_number-digits c (x ∷ s) (ground (arith, h)))

parse_int-digits :
    (c : ℕ) (s : Text)
    → all is_digit (c ∷ s) ≡ true
    → parse_int (c ∷ s) ≡ some (pos (read_digits 10 0 (c ∷ s)))
unfolding parse_int trim_start read_signed
parse_int-digits c s h =
    let full : is_space c ≡ false = ground (arith, h) in
    let unsigned : (c == 45) ≡ false = ground (arith, h) in
    let no_plus : (c == 43) ≡ false = ground (arith, h) in
    rw (full, unsigned, no_plus)
      (ap (λ o. elim o as (λ _. Option ℤ) [ none ↦ none | some n ↦ some (pos n) ])
        (read_natural-digits c s h))

decimal_with-nonempty : (fuel n : ℕ) → (c : ℕ) × (s : Text) × (decimal_with fuel n ≡ c ∷ s)
unfolding decimal_with
decimal_with-nonempty zero n = (48 + n, [], refl)
decimal_with-nonempty (suc fuel) n = elim (Bool-cases (ltb n 10)) [
  | inl small ↦ (48 + n, [], rw small refl)
  | inr large ↦
      let (c, s, e) = decimal_with-nonempty fuel (n / 10) in
      (c, s ++ (48 + n % 10) ∷ [], rw (large, e) refl)
]

-- `parseInt` reads from the decimal text of a number that number again.
pub parse_int-decimal : (n : ℕ) → parse_int (decimal n) ≡ some (pos n)
unfolding decimal
parse_int-decimal n =
    let (c, s, e) = decimal_with-nonempty n n in
    let digits = sym (ap (all is_digit) e) ∙ decimal_with-digits n n (omega arith) in
    ap parse_int e
    ∙ (parse_int-digits c s digits
        ∙ ap (λ m. some (pos m))
            (sym (ap (read_digits 10 0) e) ∙ read_digits-decimal n n (omega arith)))

pub decimal-digits : (n : ℕ) → all is_digit (decimal n) ≡ true
unfolding decimal
decimal-digits n = decimal_with-digits n n (omega arith)
