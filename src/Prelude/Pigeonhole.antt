-- ===== src/Prelude/Pigeonhole.antt =====
-- Different elements of a list are no more than the list has.
use icloud_linux.Prelude.{
  ◌≤◌, ◌<◌, true, false, List, [], ◌∷◌, length, contains, All, ◌≡◌, arith, Text, ◌==◌, nat_eq,
  text_eq, if◌then◌else◌,
}

abbrev pub AreDifferent : List Text → Type 0
AreDifferent [] = Unit
AreDifferent (x ∷ xs) = (contains x xs ≡ false) × AreDifferent xs

without : Text → List Text → List Text
without x [] = []
without x (y ∷ ys) = let rest = without x ys in if y == x then rest else y ∷ rest

without_le : (x : Text) (ys : List Text) → length (without x ys) ≤ length ys
unfolding without
without_le x [] = omega arith
without_le x (y ∷ ys) = ground (arith, without_le x ys)

without_lt : (x : Text) (ys : List Text) → contains x ys ≡ true → length (without x ys) < length ys
unfolding without
without_lt x [] h = absurd (cc)
without_lt x (y ∷ ys) h = ground (arith, h, without_le x ys, without_lt x ys)

contains-without :
    (z x : Text) (ys : List Text)
    → (x == z) ≡ false
    → contains z ys ≡ true
    → contains z (without x ys) ≡ true
unfolding without
contains-without z x [] other h = h
contains-without z x (y ∷ ys) other h = ground (arith, other, h, contains-without z x ys other)

All-without :
    (x : Text) (xs ys : List Text)
    → contains x xs ≡ false
    → All (λ z. contains z ys ≡ true) xs
    → All (λ z. contains z (without x ys) ≡ true) xs
All-without x [] ys h all = tt
All-without x (z ∷ xs) ys h all = (
  contains-without z x ys (ground (arith, h)) all.0,
  All-without x xs ys (ground (arith, h)) all.1,
)

pub pigeonhole :
    (xs ys : List Text)
    → AreDifferent xs
    → All (λ z. contains z ys ≡ true) xs
    → length xs ≤ length ys
pigeonhole [] ys d h = omega arith
pigeonhole (x ∷ xs) ys d h =
    omega
      (arith, without_lt x ys h.0, pigeonhole xs (without x ys) d.1 (All-without x xs ys d.0 h.1))
