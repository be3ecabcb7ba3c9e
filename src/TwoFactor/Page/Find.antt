-- ===== src/TwoFactor/Page/Find.antt =====
-- Where a text is found in an appended one.
use icloud_linux.Prelude.{
  ℕ, true, false, [], ◌∷◌, ◌++◌, contains, Option, none, some, Text, is_prefix, ◌≡◌, refl, ap, inl,
  inr, Bool-cases, arith, nat_eq, text_eq,
}
use icloud_linux.TwoFactor.Page.{push_before, find_text}

-- What is found in an appended text does not begin in the first part, unless it is within it.
is_prefix-append :
    (c : ℕ) (n t r : Text)
    → contains c n ≡ false
    → is_prefix n (t ++ (c ∷ r)) ≡ true
    → is_prefix n t ≡ true
is_prefix-append c [] t r h p = refl
is_prefix-append c (x ∷ n) [] r h p = absurd (ground (arith, h, p))
is_prefix-append c (x ∷ n) (y ∷ t) r h p = ground (arith, h, p, is_prefix-append c n t r)

is_prefix_self : (n r : Text) → is_prefix n (n ++ r) ≡ true
is_prefix_self [] r = refl
is_prefix_self (c ∷ n) r = ground (arith, is_prefix_self n r)

push_before-none : (c : ℕ) (o : Option (Text × Text)) → push_before c o ≡ none → o ≡ none
push_before-none c none h = refl
push_before-none c (some p) h = absurd (cc)

-- The first occurrence of a text is the one that is written, where there is none before it.
pub find_text-append :
    (c : ℕ) (n t r : Text)
    → contains c n ≡ false
    → find_text (c ∷ n) t ≡ none
    → find_text (c ∷ n) (t ++ ((c ∷ n) ++ r)) ≡ some (t, (c ∷ n) ++ r)
unfolding find_text
find_text-append c n [] r h absent = rw (is_prefix_self (c ∷ n) r) refl
find_text-append c n (d ∷ t) r h absent = elim (Bool-cases (is_prefix (c ∷ n) (d ∷ t))) [
  | inl here ↦ absurd (cc (rw here at absent))
  | inr away ↦
      let later : find_text (c ∷ n) (t ++ ((c ∷ n) ++ r)) ≡ some (t, (c ∷ n) ++ r) =
        find_text-append c n t r h (push_before-none d _ (rw away at absent)) in
      elim (Bool-cases (is_prefix (c ∷ n) ((d ∷ t) ++ ((c ∷ n) ++ r)))) [
        | inl across ↦ absurd (ground (arith, across, away, is_prefix-append c n t (n ++ r) h))
        | inr clear ↦ rw clear (ap (push_before d) later)
      ]
]
