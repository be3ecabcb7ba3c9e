-- ===== src/Setup/Octal.antt =====
-- What the kernel escapes in the mount table is read back.
use icloud_linux.Prelude.{
  ℕ, ◌+◌, ◌/◌, ◌%◌, Bool, true, false, ◌||◌, [], ◌∷◌, ◌++◌, Text, ◌≡◌, ◌⊎◌, refl, ap, ◌∙◌, inl, inr,
  Bool-cases, ◌==◌, ==_iff, arith, nat_eq, if◌then◌else◌,
}
use icloud_linux.Setup.{unescape_from, unescape_octal}

-- The bytes that the kernel writes as octal: space, tab, newline and backslash.
abbrev pub is_mangled : ℕ → Bool
is_mangled c = c == 32 || (c == 9 || (c == 10 || c == 92))

abbrev pub octal_of : ℕ → Text
octal_of c = 92 ∷ (48 + c / 64) ∷ (48 + c / 8 % 8) ∷ (48 + c % 8) ∷ []

abbrev pub mangle : Text → Text
mangle [] = []
mangle (c ∷ s) = let rest = mangle s in if is_mangled c then octal_of c ++ rest else c ∷ rest

mangled_cases : (c : ℕ) → is_mangled c ≡ true → (c ≡ 32) ⊎ ((c ≡ 9) ⊎ ((c ≡ 10) ⊎ (c ≡ 92)))
mangled_cases c h = elim (Bool-cases (c == 32)) [
  | inl a ↦ inl ((==_iff c 32).0 a)
  | inr x ↦ inr (elim (Bool-cases (c == 9)) [
    | inl a ↦ inl ((==_iff c 9).0 a)
    | inr y ↦ inr (elim (Bool-cases (c == 10)) [
      | inl a ↦ inl ((==_iff c 10).0 a)
      | inr z ↦ inr ((==_iff c 92).0 (rw (x, y, z) at h))
    ])
  ])
]

not_backslash : (c : ℕ) → is_mangled c ≡ false → (c == 92) ≡ false
not_backslash c h = ground (arith, h)

unescape-octal_of :
    (c : ℕ) (s : Text)
    → is_mangled c ≡ true
    → unescape_from 0 (octal_of c ++ s) ≡ c ∷ unescape_from 0 s
unfolding unescape_from nat_eq
unescape-octal_of c s h = elim (mangled_cases c h) [
  | inl a ↦ rw a refl
  | inr (inl a) ↦ rw a refl
  | inr (inr (inl a)) ↦ rw a refl
  | inr (inr (inr a)) ↦ rw a refl
]

unescape_from-mangle : (s : Text) → unescape_from 0 (mangle s) ≡ s
unfolding unescape_from
unescape_from-mangle [] = refl
unescape_from-mangle (c ∷ s) = elim (Bool-cases (is_mangled c)) [
  | inl special ↦
      rw special (unescape-octal_of c (mangle s) special ∙ ap (λ t. c ∷ t) (unescape_from-mangle s))
  | inr plain ↦ rw (plain, not_backslash c plain) (ap (λ t. c ∷ t) (unescape_from-mangle s))
]

-- A path that the kernel has written into the mount table, with octal escapes for white space and
-- backslashes, is read back as it is.
pub unescape_octal-mangle : (s : Text) → unescape_octal (mangle s) ≡ s
unfolding unescape_octal
unescape_octal-mangle s = unescape_from-mangle s
