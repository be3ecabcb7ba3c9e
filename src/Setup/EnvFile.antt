-- ===== src/Setup/EnvFile.antt =====
-- The mount point is read back from the file that `env_file` writes.
use icloud_linux.Prelude.{
  ℕ, true, false, ◌||◌, [], ◌∷◌, ◌++◌, any, some, Text, is_empty, ◌≡◌, refl, sym, ap, ◌∙◌, inl, inr,
  Bool-cases, ◌==◌, ==_iff, arith, nat_eq, text_eq, contains, ◌↔◌, Option, Bool, none,
  if◌then◌else◌,
}
use mathlib.Core.Option.{none-ne-some}
use mathlib.Core.List.{append-nil}
use icloud_linux.Path.Str.{strip_prefix}
use icloud_linux.Status.Log.{is_whitespace}
use icloud_linux.TwoFactor.Page.{trim, trim_right}
use icloud_linux.Setup.{
  after_char, is_output, replace, shell_quote, is_break, config_key, mount_key, env_file, Quoting,
  unquote_from, unquote, lines, push_first, mount_line, path_in, recorded_mount,
}

abbrev outside : Quoting
outside = record { single = false; double = false; escaped = false }

abbrev in_single : Quoting
in_single = record { single = true; double = false; escaped = false }

abbrev quote_text : Text
quote_text = 39 ∷ 92 ∷ 39 ∷ 39 ∷ []

after_char-plain : (c : ℕ) → (c == 39) ≡ false → after_char in_single c ≡ in_single
after_char-plain c other = elim (Bool-cases (c == 34)) [
  | inl double ↦ elim (Bool-cases (c == 92)) [
    | inl slash ↦ rw (other, double, slash) refl
    | inr plain ↦ rw (other, double, plain) refl
  ]
  | inr no_double ↦ elim (Bool-cases (c == 92)) [
    | inl slash ↦ rw (other, no_double, slash) refl
    | inr plain ↦ rw (other, no_double, plain) refl
  ]
]

is_output-plain : (c : ℕ) → (c == 39) ≡ false → is_output in_single c ≡ true
is_output-plain c other = ground (arith, other)

unquote_from-plain :
    (c : ℕ) (s : Text)
    → (c == 39) ≡ false
    → unquote_from in_single (c ∷ s) ≡ c ∷ unquote_from in_single s
unfolding unquote_from
unquote_from-plain c s other = rw (is_output-plain c other, after_char-plain c other) refl

-- Between single quotes each character stands for itself.
unquote_from-replace :
    (v t : Text)
    → unquote_from in_single (replace 39 quote_text v ++ t) ≡ v ++ unquote_from in_single t
unfolding unquote_from replace nat_eq
unquote_from-replace [] t = refl
unquote_from-replace (c ∷ v) t = elim (Bool-cases (c == 39)) [
  | inl quote ↦ rw quote (
      ap (λ s. 39 ∷ s) (unquote_from-replace v t)
      ∙ ap (λ d. d ∷ (v ++ unquote_from in_single t)) (sym ((==_iff c 39).0 quote)))
  | inr other ↦ rw other (
      unquote_from-plain c (replace 39 quote_text v ++ t) other
      ∙ ap (λ s. c ∷ s) (unquote_from-replace v t))
]

pub unquote-shell_quote : (v : Text) → unquote (shell_quote v) ≡ v
unfolding unquote shell_quote unquote_from nat_eq
unquote-shell_quote v = unquote_from-replace v (39 ∷ []) ∙ rw append-nil

any-append : (xs ys : Text) → any is_break (xs ++ ys) ≡ (any is_break xs || any is_break ys)
any-append [] ys = refl
any-append (x ∷ xs) ys = ground (arith, any-append xs ys)

no_break-replace :
    (v : Text) → any is_break v ≡ false → any is_break (replace 39 quote_text v) ≡ false
unfolding replace nat_eq
no_break-replace [] h = refl
no_break-replace (c ∷ v) h = ground (arith, h, no_break-replace v)

no_break-shell_quote : (v : Text) → any is_break v ≡ false → any is_break (shell_quote v) ≡ false
unfolding shell_quote nat_eq
no_break-shell_quote v h =
    any-append (replace 39 quote_text v) (39 ∷ []) ∙ rw (no_break-replace v h) refl

-- A line ends at the first break.
lines-append : (a t : Text) → any is_break a ≡ false → lines (a ++ (10 ∷ t)) ≡ a ∷ lines t
unfolding lines nat_eq
lines-append [] t h = refl
lines-append (c ∷ a) t h = elim (Bool-cases (c == 10)) [
  | inl break ↦ absurd (ground (arith, h, break))
  | inr other ↦ elim (Bool-cases (c == 13)) [
    | inl return ↦ absurd (ground (arith, h, return))
    | inr plain ↦ rw (other, plain) (ap (push_first c) (lines-append a t (rw (other, plain) at h)))
  ]
]

is_empty-snoc : (s : Text) (c : ℕ) → is_empty (s ++ (c ∷ [])) ≡ false
is_empty-snoc [] c = refl
is_empty-snoc (d ∷ s) c = refl

trim_right-snoc :
    (s : Text) (c : ℕ) → is_whitespace c ≡ false → trim_right (s ++ (c ∷ [])) ≡ s ++ (c ∷ [])
trim_right-snoc [] c h = rw h refl
trim_right-snoc (d ∷ s) c h = rw (trim_right-snoc s c h, is_empty-snoc s c) refl

trim-shell_quote : (v : Text) → trim (shell_quote v) ≡ shell_quote v
unfolding trim shell_quote nat_eq
trim-shell_quote v = trim_right-snoc (39 ∷ replace 39 quote_text v) 39 refl

trim-config : (v : Text) → trim (config_key ++ shell_quote v) ≡ config_key ++ shell_quote v
unfolding trim shell_quote nat_eq
trim-config v = trim_right-snoc (config_key ++ (39 ∷ replace 39 quote_text v)) 39 refl

trim-mount : (v : Text) → trim (mount_key ++ shell_quote v) ≡ mount_key ++ shell_quote v
unfolding trim shell_quote nat_eq
trim-mount v = trim_right-snoc (mount_key ++ (39 ∷ replace 39 quote_text v)) 39 refl

path_in-shell_quote : (v : Text) → is_empty v ≡ false → path_in (some (shell_quote v)) ≡ some v
path_in-shell_quote v h = rw (trim-shell_quote v, unquote-shell_quote v, h) refl

mount_line-written :
    (config mount : Text)
    → mount_line ((config_key ++ shell_quote config) ∷ (mount_key ++ shell_quote mount) ∷ [])
      ≡ some (shell_quote mount)
unfolding mount_line strip_prefix nat_eq
mount_line-written config mount = rw (trim-config config, trim-mount mount) refl

lines-written :
    (config mount : Text)
    → any is_break config ≡ false
    → any is_break mount ≡ false
    → lines (
        config_key
        ++ (shell_quote config ++ (10 ∷ (mount_key ++ (shell_quote mount ++ (10 ∷ []))))))
      ≡ (config_key ++ shell_quote config) ∷ (mount_key ++ shell_quote mount) ∷ []
unfolding lines nat_eq
lines-written config mount a b =
    lines-append (config_key ++ shell_quote config) (mount_key ++ (shell_quote mount ++ (10 ∷ [])))
      (no_break-shell_quote config a)
    ∙ ap (λ ls. (config_key ++ shell_quote config) ∷ ls)
        (lines-append (mount_key ++ shell_quote mount) [] (no_break-shell_quote mount b))

is_break-contains : (s : Text) → any is_break s ≡ (contains 10 s || contains 13 s)
is_break-contains [] = refl
is_break-contains (c ∷ s) = ground (arith, is_break-contains s)

-- What is read of the file, if one is written.
abbrev pub read_back : Option Text → Option Text
read_back none = none
read_back (some file) = recorded_mount file

-- Is there a line feed or a carriage return in the text?
abbrev pub has_break : Text → Bool
has_break s = contains 10 s || contains 13 s

-- `env_file` refuses if there is a line feed or a carriage return in one of the two paths, and only then,
-- and of what it writes otherwise `recorded_mount` finds the mount point, which is not empty.
pub recorded_mount-env_file :
    (config mount : Text)
    → is_empty mount ≡ false
    → ((env_file config mount ≡ none) ↔ ((has_break config || has_break mount) ≡ true))
      × (read_back (env_file config mount)
          ≡ (if has_break config || has_break mount then none else some mount))
unfolding env_file recorded_mount
recorded_mount-env_file config mount full =
    elim (Bool-cases (any is_break config || any is_break mount)) [
      | inl broken ↦
          let seen : (has_break config || has_break mount) ≡ true =
            ground (arith, broken, is_break-contains config, is_break-contains mount) in
          rw (broken, seen) (((λ h. refl), (λ h. refl)), refl)
      | inr clean ↦
          let (a, b) : (any is_break config ≡ false) × (any is_break mount ≡ false) =
            ground (arith, clean) in
          let seen : (has_break config || has_break mount) ≡ false =
            ground (arith, clean, is_break-contains config, is_break-contains mount) in
          rw (clean, seen)
            (
              ((λ h. absurd (none-ne-some _ (sym h))), (λ h. absurd (cc (h)))),
              ap (λ ls. path_in (mount_line ls)) (lines-written config mount a b)
                  ∙ (ap path_in (mount_line-written config mount) ∙ path_in-shell_quote mount full),
            )
    ]
