-- ===== src/Setup/Units.antt =====
-- An argument of a unit is read as one argument.
use icloud_linux.Prelude.{
  ++_assoc, ℕ, false, ◌||◌, [], ◌∷◌, ◌++◌, any, Option, none, some, Text, ◌≡◌, refl, sym, ap, ◌∙◌,
  inl, inr, Bool-cases, ◌==◌, ==_iff, arith, nat_eq, if◌then◌else◌,
}
use mathlib.Core.Option.{some-injective}
use icloud_linux.TwoFactor.Page.{push_before}
use icloud_linux.Setup.{is_control, replace, systemd_quote}

-- The rules by which systemd reads a quoted argument, before it looks for variables (`$`): of the escapes
-- `\\` and `\"` are those characters, of the specifiers `%%` is a percent sign, and the quote ends it. What
-- other escapes and specifiers mean is left out.
pub data Reading : Type 0 where
  plain : Reading
  after_slash : Reading
  after_percent : Reading

abbrev pub read_quoted : Reading → Text → Option (Text × Text)
read_quoted r [] = none
read_quoted plain (c ∷ s) =
    if c == 34
    then some ([], s)
    else if c == 92
    then read_quoted after_slash s
    else if c == 37
    then read_quoted after_percent s
    else push_before c (read_quoted plain s)
read_quoted after_slash (c ∷ s) =
    if c == 92 || c == 34 then push_before c (read_quoted plain s) else none
read_quoted after_percent (c ∷ s) = if c == 37 then push_before c (read_quoted plain s) else none

abbrev pub read_argument : Text → Option (Text × Text)
read_argument [] = none
read_argument (c ∷ s) = if c == 34 then read_quoted plain s else none

abbrev escaped : Text → Text
escaped s = replace 37 (37 ∷ 37 ∷ []) (replace 34 (92 ∷ 34 ∷ []) (replace 92 (92 ∷ 92 ∷ []) s))

escaped-plain :
    (c : ℕ) (s : Text)
    → (c == 92) ≡ false
    → (c == 34) ≡ false
    → (c == 37) ≡ false
    → escaped (c ∷ s) ≡ c ∷ escaped s
unfolding replace
escaped-plain c s no_slash no_quote no_percent = rw (no_slash, no_quote, no_percent) refl

read_quoted-plain :
    (c : ℕ) (s : Text)
    → (c == 92) ≡ false
    → (c == 34) ≡ false
    → (c == 37) ≡ false
    → read_quoted plain (c ∷ s) ≡ push_before c (read_quoted plain s)
read_quoted-plain c s no_slash no_quote no_percent = rw (no_slash, no_quote, no_percent) refl

read_quoted-escaped : (s t : Text) → read_quoted plain (escaped s ++ (34 ∷ t)) ≡ some (s, t)
unfolding replace nat_eq
read_quoted-escaped [] t = refl
read_quoted-escaped (c ∷ s) t = elim (Bool-cases (c == 92)) [
  | inl slash ↦ rw ((==_iff c 92).0 slash) (ap (push_before 92) (read_quoted-escaped s t))
  | inr no_slash ↦ elim (Bool-cases (c == 34)) [
    | inl quote ↦ rw ((==_iff c 34).0 quote) (ap (push_before 34) (read_quoted-escaped s t))
    | inr no_quote ↦ elim (Bool-cases (c == 37)) [
      | inl percent ↦ rw ((==_iff c 37).0 percent) (ap (push_before 37) (read_quoted-escaped s t))
      | inr other ↦
          ap (λ u. read_quoted plain (u ++ (34 ∷ t))) (escaped-plain c s no_slash no_quote other)
          ∙ (read_quoted-plain c (escaped s ++ (34 ∷ t)) no_slash no_quote other
              ∙ ap (push_before c) (read_quoted-escaped s t))
    ]
  ]
]

any-append : (xs ys : Text) → any is_control (xs ++ ys) ≡ (any is_control xs || any is_control ys)
any-append [] ys = refl
any-append (x ∷ xs) ys = ground (arith, any-append xs ys)

no_control-replace :
    (c : ℕ) (by_ s : Text)
    → any is_control by_ ≡ false
    → any is_control s ≡ false
    → any is_control (replace c by_ s) ≡ false
unfolding replace
no_control-replace c by_ [] hb h = refl
no_control-replace c by_ (d ∷ s) hb h =
    ground (arith, hb, h, any-append by_ (replace c by_ s), no_control-replace c by_ s hb)

read_one :
    (arg after : Text)
    → read_argument ((34 ∷ (escaped arg ++ (34 ∷ []))) ++ after) ≡ some (arg, after)
unfolding nat_eq
read_one arg after =
    ap (read_quoted plain) (++_assoc (escaped arg) (34 ∷ []) after) ∙ read_quoted-escaped arg after

-- An argument that `systemd_quote` accepts stays one argument, whatever is in it: up to the
-- closing quote systemd reads it as it was, variables aside, and what is written has no control
-- character, no line break among them.
pub read_argument-systemd_quote :
    (arg quoted after : Text)
    → systemd_quote arg ≡ some quoted
    → (read_argument (quoted ++ after) ≡ some (arg, after)) × (any is_control quoted ≡ false)
unfolding systemd_quote
read_argument-systemd_quote arg quoted after h = elim (Bool-cases (any is_control arg)) [
  | inl bad ↦ absurd (cc (rw bad at h))
  | inr clean ↦
      let same = some-injective _ _ (rw clean at h) in
      rw (sym same) (
        read_one arg after,
        any-append (escaped arg) (34 ∷ [])
            ∙ rw
                (no_control-replace 37 (37 ∷ 37 ∷ []) _ refl (
                  no_control-replace 34 (92 ∷ 34 ∷ []) _ refl
                    (no_control-replace 92 (92 ∷ 92 ∷ []) arg refl clean)))
                refl,
      )
]
