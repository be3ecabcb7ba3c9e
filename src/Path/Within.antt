-- ===== src/Path/Within.antt =====
-- `is_within` by bytes is the order of paths by components.
use mathlib.Core.Path.{ap₂}
use mathlib.Core.List.{append-nil}
use icloud_linux.Prelude.{
  ℕ, Bool, true, false, ◌||◌, List, [], ◌∷◌, ◌++◌, ◌≡◌, ◌≢◌, refl, sym, ap, ◌∙◌, arith, ◌⊎◌, inl,
  inr, Bool-cases, Option, none, some, Text, ◌==◌, ==_iff, ==_refl, nat_eq, text_eq, Eq, All,
  is_prefix,
}
use icloud_linux.Path.Str.{split, strip_prefix}
use icloud_linux.Path.Defs.{IcPath, is_root, below_slash, is_within}
use icloud_linux.Path.Components.{
  components, slashed, render, IsComponent, split-append, split-slashed, slashed-append,
  All-IsSlashless, components-render, IsNormal,
}
use icloud_linux.Path.Moves.{is_root-render}

pub strip_prefix-append : (q r : Text) → strip_prefix q (q ++ r) ≡ some r
unfolding strip_prefix
strip_prefix-append [] r = refl
strip_prefix-append (c ∷ q) r = ground (arith, strip_prefix-append q r)

pub strip_prefix-eq-some : (q p r : Text) → strip_prefix q p ≡ some r → p ≡ q ++ r
unfolding strip_prefix
strip_prefix-eq-some [] p r h = ground arith
strip_prefix-eq-some (c ∷ q) [] r h = cc
strip_prefix-eq-some (c ∷ q) (d ∷ p) r h = ground (arith, strip_prefix-eq-some q p r)

abbrev pub Extends {ℓ} : {A : Type ℓ} → List A → List A → Type ℓ
Extends {A} ps qs = (rest : List A) × (ps ≡ qs ++ rest)

module _ {ℓ} {A : Type ℓ} ⦃e : Eq A⦄ where
  pub is_prefix-Extends : (qs ps : List A) → is_prefix qs ps ≡ true → Extends ps qs
  is_prefix-Extends [] ps h = (ps, refl)
  is_prefix-Extends (q ∷ qs) [] h = cc
  is_prefix-Extends (q ∷ qs) (p ∷ ps) h = ground (arith, is_prefix-Extends qs ps)

  pub is_prefix-append : (qs rest : List A) → is_prefix qs (qs ++ rest) ≡ true
  is_prefix-append [] rest = refl
  is_prefix-append (q ∷ qs) rest = ground (arith, is_prefix-append qs rest)

pub bool_ext : (a b : Bool) → (a ≡ true → b ≡ true) → (b ≡ true → a ≡ true) → a ≡ b
bool_ext true b f g = sym (f refl)
bool_ext false true f g = g refl
bool_ext false false f g = refl

below_slash_cases : (o : Option Text) → below_slash o ≡ true → (r : Text) × (o ≡ some (b'/' ∷ r))
below_slash_cases none h = cc
below_slash_cases (some []) h = cc
below_slash_cases (some (c ∷ r)) h = (r, ap (λ d. some (d ∷ r)) ((==_iff c b'/').0 h))

-- The three ways in which the code finds a path within another.
is_within_cases :
    (p q : IcPath)
    → is_within p q ≡ true
    → (is_root q ≡ true) ⊎ ((p ≡ q) ⊎ ((r : Text) × (p ≡ q ++ (b'/' ∷ r))))
unfolding is_within
is_within_cases p q h = elim (Bool-cases (is_root q || p == q)) [
  | inl near ↦ ground arith
  | inr far ↦
      let (r, e) = below_slash_cases (strip_prefix q p) (ground arith) in
      inr (inr (r, strip_prefix-eq-some q p (b'/' ∷ r) e))
]

module _ (ps qs : List Text) (hp : All IsComponent ps) (hq : All IsComponent qs) where
  render_inj : render ps ≡ render qs → ps ≡ qs
  render_inj e = sym (components-render ps hp) ∙ ap components e ∙ components-render qs hq

Extends-of_text :
    (ps qs : List Text) (r : Text)
    → All IsComponent ps
    → All IsComponent qs
    → render ps ≡ slashed qs ++ (b'/' ∷ r)
    → qs ≢ []
    → Extends ps qs
Extends-of_text ps [] r hp hq e ne = absurd (ne refl)
Extends-of_text [] ([] ∷ qs) r hp hq e ne = absurd (hq.0.ne_nil refl)
Extends-of_text [] ((x ∷ q) ∷ qs) r hp hq e ne = cc
Extends-of_text (p ∷ ps) qs r hp hq e ne = (
  split b'/' r,
  cc (
    split-slashed (p ∷ ps) (All-IsSlashless (p ∷ ps) hp),
    split-append b'/' (slashed qs) r,
    split-slashed qs (All-IsSlashless qs hq),
  ),
)

within-Extends :
    (ps qs : List Text)
    → All IsComponent ps
    → All IsComponent qs
    → is_within (render ps) (render qs) ≡ true
    → Extends ps qs
within-Extends ps [] hp hq h = (ps, refl)
within-Extends ps (q ∷ qs) hp hq h = elim (is_within_cases (render ps) (render (q ∷ qs)) h) [
  | inl top ↦ absurd (cc (is_root-render (q ∷ qs) hq))
  | inr (inl same) ↦ ([], render_inj ps (q ∷ qs) hp hq same ∙ sym (append-nil (q ∷ qs)))
  | inr (inr (r, e)) ↦ Extends-of_text ps (q ∷ qs) r hp hq e (λ n. cc)
]

within-append :
    (qs rest : List Text) → All IsComponent qs → is_within (render (qs ++ rest)) (render qs) ≡ true
unfolding is_within
within-append [] rest hq = rw (is_root-render [] tt)
within-append (q ∷ qs) [] hq = rw append-nil (ground (arith, ==_refl (render (q ∷ qs))))
within-append (q ∷ qs) (c ∷ rest) hq = rw (slashed-append (q ∷ qs) (c ∷ rest)) (
    ground (
      arith,
      strip_prefix-append (slashed (q ∷ qs)) (b'/' ∷ (c ++ slashed rest)),
      ==_refl {A = ℕ} b'/',
    ))

pub is_within-render :
    (ps qs : List Text)
    → All IsComponent ps
    → All IsComponent qs
    → is_within (render ps) (render qs) ≡ is_prefix qs ps
is_within-render ps qs hp hq =
    bool_ext _ _
      (λ h. let (rest, e) = within-Extends ps qs hp hq h in rw e (is_prefix-append qs rest))
      (λ h. let (rest, e) = is_prefix-Extends qs ps h in rw e (within-append qs rest hq))

-- A normal path is within another exactly when the components of the other are the first ones of
-- its own: a name that merely starts with another's does not count.
pub is_within-components :
    (p q : IcPath)
    → IsNormal p
    → IsNormal q
    → is_within p q ≡ is_prefix (components q) (components p)
is_within-components p q np nq =
    ap₂ is_within (sym np.rendered) (sym nq.rendered)
    ∙ is_within-render (components p) (components q) np.parts nq.parts
