-- ===== src/Path/Order.antt =====
-- `is_within` is an order on normal paths whose upper sets are chains: two paths that hold a third
-- are comparable.
use mathlib.Core.Bool.{or-true}
use mathlib.Core.Path.{ap₂}
use icloud_linux.Prelude.{
  inr, ==_iff, inl, Bool-cases, false, true, ◌||◌, List, [], ◌∷◌, ◌≡◌, refl, sym, ap, ◌∙◌, arith,
  Eq, ==_refl, nat_eq, text_eq, is_prefix,
}
use icloud_linux.Path.Defs.{IcPath, root, is_root, is_within}
use icloud_linux.Path.Components.{components, components-root, render, render-IsNormal, IsNormal}
use icloud_linux.Path.Within.{is_within-components}

module _ {ℓ} {A : Type ℓ} ⦃e : Eq A⦄ where
  is_prefix_refl : (xs : List A) → is_prefix xs xs ≡ true
  is_prefix_refl [] = refl
  is_prefix_refl (x ∷ xs) = ground (arith, is_prefix_refl xs)

  is_prefix_trans :
      (xs ys zs : List A) → is_prefix xs ys ≡ true → is_prefix ys zs ≡ true → is_prefix xs zs ≡ true
  is_prefix_trans [] ys zs h k = refl
  is_prefix_trans (x ∷ xs) [] zs h k = cc
  is_prefix_trans (x ∷ xs) (y ∷ ys) [] h k = cc
  is_prefix_trans (x ∷ xs) (y ∷ ys) (z ∷ zs) h k = ground (arith, is_prefix_trans xs ys zs)

  is_prefix_antisymm : (xs ys : List A) → is_prefix xs ys ≡ true → is_prefix ys xs ≡ true → xs ≡ ys
  is_prefix_antisymm [] [] h k = refl
  is_prefix_antisymm [] (y ∷ ys) h k = cc
  is_prefix_antisymm (x ∷ xs) [] h k = cc
  is_prefix_antisymm (x ∷ xs) (y ∷ ys) h k = ground (arith, is_prefix_antisymm xs ys)

  is_prefix_chain :
      (xs ys zs : List A)
      → is_prefix xs zs ≡ true
      → is_prefix ys zs ≡ true
      → (is_prefix xs ys || is_prefix ys xs) ≡ true
  is_prefix_chain [] ys zs h k = refl
  is_prefix_chain (x ∷ xs) [] zs h k = refl
  is_prefix_chain (x ∷ xs) (y ∷ ys) [] h k = cc
  is_prefix_chain (x ∷ xs) (y ∷ ys) (z ∷ zs) h k = ground (arith, is_prefix_chain xs ys zs)

pub within_refl : (p : IcPath) → is_within p p ≡ true
unfolding is_within
within_refl p = rw (==_refl p, or-true) refl

pub within_trans :
    (p q r : IcPath)
    → IsNormal p
    → IsNormal q
    → IsNormal r
    → is_within p q ≡ true
    → is_within q r ≡ true
    → is_within p r ≡ true
within_trans p q r np nq nr h k =
    is_within-components p r np nr
    ∙ is_prefix_trans (components r) (components q) (components p)
        (sym (is_within-components q r nq nr) ∙ k) (sym (is_within-components p q np nq) ∙ h)

pub within_antisymm :
    (p q : IcPath) → IsNormal p → IsNormal q → is_within p q ≡ true → is_within q p ≡ true → p ≡ q
within_antisymm p q np nq h k =
    sym np.rendered
    ∙ ap render (
        is_prefix_antisymm (components p) (components q) (sym (is_within-components q p nq np) ∙ k)
          (sym (is_within-components p q np nq) ∙ h))
    ∙ nq.rendered

-- Two normal paths that a third lies within are one within the other.
pub within_chain :
    (p q r : IcPath)
    → IsNormal p
    → IsNormal q
    → IsNormal r
    → is_within p q ≡ true
    → is_within p r ≡ true
    → (is_within q r || is_within r q) ≡ true
within_chain p q r np nq nr h k =
    ap₂ ◌||◌ (is_within-components q r nq nr) (is_within-components r q nr nq)
    ∙ is_prefix_chain (components r) (components q) (components p)
        (sym (is_within-components p r np nr) ∙ k) (sym (is_within-components p q np nq) ∙ h)

root_within : (p : IcPath) → IsNormal p → is_within root p ≡ true → p ≡ root
root_within p n h =
    within_antisymm p root n (render-IsNormal [] tt)
      (is_within-components p root n (render-IsNormal [] tt) ∙ rw components-root refl) h

-- The root is within no other path.
pub root-is_within : (p : IcPath) → IsNormal p → is_root p ≡ false → is_within root p ≡ false
unfolding is_root
root-is_within p n deep = elim (Bool-cases (is_within root p)) [
  | inl h ↦ absurd (cc ((==_iff p root).1 (root_within p n h)))
  | inr h ↦ h
]
