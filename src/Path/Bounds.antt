-- ===== src/Path/Bounds.antt =====
-- `subtree_bounds`: the range scan of the state database selects exactly a path and what lies
-- within it. Texts are compared byte by byte, as SQLite's default collation does.
use mathlib.Core.Bool.{or-true}
use mathlib.Core.Path.{subst}
use icloud_linux.Prelude.{
  ℕ, ◌-◌, Bool, true, false, not, ◌&&◌, ◌||◌, List, [], ◌∷◌, ◌++◌, ◌≡◌, refl, arith, inl, inr,
  Bool-cases, Text, ◌==◌, ==_iff, ==_refl, nat_eq, text_eq, length, length-append, ltb,
}
use icloud_linux.Path.Str.{strip_prefix, starts_with}
use icloud_linux.Path.Defs.{IcPath, root, is_root, is_within, below_slash, subtree_bounds}
use icloud_linux.Path.Components.{components, render, IsNormal}
use icloud_linux.Path.Moves.{take-length-append}

-- `a < b` on TEXT values.
unfoldable pub text_lt : Text → Text → Bool
text_lt [] [] = false
text_lt [] (y ∷ ys) = true
text_lt (x ∷ xs) [] = false
text_lt (x ∷ xs) (y ∷ ys) = ltb x y || (x == y && text_lt xs ys)

-- `path >= low AND path < high`
unfoldable pub in_range : Text × Text → Text → Bool
unfolding text_lt
in_range (low, high) q = not (text_lt q low) && text_lt q high

-- `path = ?1 OR (path >= ?2 AND path < ?3)` with the bounds of `p`: the rows of its subtree.
unfoldable pub in_subtree : IcPath → IcPath → Bool
in_subtree p q = q == p || in_range (subtree_bounds p) q

range_slash :
    (x q : Text) → in_range (x ++ (b'/' ∷ []), x ++ (b'0' ∷ [])) q ≡ below_slash (strip_prefix x q)
unfolding in_range strip_prefix text_lt
range_slash [] [] = refl
range_slash [] (c ∷ []) = ground arith
range_slash [] (c ∷ d ∷ q) = ground arith
range_slash (x ∷ xs) [] = refl
range_slash (x ∷ xs) (c ∷ q) = ground (arith, range_slash xs q)

bounds_below :
    (p : IcPath) → is_root p ≡ false → subtree_bounds p ≡ (p ++ (b'/' ∷ []), p ++ (b'0' ∷ []))
unfolding subtree_bounds
bounds_below p h =
    let short : length (p ++ (b'/' ∷ [])) - 1 ≡ length p =
      omega (arith, length-append p (b'/' ∷ [])) in
    rw h (rw short (rw (take-length-append p (b'/' ∷ []))))

bounds_root : subtree_bounds root ≡ (root, b'0' ∷ [])
unfolding subtree_bounds is_root text_eq nat_eq
bounds_root = refl

render-slash : (cs : List Text) → starts_with b'/' (render cs) ≡ true
render-slash [] = ==_refl {A = ℕ} b'/'
render-slash (c ∷ cs) = ==_refl {A = ℕ} b'/'

is_root-eq : (p : IcPath) → is_root p ≡ true → p ≡ root
unfolding is_root
is_root-eq p h = (==_iff p root).0 h

in_range_root : (q : IcPath) → in_range (root, b'0' ∷ []) q ≡ starts_with b'/' q
unfolding strip_prefix
in_range_root q = range_slash [] q

-- The scan for the rows of `p`'s subtree finds a row with a normal path exactly when that path is
-- within `p`: no name with a common prefix is found, and no wildcard is read.
pub in_subtree-is_within : (p q : IcPath) → IsNormal q → in_subtree p q ≡ is_within q p
unfolding in_subtree is_within
in_subtree-is_within p q n = elim (Bool-cases (is_root p)) [
  | inl top ↦
      let here = is_root-eq p top in
      let slash : starts_with b'/' q ≡ true =
        subst (λ t. starts_with b'/' t ≡ true) n.rendered (render-slash (components q)) in
      rw (here, bounds_root, in_range_root q, slash, ==_refl root) (or-true (q == root))
  | inr deep ↦ rw (bounds_below p deep) (rw (range_slash p q) (rw deep refl))
]
