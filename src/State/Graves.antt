-- ===== src/State/Graves.antt =====
-- The paths at which `bury` puts rows contain NUL, which no path of a file system does.
use mathlib.Core.List.{foldl}
use icloud_linux.Prelude.{
  inl, inr, Bool-cases, ℕ, Bool, true, false, List, [], ◌∷◌, ◌++◌, ◌≡◌, refl, ap, ◌∙◌, arith, Text,
  codes, contains, ◌==◌, nat_eq, text_eq,
}
use icloud_linux.Path.{IcPath, push_part}
use icloud_linux.Path.Str.{split, push_front}
use icloud_linux.Path.Moves.{render_filled}
use icloud_linux.Path.Components.{IsSlashless, slashed, parts_of, new-render, split_slashless}
use icloud_linux.State.Trees.{graveyard}

-- Does a text contain NUL?
abbrev pub has_nul : Text → Bool
has_nul s = contains 0 s

-- A list of pieces the last of which contains NUL.
abbrev EndsInNul : List Text → Type 0
EndsInNul pieces =
    (front : List Text) × (c : Text) × (pieces ≡ front ++ (c ∷ [])) × (has_nul c ≡ true)

has_nul-append : (s t : Text) → has_nul t ≡ true → has_nul (s ++ t) ≡ true
has_nul-append [] t h = h
has_nul-append (c ∷ s) t h = ground (arith, has_nul-append s t h)

push_front-EndsInNul :
    (c : ℕ) (pieces : List Text) → EndsInNul pieces → EndsInNul (push_front c pieces)
push_front-EndsInNul c pieces ([], x, e, h) = ([], c ∷ x, ap (push_front c) e, ground (arith, h))
push_front-EndsInNul c pieces (y ∷ front, x, e, h) = ((c ∷ y) ∷ front, x, ap (push_front c) e, h)

split-EndsInNul : (p s : Text) → IsSlashless (0 ∷ s) → EndsInNul (split b'/' (p ++ (0 ∷ s)))
unfolding split
split-EndsInNul [] s h = ([], 0 ∷ s, split_slashless (0 ∷ s) h, ground arith)
split-EndsInNul (c ∷ p) s h =
    let (front, x, e, nul) = split-EndsInNul p s h in
    elim (Bool-cases (c == b'/')) [
      | inl slash ↦ rw slash ([] ∷ front, x, ap (◌∷◌ []) e, nul)
      | inr plain ↦ rw plain (push_front-EndsInNul c (split b'/' (p ++ (0 ∷ s))) (front, x, e, nul))
    ]

push_part-has_nul :
    (parts : List Text) (c : Text) → has_nul c ≡ true → push_part parts c ≡ parts ++ (c ∷ [])
unfolding nat_eq text_eq
push_part-has_nul parts c h = ground arith

foldl-append_last :
    (ps front : List Text) (c : Text)
    → foldl push_part ps (front ++ (c ∷ [])) ≡ push_part (foldl push_part ps front) c
foldl-append_last ps [] c = refl
foldl-append_last ps (x ∷ front) c = foldl-append_last (push_part ps x) front c

graves_part : IsSlashless (0 ∷ (codes "displaced-"))
unfolding nat_eq
graves_part = refl

contains-append :
    (c : ℕ) (s t : Text) → contains c s ≡ false → contains c t ≡ false → contains c (s ++ t) ≡ false
contains-append c [] t hs ht = ht
contains-append c (x ∷ s) t hs ht = ground (arith, contains-append c s t)

-- The marker is a hexadecimal number: it has no slash.
pub graveyard-has_nul :
    (p : IcPath) (marker : Text) → IsSlashless marker → has_nul (graveyard p marker) ≡ true
unfolding graveyard
graveyard-has_nul p marker h =
    let plain = contains-append b'/' (0 ∷ codes "displaced-") marker graves_part h in
    let (front, c, e, nul) = split-EndsInNul p (codes "displaced-" ++ marker) plain in
    let before = foldl push_part [] front in
    let parts : parts_of (p ++ (0 ∷ (codes "displaced-" ++ marker))) ≡ before ++ (c ∷ []) =
      ap (foldl push_part []) e ∙ (foldl-append_last [] front c ∙ push_part-has_nul before c nul) in
    rw (new-render (p ++ (0 ∷ (codes "displaced-" ++ marker)))) (
      rw parts (
        rw (render_filled before c)
          (has_nul-append (slashed before) (b'/' ∷ c) (ground (arith, nul)))))
