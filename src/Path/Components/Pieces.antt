-- ===== src/Path/Components/Pieces.antt =====
-- Splitting and rendering undo one another.
use mathlib.Core.List.{append_assoc, append-nil}
use icloud_linux.Prelude.{
  ℕ, false, List, [], ◌∷◌, ◌++◌, ◌≡◌, ◌≢◌, refl, ap, ◌∙◌, arith, Text, ==_refl, nat_eq, text_eq,
  contains, All, is_empty, if◌then◌else◌,
}
use icloud_linux.Path.Str.{split, push_front, join_with}
use icloud_linux.Path.Defs.{IcPath, root, dot, dot_dot}

-- The pieces between the slashes that are not empty.
abbrev pub filled_pieces : List Text → List Text
filled_pieces [] = []
filled_pieces (c ∷ cs) = let rest = filled_pieces cs in if is_empty c then rest else c ∷ rest

unfoldable pub components : IcPath → List Text
components p = filled_pieces (split b'/' p)

abbrev pub slashed : List Text → Text
slashed [] = []
slashed (c ∷ cs) = b'/' ∷ (c ++ slashed cs)

abbrev pub render : List Text → IcPath
render [] = root
render (c ∷ cs) = slashed (c ∷ cs)

abbrev pub IsSlashless : Text → Type 0
IsSlashless c = contains b'/' c ≡ false

pub record IsComponent (c : Text) : Type 0 where
  pub ne_nil : c ≢ []
  pub ne_dot : c ≢ dot
  pub ne_dot_dot : c ≢ dot_dot
  pub slashless : IsSlashless c

pub split-ne-nil : (sep : ℕ) (s : Text) → split sep s ≢ []
unfolding split
split-ne-nil sep [] = λ e. cc
split-ne-nil sep (c ∷ s) = ground (arith, split-ne-nil sep s)

push_front-append :
    (c : ℕ) (ps qs : List Text) → ps ≢ [] → push_front c (ps ++ qs) ≡ push_front c ps ++ qs
push_front-append c [] qs h = absurd (h refl)
push_front-append c (p ∷ ps) qs h = refl

-- A cut at a separator cuts the list of pieces.
pub split-append : (sep : ℕ) (x r : Text) → split sep (x ++ (sep ∷ r)) ≡ split sep x ++ split sep r
unfolding split
split-append sep [] r = ground (arith, ==_refl sep)
split-append sep (c ∷ x) r = ground (
  arith,
  split-append sep x r,
  push_front-append c (split sep x) (split sep r) (split-ne-nil sep x),
)

pub split_slashless : (c : Text) → IsSlashless c → split b'/' c ≡ c ∷ []
unfolding split
split_slashless [] h = refl
split_slashless (x ∷ c) h = ground (arith, split_slashless c)

pub split_piece :
    (c : Text) (cs : List Text)
    → IsSlashless c
    → All IsSlashless cs
    → split b'/' (c ++ slashed cs) ≡ c ∷ cs
split_piece c [] h hs = rw append-nil (split_slashless c h)
split_piece c (d ∷ cs) h hs =
    split-append b'/' c (d ++ slashed cs) ∙ cc (split_slashless c h, split_piece d cs hs.0 hs.1)

pub split-slashed : (cs : List Text) → All IsSlashless cs → split b'/' (slashed cs) ≡ [] ∷ cs
unfolding split
split-slashed [] h = refl
split-slashed (c ∷ cs) h = split-append b'/' [] (c ++ slashed cs) ∙ cc (split_piece c cs h.0 h.1)

pub slashed-append : (cs ds : List Text) → slashed (cs ++ ds) ≡ slashed cs ++ slashed ds
slashed-append [] ds = refl
slashed-append (c ∷ cs) ds = simp (slashed-append cs ds, append_assoc)

pub All-IsSlashless : (cs : List Text) → All IsComponent cs → All IsSlashless cs
All-IsSlashless [] h = tt
All-IsSlashless (c ∷ cs) h = (h.0.slashless, All-IsSlashless cs h.1)

pub filled_pieces_self : (cs : List Text) → All IsComponent cs → filled_pieces cs ≡ cs
filled_pieces_self [] h = refl
filled_pieces_self ([] ∷ cs) h = absurd (h.0.ne_nil refl)
filled_pieces_self ((x ∷ c) ∷ cs) h = ap (◌∷◌ (x ∷ c)) (filled_pieces_self cs h.1)

pub components-root : components root ≡ []
unfolding components split nat_eq
components-root = refl

-- No list of components is lost in its rendering.
pub components-render : (cs : List Text) → All IsComponent cs → components (render cs) ≡ cs
unfolding components
components-render [] h = components-root
components-render (c ∷ cs) h =
    ap filled_pieces (split-slashed (c ∷ cs) (All-IsSlashless (c ∷ cs) h))
    ∙ filled_pieces_self (c ∷ cs) h

join_with-slashed : (c : Text) (cs : List Text) → b'/' ∷ join_with b'/' (c ∷ cs) ≡ slashed (c ∷ cs)
unfolding join_with
join_with-slashed c [] = rw append-nil
join_with-slashed c (d ∷ cs) = rw (join_with-slashed d cs)

-- What `IcPath::new` formats is the rendering of its parts.
pub render_parts :
    (parts : List Text)
    → (if is_empty parts then root else b'/' ∷ join_with b'/' parts) ≡ render parts
render_parts [] = refl
render_parts (c ∷ cs) = join_with-slashed c cs
