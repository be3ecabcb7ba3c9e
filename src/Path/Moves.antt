-- ===== src/Path/Moves.antt =====
-- `parent`, `file_name`, `join` and `depth` on the components of a path.
use mathlib.Core.List.{append-nil}
use icloud_linux.Prelude.{
  ℕ, true, false, List, [], ◌∷◌, ◌++◌, ◌≡◌, refl, sym, ap, ◌∙◌, arith, none, some, Text, ==_refl,
  nat_eq, text_eq, length, take, All, All-right, is_empty,
}
use icloud_linux.Path.Str.{split, rfind, rsplit_next, last_piece, count}
use icloud_linux.Path.Defs.{root, is_root, cut_at, parent, file_name, is_valid_name, join, depth}
use icloud_linux.Path.Components.{
  slashed, render, IsSlashless, IsComponent, split-append, split_slashless, slashed-append,
  All-IsSlashless,
}

pub render_filled : (cs : List Text) (c : Text) → render (cs ++ (c ∷ [])) ≡ slashed cs ++ (b'/' ∷ c)
render_filled [] c = rw append-nil
render_filled (d ∷ cs) c = slashed-append (d ∷ cs) (c ∷ []) ∙ rw append-nil

rfind_slashless : (c : Text) → IsSlashless c → rfind b'/' c ≡ none
unfolding rfind
rfind_slashless [] h = refl
rfind_slashless (x ∷ c) h = ground (arith, rfind_slashless c)

rfind-append : (x c : Text) → IsSlashless c → rfind b'/' (x ++ (b'/' ∷ c)) ≡ some (length x)
unfolding rfind
rfind-append [] c h = ground (arith, rfind_slashless c h, ==_refl {A = ℕ} b'/')
rfind-append (y ∷ x) c h = rw (rfind-append x c h)

pub take-length-append {ℓ} : {A : Type ℓ} (x y : List A) → take (length x) (x ++ y) ≡ x
take-length-append [] y = refl
take-length-append (a ∷ x) y = ap (◌∷◌ a) (take-length-append x y)

cut_slashed :
    (cs : List Text) (c : Text)
    → cut_at (slashed cs ++ (b'/' ∷ c)) (some (length (slashed cs))) ≡ render cs
cut_slashed [] c = refl
cut_slashed (d ∷ cs) c = take-length-append (slashed (d ∷ cs)) (b'/' ∷ c)

pub parent-render :
    (cs : List Text) (c : Text) → IsSlashless c → parent (render (cs ++ (c ∷ []))) ≡ render cs
unfolding parent
parent-render cs c h =
    rw (render_filled cs c) (rw (rfind-append (slashed cs) c h) (cut_slashed cs c))

is_root-slashed : (c : Text) (cs : List Text) → IsComponent c → is_root (slashed (c ∷ cs)) ≡ false
unfolding is_root
is_root-slashed [] cs h = absurd (h.ne_nil refl)
is_root-slashed (x ∷ c) cs h = ground arith

pub is_root-render : (cs : List Text) → All IsComponent cs → is_root (render cs) ≡ is_empty cs
is_root-render [] h = unfold is_root in ==_refl root
is_root-render (c ∷ cs) h = is_root-slashed c cs h.0

last_piece-append : (ps : List Text) (c : Text) → last_piece (ps ++ (c ∷ [])) ≡ c
last_piece-append [] c = refl
last_piece-append (p ∷ []) c = refl
last_piece-append (p ∷ q ∷ ps) c = last_piece-append (q ∷ ps) c

rsplit_next-append : (x c : Text) → IsSlashless c → rsplit_next b'/' (x ++ (b'/' ∷ c)) ≡ c
unfolding rsplit_next
rsplit_next-append x c h =
    rw (split-append b'/' x c) (rw (split_slashless c h) (last_piece-append (split b'/' x) c))

is_empty-append {ℓ} : {A : Type ℓ} (xs : List A) (a : A) → is_empty (xs ++ (a ∷ [])) ≡ false
is_empty-append [] a = refl
is_empty-append (x ∷ xs) a = refl

pub file_name-render :
    (cs : List Text) (c : Text)
    → All IsComponent (cs ++ (c ∷ []))
    → file_name (render (cs ++ (c ∷ []))) ≡ some c
unfolding file_name
file_name-render cs c h = rw (is_root-render (cs ++ (c ∷ [])) h) (
    rw (is_empty-append cs c) (
      rw (render_filled cs c) (
        ap some
          (rsplit_next-append (slashed cs) c (All-right IsComponent cs (c ∷ []) h).0.slashless))))

count_slashless : (c s : Text) → IsSlashless c → count b'/' (c ++ s) ≡ count b'/' s
unfolding count
count_slashless [] s h = refl
count_slashless (x ∷ c) s h = ground (arith, count_slashless c s)

count-slashed : (cs : List Text) → All IsSlashless cs → count b'/' (slashed cs) ≡ length cs
unfolding count nat_eq
count-slashed [] h = refl
count-slashed (c ∷ cs) h = omega (arith, count_slashless c (slashed cs) h.0, count-slashed cs h.1)

pub depth-render : (cs : List Text) → All IsComponent cs → depth (render cs) ≡ length cs
unfolding depth
depth-render [] h = rw (is_root-render [] tt)
depth-render (c ∷ cs) h =
    rw (is_root-render (c ∷ cs) h) (count-slashed (c ∷ cs) (All-IsSlashless (c ∷ cs) h))

-- A file name that Drive could hold is a component.
pub is_valid_name-IsComponent : (name : Text) → is_valid_name name ≡ true → IsComponent name
unfolding is_valid_name
is_valid_name-IsComponent name h = ground arith

pub join-render :
    (cs : List Text) (name : Text)
    → All IsComponent cs
    → is_valid_name name ≡ true
    → join (render cs) name ≡ some (render (cs ++ (name ∷ [])))
unfolding join
join-render [] name h v = rw v (rw (is_root-render [] tt) (rw append-nil))
join-render (c ∷ cs) name h v =
    rw v (rw (is_root-render (c ∷ cs) h) (ap some (sym (render_filled (c ∷ cs) name))))
