-- ===== src/Path/Components/Normal.antt =====
-- Every path that the operations build is normal.
use mathlib.Core.List.{foldl, foldl-append, drop_last, append-nil, append_assoc}
use mathlib.Core.Path.{subst}
use icloud_linux.Prelude.{
  ℕ, false, List, [], ◌∷◌, ◌++◌, ◌≡◌, refl, sym, ap, ◌∙◌, arith, Text, ◌==◌, nat_eq, text_eq, inl,
  inr, Bool-cases, All, All-append,
}
use icloud_linux.Path.Str.{split, push_front}
use icloud_linux.Path.Defs.{IcPath, push_part, new}
use icloud_linux.Path.Components.Pieces.{
  components, render, IsSlashless, IsComponent, split-append, split-slashed, All-IsSlashless,
  components-render, render_parts,
}

pub record IsNormal (p : IcPath) : Type 0 where
  pub parts : All IsComponent (components p)
  pub rendered : render (components p) ≡ p

pub render-IsNormal : (cs : List Text) → All IsComponent cs → IsNormal (render cs)
render-IsNormal cs h = record {
  parts = rw (components-render cs h) h;
  rendered = ap render (components-render cs h);
}

-- The parts that `IcPath::new` has collected at the end of its loop.
abbrev pub parts_of : Text → List Text
parts_of raw = foldl push_part [] (split b'/' raw)

pub new-render : (raw : Text) → new raw ≡ render (parts_of raw)
unfolding new
new-render raw = render_parts (parts_of raw)

push_front-IsSlashless :
    (c : ℕ) (ps : List Text)
    → (c == b'/') ≡ false
    → All IsSlashless ps
    → All IsSlashless (push_front c ps)
push_front-IsSlashless c [] h hs = ground arith
push_front-IsSlashless c (p ∷ ps) h hs = ground arith

split-IsSlashless : (s : Text) → All IsSlashless (split b'/' s)
unfolding split
split-IsSlashless [] = (refl, tt)
split-IsSlashless (c ∷ s) = elim (Bool-cases (c == b'/')) [
  | inl sep ↦ rw sep (refl, split-IsSlashless s)
  | inr other ↦ rw other (push_front-IsSlashless c _ other (split-IsSlashless s))
]

All-drop_last {ℓ κ} : {A : Type ℓ} (P : A → Type κ) (xs : List A) → All P xs → All P (drop_last xs)
All-drop_last P [] h = tt
All-drop_last P (x ∷ []) h = tt
All-drop_last P (x ∷ y ∷ xs) h = (h.0, All-drop_last P (y ∷ xs) h.1)

push_part-All :
    (ps : List Text) (c : Text)
    → All IsComponent ps
    → IsSlashless c
    → All IsComponent (push_part ps c)
push_part-All ps c h s =
    ground (arith, All-drop_last IsComponent ps h, All-append IsComponent ps (c ∷ []) h)

foldl-push_part-All :
    (ps cs : List Text)
    → All IsComponent ps
    → All IsSlashless cs
    → All IsComponent (foldl push_part ps cs)
foldl-push_part-All ps [] h hs = h
foldl-push_part-All ps (c ∷ cs) h hs =
    foldl-push_part-All (push_part ps c) cs (push_part-All ps c h hs.0) hs.1

pub parts_of-All : (raw : Text) → All IsComponent (parts_of raw)
parts_of-All raw = foldl-push_part-All [] (split b'/' raw) tt (split-IsSlashless raw)

push_part_component : (ps : List Text) (c : Text) → IsComponent c → push_part ps c ≡ ps ++ (c ∷ [])
push_part_component ps c h = ground arith

pub foldl-push_part : (ps cs : List Text) → All IsComponent cs → foldl push_part ps cs ≡ ps ++ cs
foldl-push_part ps [] h = sym (append-nil ps)
foldl-push_part ps (c ∷ cs) h =
    rw (push_part_component ps c h.0)
      (foldl-push_part (ps ++ (c ∷ [])) cs h.1 ∙ append_assoc ps (c ∷ []) cs)

-- Whatever text is given, `IcPath::new` returns a normal path.
pub new-IsNormal : (raw : Text) → IsNormal (new raw)
new-IsNormal raw = rw (new-render raw) (render-IsNormal (parts_of raw) (parts_of-All raw))

-- The components of `IcPath::new` are the parts that its loop collects.
pub components-new : (raw : Text) → components (new raw) ≡ parts_of raw
components-new raw = rw (new-render raw) (components-render (parts_of raw) (parts_of-All raw))

parts_of-render : (cs : List Text) → All IsComponent cs → parts_of (render cs) ≡ cs
unfolding split nat_eq text_eq
parts_of-render [] h = refl
parts_of-render (c ∷ cs) h =
    ap (foldl push_part []) (split-slashed (c ∷ cs) (All-IsSlashless (c ∷ cs) h))
    ∙ foldl-push_part [] (c ∷ cs) h

-- Normalising a normal path changes nothing.
pub new_self : (p : IcPath) → IsNormal p → new p ≡ p
new_self p n =
    subst (λ q. new q ≡ q) n.rendered (new-render _ ∙ ap render (parts_of-render _ n.parts))

-- The parts of a text with a slash in it: the parts behind the slash are pushed, one by one, on
-- those before it.
pub parts_of-append :
    (x y : Text) → parts_of (x ++ (b'/' ∷ y)) ≡ foldl push_part (parts_of x) (split b'/' y)
parts_of-append x y =
    ap (foldl push_part []) (split-append b'/' x y)
    ∙ foldl-append push_part [] (split b'/' x) (split b'/' y)
