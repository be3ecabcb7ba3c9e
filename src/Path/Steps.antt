-- ===== src/Path/Steps.antt =====
-- One step down the tree (`join`), one step up (`parent`, `file_name`), and what `IcPath::new` does
-- with one more piece of text.
use mathlib.Core.Path.{subst}
use mathlib.Core.List.{foldl, drop_last}
use icloud_linux.Prelude.{
  true, ◌<◌, ◌+◌, false, List, [], ◌∷◌, ◌++◌, ◌≡◌, refl, sym, ap, ◌∙◌, arith, ◌⊎◌, inl, inr,
  Bool-cases, none, some, Text, nat_eq, text_eq, length-append, All, All-append, All-left,
  All-right,
}
use icloud_linux.Path.Str.{split, rfind}
use icloud_linux.Path.Defs.{
  IcPath, root, dot, dot_dot, push_part, parent, file_name, is_root, is_valid_name, join, depth,
  new,
}
use icloud_linux.Path.Components.{
  components, render, IsComponent, split_slashless, components-render, IsNormal, render-IsNormal,
  new-render, parts_of-append, components-new, parts_of, parts_of-All, foldl-push_part,
}
use icloud_linux.Path.Moves.{
  parent-render, file_name-render, depth-render, is_valid_name-IsComponent, join-render,
}

join_of_invalid : (p : IcPath) (name : Text) → is_valid_name name ≡ false → join p name ≡ none
unfolding join
join_of_invalid p name h = rw h

module _ (cs : List Text) (h : All IsComponent cs) (name : Text) (c : IsComponent name) where
  below : All IsComponent (cs ++ (name ∷ []))
  below = All-append IsComponent cs (name ∷ []) h (c, tt)

  step_facts :
      IsNormal (render (cs ++ (name ∷ [])))
      × (parent (render (cs ++ (name ∷ []))) ≡ render cs)
      × (file_name (render (cs ++ (name ∷ []))) ≡ some name)
      × (depth (render (cs ++ (name ∷ []))) ≡ depth (render cs) + 1)
  step_facts = (
    render-IsNormal _ below,
    parent-render cs name c.slashless,
    file_name-render cs name below,
    omega (arith, depth-render _ below, depth-render cs h, length-append cs (name ∷ [])),
  )

-- A joined path is normal; its parent is the path it was joined to, its file name is the name, and
-- it lies one deeper.
pub parent-join :
    (p : IcPath) (name : Text) {q : IcPath}
    → IsNormal p
    → join p name ≡ some q
    → IsNormal q × (parent q ≡ p) × (file_name q ≡ some name) × (depth q ≡ depth p + 1)
parent-join p name {q} n e = elim (Bool-cases (is_valid_name name)) [
  | inr bad ↦ absurd (cc (join_of_invalid p name bad))
  | inl good ↦
      let c = is_valid_name-IsComponent name good in
      let at : join p name ≡ some (render (components p ++ (name ∷ []))) =
        subst (λ r. join r name ≡ some (render (components p ++ (name ∷ [])))) n.rendered
          (join-render (components p) name n.parts good) in
      let here : q ≡ render (components p ++ (name ∷ [])) = cc in
      let (a, b, f, d) = step_facts (components p) n.parts name c in
      rw here (a, b ∙ n.rendered, f, d ∙ ap (λ r. depth r + 1) n.rendered)
]

snoc_cases {ℓ} :
    {A : Type ℓ} (xs : List A) → (xs ≡ []) ⊎ ((ys : List A) × (y : A) × (xs ≡ ys ++ (y ∷ [])))
snoc_cases [] = inl refl
snoc_cases (x ∷ xs) = elim (snoc_cases xs) [
  | inl e ↦ inr ([], x, ap (◌∷◌ x) e)
  | inr (ys, y, e) ↦ inr (x ∷ ys, y, ap (◌∷◌ x) e)
]

parent-root : parent root ≡ root
unfolding parent rfind nat_eq
parent-root = refl

-- A path is the root, its own parent with no file name, or it is its parent with its file name
-- below it, and the parent is normal and lies one less deep.
abbrev pub StepsUp : IcPath → Type 0
StepsUp p =
    ((p ≡ root) × (parent p ≡ root) × (file_name p ≡ none))
    ⊎ ((name : Text) × IsComponent name
        × (file_name p ≡ some name)
        × (p ≡ render (components (parent p) ++ (name ∷ [])))
        × IsNormal (parent p)
        × (depth p ≡ depth (parent p) + 1))

render-StepsUp : (cs : List Text) → All IsComponent cs → StepsUp (render cs)
render-StepsUp cs h = elim (snoc_cases cs) [
  | inl e ↦ rw e (inl (refl, parent-root, unfold file_name is_root text_eq nat_eq in refl))
  | inr (ys, y, e) ↦
      let hs : All IsComponent (ys ++ (y ∷ [])) = subst (All IsComponent) e h in
      let hy = All-left IsComponent ys (y ∷ []) hs in
      let (_, up, named, deep) = step_facts ys hy y (All-right IsComponent ys (y ∷ []) hs).0 in
      rw e (
        inr (
          y,
          (All-right IsComponent ys (y ∷ []) hs).0,
          named,
          sym (
              ap (λ q. render (components q ++ (y ∷ []))) up
              ∙ ap (λ ds. render (ds ++ (y ∷ []))) (components-render ys hy)),
          subst IsNormal (sym up) (render-IsNormal ys hy),
          deep ∙ ap (λ q. depth q + 1) (sym up),
        ))
]

-- A normal path is the root, its own parent with no file name, or it is its parent with its file
-- name, a component, below it, and then the parent is normal and lies one less deep.
pub parent_step : (p : IcPath) → IsNormal p → StepsUp p
parent_step p n = subst StepsUp n.rendered (render-StepsUp (components p) n.parts)

root_itself : is_root root ≡ true
unfolding is_root text_eq nat_eq
root_itself = refl

pub parent-IsNormal : (p : IcPath) → IsNormal p → IsNormal (parent p)
parent-IsNormal p n = elim (parent_step p n) [
  | inl (at, up, name) ↦ subst IsNormal (sym up) (render-IsNormal [] tt)
  | inr (name, c, named, back, up, deep) ↦ up
]

-- A path below a folder other than the root is deeper than it.
pub parent-depth :
    (p : IcPath) → IsNormal p → is_root (parent p) ≡ false → depth (parent p) < depth p
parent-depth p n below = elim (parent_step p n) [
  | inl (at, up, name) ↦ absurd (cc (root_itself, ap is_root up, below))
  | inr (name, c, named, back, up, deep) ↦ omega (arith, deep)
]

drop_last_snoc {ℓ} : {A : Type ℓ} (xs : List A) (a : A) → drop_last (xs ++ (a ∷ [])) ≡ xs
drop_last_snoc [] a = refl
drop_last_snoc (x ∷ []) a = refl
drop_last_snoc (x ∷ y ∷ xs) a = ap (◌∷◌ x) (drop_last_snoc (y ∷ xs) a)

render-drop_last :
    (cs : List Text) → All IsComponent cs → render (drop_last cs) ≡ parent (render cs)
render-drop_last cs h = elim (snoc_cases cs) [
  | inl e ↦ rw e (sym parent-root)
  | inr (ys, y, e) ↦
      let hs : All IsComponent (ys ++ (y ∷ [])) = subst (All IsComponent) e h in
      rw e (
        rw (drop_last_snoc ys y)
          (sym (parent-render ys y (All-right IsComponent ys (y ∷ []) hs).0.slashless)))
]

new-append :
    (raw piece : Text)
    → split b'/' piece ≡ piece ∷ []
    → new (raw ++ (b'/' ∷ piece)) ≡ render (push_part (parts_of raw) piece)
new-append raw piece e =
    new-render _ ∙ ap render (parts_of-append raw piece ∙ ap (foldl push_part (parts_of raw)) e)

-- `IcPath::new` on a text followed by a slash and one more piece: an empty piece and `.` change
-- nothing, `..` takes the parent, and a component is added below.
pub new_piece :
    (raw name : Text)
    → IsComponent name
    → (new (raw ++ (b'/' ∷ [])) ≡ new raw)
      × (new (raw ++ (b'/' ∷ dot)) ≡ new raw)
      × (new (raw ++ (b'/' ∷ dot_dot)) ≡ parent (new raw))
      × (new (raw ++ (b'/' ∷ name)) ≡ render (components (new raw) ++ (name ∷ [])))
unfolding split nat_eq text_eq
new_piece raw name c = (
  new-append raw [] refl ∙ sym (new-render raw),
  new-append raw dot refl ∙ sym (new-render raw),
  new-append raw dot_dot refl
      ∙ render-drop_last (parts_of raw) (parts_of-All raw)
      ∙ ap parent (sym (new-render raw)),
  new-append raw name (split_slashless name c.slashless)
      ∙ ap render (
          foldl-push_part (parts_of raw) (name ∷ []) (c, tt)
          ∙ ap (λ cs. cs ++ (name ∷ [])) (sym (components-new raw))),
)
