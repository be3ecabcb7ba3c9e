-- ===== src/Path/Rebase.antt =====
-- `relative_to` and `rebase` on the components of a path: moving a subtree swaps its first
-- components and keeps the rest.
use mathlib.Core.Path.{subst}
use mathlib.Core.List.{append-nil}
use icloud_linux.Prelude.{
  ℕ, true, false, List, [], ◌∷◌, ◌++◌, ◌≡◌, refl, sym, ap, ◌∙◌, arith, inl, inr, Bool-cases, none,
  some, Text, ==_refl, nat_eq, text_eq, length, drop, All, All-append, All-right, is_prefix,
}
use icloud_linux.Path.Str.{trim_start}
use icloud_linux.Path.Defs.{IcPath, is_within, relative_to, under, rebase}
use icloud_linux.Path.Components.{
  components, slashed, render, IsComponent, slashed-append, components-render, IsNormal,
  render-IsNormal,
}
use icloud_linux.Path.Moves.{is_root-render}
use icloud_linux.Path.Within.{
  Extends, is_prefix-Extends, is_prefix-append, is_within-render, is_within-components,
}

-- The text of the relative part.
abbrev relative : List Text → Text
relative [] = []
relative (c ∷ cs) = c ++ slashed cs

trim_start-relative :
    (cs : List Text) → All IsComponent cs → trim_start b'/' (relative cs) ≡ relative cs
unfolding trim_start
trim_start-relative [] h = refl
trim_start-relative ([] ∷ cs) h = absurd (h.0.ne_nil refl)
trim_start-relative ((x ∷ c) ∷ cs) h = ground (arith, h.0.slashless)

trim_start-slashed :
    (cs : List Text) → All IsComponent cs → trim_start b'/' (slashed cs) ≡ relative cs
unfolding trim_start
trim_start-slashed [] h = refl
trim_start-slashed (c ∷ cs) h = rw (==_refl {A = ℕ} b'/') (trim_start-relative (c ∷ cs) h)

trim_start-render :
    (cs : List Text) → All IsComponent cs → trim_start b'/' (render cs) ≡ relative cs
unfolding trim_start nat_eq
trim_start-render [] h = refl
trim_start-render (c ∷ cs) h = trim_start-slashed (c ∷ cs) h

drop-length-append {ℓ} : {A : Type ℓ} (xs ys : List A) → drop (length xs) (xs ++ ys) ≡ ys
drop-length-append [] ys = refl
drop-length-append (x ∷ xs) ys = drop-length-append xs ys

module _ (qs rest : List Text) (hq : All IsComponent qs) (hr : All IsComponent rest) where
  within : is_within (render (qs ++ rest)) (render qs) ≡ true
  within =
      is_within-render (qs ++ rest) qs (All-append IsComponent qs rest hq hr) hq
      ∙ is_prefix-append qs rest

pub relative_to-render :
    (qs rest : List Text)
    → All IsComponent qs
    → All IsComponent rest
    → relative_to (render (qs ++ rest)) (render qs) ≡ some (relative rest)
unfolding relative_to
relative_to-render [] rest hq hr =
    rw (within [] rest hq hr) (rw (is_root-render [] tt) (ap some (trim_start-render rest hr)))
relative_to-render (q ∷ qs) rest hq hr = rw (within (q ∷ qs) rest hq hr) (
    rw (is_root-render (q ∷ qs) hq) (
      rw (slashed-append (q ∷ qs) rest) (
        rw (drop-length-append (slashed (q ∷ qs)) (slashed rest))
          (ap some (trim_start-slashed rest hr)))))

under-relative :
    (ts rest : List Text)
    → All IsComponent ts
    → All IsComponent rest
    → under (render ts) (relative rest) ≡ render (ts ++ rest)
under-relative ts [] ht hr = rw append-nil
under-relative ts ([] ∷ rest) ht hr = absurd (hr.0.ne_nil refl)
under-relative [] ((x ∷ c) ∷ rest) ht hr = rw (is_root-render [] tt)
under-relative (t ∷ ts) ((x ∷ c) ∷ rest) ht hr =
    rw (is_root-render (t ∷ ts) ht) (sym (slashed-append (t ∷ ts) ((x ∷ c) ∷ rest)))

pub rebase-render :
    (qs rest ts : List Text)
    → All IsComponent qs
    → All IsComponent rest
    → All IsComponent ts
    → rebase (render (qs ++ rest)) (render qs) (render ts) ≡ some (render (ts ++ rest))
unfolding rebase
rebase-render qs rest ts hq hr ht =
    rw (relative_to-render qs rest hq hr, rebase) (ap some (under-relative ts rest ht hr))

pub rebase_outside : (p from to : IcPath) → is_within p from ≡ false → rebase p from to ≡ none
unfolding rebase relative_to
rebase_outside p from to h = ground arith

-- What `rebase` computes: the components behind those of `from`, placed behind those of `to`.
pub rebase-components :
    (p from to : IcPath) (rest : List Text)
    → IsNormal p
    → IsNormal from
    → IsNormal to
    → components p ≡ components from ++ rest
    → rebase p from to ≡ some (render (components to ++ rest))
rebase-components p from to rest np nf nt e =
    let hs : All IsComponent (components from ++ rest) = subst (All IsComponent) e np.parts in
    let hr = All-right IsComponent (components from) rest hs in
    let there : rebase (render (components p)) (render (components from)) (render (components to))
        ≡ some (render (components to ++ rest)) =
      rw e (rebase-render (components from) rest (components to) nf.parts hr nt.parts) in
    subst (λ q. rebase q from to ≡ some (render (components to ++ rest))) np.rendered
      (subst (λ q. rebase (render (components p)) q to ≡ some (render (components to ++ rest)))
        nf.rendered
        (subst
          (λ q.
            rebase (render (components p)) (render (components from)) q
            ≡ some (render (components to ++ rest)))
          nt.rendered there))

-- The components of a path within another are those of the other and some more.
pub within_rest :
    (p q : IcPath)
    → IsNormal p
    → IsNormal q
    → is_within p q ≡ true
    → Extends (components p) (components q)
within_rest p q np nq h =
    is_prefix-Extends (components q) (components p) (sym (is_within-components p q np nq) ∙ h)

-- A successful `rebase` leads to a normal path within `to`, and back by the reverse `rebase`.
pub rebase-rebase :
    (p from to : IcPath) {q : IcPath}
    → IsNormal p
    → IsNormal from
    → IsNormal to
    → rebase p from to ≡ some q
    → IsNormal q × (is_within p from ≡ true) × (is_within q to ≡ true) × (rebase q to from ≡ some p)
rebase-rebase p from to {q} np nf nt e = elim (Bool-cases (is_within p from)) [
  | inr out ↦ absurd (cc (rebase_outside p from to out))
  | inl there ↦
      let (rest, split_p) = within_rest p from np nf there in
      let hr =
        All-right IsComponent (components from) rest (subst (All IsComponent) split_p np.parts) in
      let ht = All-append IsComponent (components to) rest nt.parts hr in
      let here : q ≡ render (components to ++ rest) =
        cc (rebase-components p from to rest np nf nt split_p) in
      let nq : IsNormal q =
        subst IsNormal (sym here) (render-IsNormal (components to ++ rest) ht) in
      let split_q : components q ≡ components to ++ rest =
        ap components here ∙ components-render (components to ++ rest) ht in
      (
        nq,
        there,
        is_within-components q to nq nt
            ∙ ap (is_prefix (components to)) split_q
            ∙ is_prefix-append (components to) rest,
        rebase-components q to from rest nq nt nf split_q
            ∙ ap some (ap render (sym split_p) ∙ np.rendered),
      )
]
