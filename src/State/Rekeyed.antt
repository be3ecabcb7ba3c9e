-- ===== src/State/Rekeyed.antt =====
-- The loops that give the rows of a subtree new paths, one UPDATE for each entry (`rename_tree` and
-- `detach_subtree_as_conflict`).
use icloud_linux.State.Keyed.{at_entry, AreDistinct}
use icloud_linux.State.Burial.{any-here}
use icloud_linux.State.Elsewhere.{row_at-update_away, at_path_away}
use icloud_linux.State.Fetched.{differs}
use icloud_linux.Path.Rebase.{rebase-rebase}
use icloud_linux.Path.Components.{IsNormal}
use mathlib.Core.Path.{subst}
use mathlib.Core.Option.{some-injective}
use icloud_linux.Prelude.{
  Option, Option-cases, false, not, ◌&&◌, List, [], ◌∷◌, ◌≡◌, refl, sym, ◌∙◌, inl, inr, arith, any,
  some, Text, ◌==◌, ==_iff, Bool-cases, nat_eq, text_eq, true, ap, All, none,
}
use icloud_linux.Path.{rebase, IcPath, is_within}
use icloud_linux.State.Rows.{Entry, Row}
use icloud_linux.State.Sql.{update_where, find_where}
use icloud_linux.State.Defs.{at_path}
use icloud_linux.State.Lookup.{IsKeyed, update_absent, row_at, row_at_rekeyed}
use icloud_linux.State.Trees.{update_key}

pub any_rekeyed :
    (x p p' : Text) (f : Row → Row) (rows : List Row)
    → ((r : Row) → (f r).path ≡ p')
    → (p' == x) ≡ false
    → any (at_path x) rows ≡ false
    → any (at_path x) (update_where (at_path p) f rows) ≡ false
unfolding update_where
any_rekeyed x p p' f [] new other h = refl
any_rekeyed x p p' f (r ∷ rows) new other h =
    ground (arith, new r, h, any_rekeyed x p p' f rows new other)

update_where-IsKeyed :
    (p p' : Text) (f : Row → Row) (rows : List Row)
    → ((r : Row) → (f r).path ≡ p')
    → (not (p == p') && any (at_path p') rows) ≡ false
    → IsKeyed rows
    → IsKeyed (update_where (at_path p) f rows)
unfolding update_where
update_where-IsKeyed p p' f [] new free keyed = tt
update_where-IsKeyed p p' f (r ∷ rows) new free (once, keyed) = elim (text_eq.dec r.path p) [
  | yes here ↦
      let absent : any (at_path p) rows ≡ false =
        subst (λ x. any (at_path x) rows ≡ false) here once in
      let unused : any (at_path p') rows ≡ false = elim (Bool-cases (p == p')) [
        | inl same ↦ subst (λ x. any (at_path x) rows ≡ false) ((==_iff p p').0 same) absent
        | inr apart ↦ ground (arith, apart, free)
      ] in
      rw ((==_iff r.path p).1 here, update_absent p f rows absent) (rw (new r) unused, keyed)
  | no other ↦
      let stays : (r.path == p) ≡ false = ground (arith, other) in
      let unused : (not (p == p') && any (at_path p') rows) ≡ false = ground (arith, free) in
      let elsewhere : (p' == r.path) ≡ false = ground (arith, free, other) in
      rw stays (
        any_rekeyed r.path p p' f rows new elsewhere once,
        update_where-IsKeyed p p' f rows new unused keyed,
      )
]

-- What a successful UPDATE of a key has found and done.
update_key-done :
    (p p' : Text) (f : Row → Row) (rows : List Row) {rows' : List Row}
    → update_key p p' f rows ≡ some rows'
    → (any (at_path p) rows && (not (p == p') && any (at_path p') rows) ≡ false)
      × (update_where (at_path p) f rows ≡ rows')
unfolding update_key
update_key-done p p' f rows h =
    elim (Bool-cases (any (at_path p) rows && (not (p == p') && any (at_path p') rows))) [
      | inl taken ↦ absurd (cc (rw taken at h))
      | inr free ↦ (free, some-injective _ _ (rw free at h))
    ]

pub update_key-IsKeyed :
    (p p' : Text) (f : Row → Row) (rows : List Row) {rows' : List Row}
    → ((r : Row) → (f r).path ≡ p')
    → update_key p p' f rows ≡ some rows'
    → IsKeyed rows
    → IsKeyed rows'
update_key-IsKeyed p p' f rows {rows'} new h keyed =
    let (free, same) = update_key-done p p' f rows h in
    elim (Bool-cases (any (at_path p) rows)) [
      | inl there ↦
          subst IsKeyed same
            (update_where-IsKeyed p p' f rows new (ground (arith, free, there)) keyed)
      | inr absent ↦ subst IsKeyed (sym (update_absent p f rows absent) ∙ same) keyed
    ]

module _ (old new : IcPath) (f : Entry → IcPath → Row → Row)
    (f_path : (e : Entry) (u : IcPath) (r : Row) → (f e u r).path ≡ u) where
  abbrev pub rekey : Entry → List Row → Option (List Row)
  rekey e rows = elim (rebase e.path old new) [
    | none ↦ some rows
    | some u ↦ update_key e.path u (f e u) rows
  ]

  -- The loop has gone from some rows to others.
  abbrev pub AreRekeyed : List Entry → List Row → List Row → Type 0
  AreRekeyed [] rows rows' = rows ≡ rows'
  AreRekeyed (e ∷ es) rows rows' =
      (next : List Row) × (rekey e rows ≡ some next) × AreRekeyed es next rows'

  rekey-IsKeyed :
      (e : Entry) (rows : List Row) {next : List Row}
      → rekey e rows ≡ some next
      → IsKeyed rows
      → IsKeyed next
  rekey-IsKeyed e rows {next} h keyed = elim (Option-cases (rebase e.path old new)) [
    | inl stays ↦ subst IsKeyed (some-injective _ _ (rw (stays, rekey) at h)) keyed
    | inr (u, moves) ↦
        update_key-IsKeyed e.path u (f e u) rows (f_path e u) (rw (moves, rekey) at h) keyed
  ]

  module _ (no_ : IsNormal old) (nn : IsNormal new)
      (apart : (x : IcPath) → IsNormal x → is_within x old ≡ true → is_within x new ≡ false) where
    -- Neither end of the move of `e` is `x`.
    abbrev PassesBy : IcPath → Entry → Type 0
    PassesBy x e =
        (u : IcPath) → rebase e.path old new ≡ some u → ((e.path == x) ≡ false) × ((u == x) ≡ false)

    rekey_away :
        (e : Entry) (rows : List Row) (x : IcPath) {next : List Row}
        → PassesBy x e
        → rekey e rows ≡ some next
        → row_at x next ≡ row_at x rows
    rekey_away e rows x {next} by h = elim (Option-cases (rebase e.path old new)) [
      | inl stays ↦ ap (row_at x) (sym (some-injective _ _ (rw (stays, rekey) at h)))
      | inr (u, moves) ↦
          let (free, same) = update_key-done e.path u (f e u) rows (rw (moves, rekey) at h) in
          ap (row_at x) (sym same)
          ∙ row_at-update_away x (at_path e.path)
              (λ r away. at_path_away e.path x r (by u moves).0 away) (f e u) rows
              (λ r away. ap (λ y. y == x) (f_path e u r) ∙ (by u moves).1)
    ]

    AreRekeyed-away :
        (x : IcPath) (es : List Entry) (rows rows' : List Row)
        → All (PassesBy x) es
        → AreRekeyed es rows rows'
        → row_at x rows' ≡ row_at x rows
    AreRekeyed-away x [] rows rows' by same = ap (row_at x) (sym same)
    AreRekeyed-away x (e ∷ es) rows rows' by (next, first, rest) =
        AreRekeyed-away x es next rows' by.1 rest ∙ rekey_away e rows x by.0 first

    module _ (p q : IcPath) (np : IsNormal p) (moves : rebase p old new ≡ some q) where
      inside : is_within p old ≡ true
      inside = (rebase-rebase p old new np no_ nn moves).1

      arrived : is_within q new ≡ true
      arrived = (rebase-rebase p old new np no_ nn moves).2

      -- What is moved before or after `p` comes from and goes to other paths.
      target_ne_source : (x u : IcPath) → IsNormal x → rebase x old new ≡ some u → (u == p) ≡ false
      target_ne_source x u nx h =
          differs u p (λ y. is_within y new) (rebase-rebase x old new nx no_ nn h).2
            (apart p np inside)

      target_ne_target :
          (x u : IcPath)
          → IsNormal x
          → (x == p) ≡ false
          → rebase x old new ≡ some u
          → (u == q) ≡ false
      target_ne_target x u nx other h = elim (Bool-cases (u == q)) [
        | inr away ↦ away
        | inl same ↦
            let back_x = (rebase-rebase x old new nx no_ nn h).3 in
            let back_p = (rebase-rebase p old new np no_ nn moves).3 in
            let back : rebase q new old ≡ some x =
              subst (λ y. rebase y new old ≡ some x) ((==_iff u q).0 same) back_x in
            absurd (cc (other, (==_iff x p).1 (some-injective _ _ (sym back ∙ back_p))))
      ]

      source_ne_target : (x : IcPath) → IsNormal x → is_within x old ≡ true → (x == q) ≡ false
      source_ne_target x nx h = elim (Bool-cases (x == q)) [
        | inr away ↦ away
        | inl same ↦ absurd (cc ((==_iff x q).0 same, apart x nx h, arrived))
      ]

      passes_source : (d : Entry) → IsNormal d.path → (d.path == p) ≡ false → PassesBy p d
      passes_source d nd other u h = (other, target_ne_source d.path u nd h)

      passes_target : (d : Entry) → IsNormal d.path → (d.path == p) ≡ false → PassesBy q d
      passes_target d nd other u h = (
        source_ne_target d.path nd (rebase-rebase d.path old new nd no_ nn h).1,
        target_ne_target d.path u nd other h,
      )

      All_others :
          (P : Entry → Type 0) (es : List Entry)
          → ((d : Entry) → IsNormal d.path → (d.path == p) ≡ false → P d)
          → All (λ (d : Entry). IsNormal d.path) es
          → any (at_entry p) es ≡ false
          → All P es
      All_others P [] give ne none_ = tt
      All_others P (d ∷ es) give ne none_ =
          (give d ne.0 (ground (arith, none_)), All_others P es give ne.1 (ground (arith, none_)))

      rekey_here :
          (e : Entry) (r : Row) (rows next : List Row)
          → e.path ≡ p
          → IsKeyed rows
          → row_at p rows ≡ some r
          → rekey e rows ≡ some next
          → (row_at q next ≡ some (f e q r)) × (row_at p next ≡ none)
      rekey_here e r rows next at keyed here h =
          let there : rebase e.path old new ≡ some q = ap (λ x. rebase x old new) at ∙ moves in
          let (free, same) = update_key-done e.path q (f e q) rows (rw (there, rekey) at h) in
          let apart_ : (p == q) ≡ false = source_ne_target p np inside in
          let here_any : any (at_path p) rows ≡ true = any-here p rows r here in
          let free_q : any (at_path q) rows ≡ false =
            let at_p =
              subst (λ x. (any (at_path x) rows && (not (x == q) && any (at_path q) rows)) ≡ false)
                at free in
            ground (arith, at_p, apart_, here_any) in
          let both = λ (x : IcPath).
            ap (row_at x) (sym same ∙ ap (λ y. update_where (at_path y) (f e q) rows) at)
            ∙ row_at_rekeyed x p q (f e q) rows keyed (f_path e q) free_q here_any in
          (
            both q ∙ rw (here, (==_iff q q).1 refl) refl,
            both p ∙ rw (target_ne_source p q np moves, (==_iff p p).1 refl) refl,
          )

      -- The row at `p` is at `q` afterwards, as the UPDATE of its entry writes it, and not at `p`.
      pub AreRekeyed-moved :
          (es : List Entry) (e : Entry) (r : Row) (rows rows' : List Row)
          → All (λ (d : Entry). IsNormal d.path) es
          → AreDistinct es
          → find_where (at_entry p) es ≡ some e
          → IsKeyed rows
          → row_at p rows ≡ some r
          → AreRekeyed es rows rows'
          → (row_at q rows' ≡ some (f e q r)) × (row_at p rows' ≡ none)
      unfolding find_where
      AreRekeyed-moved [] e r rows rows' ne distinct found keyed here h = absurd (cc found)
      AreRekeyed-moved (d ∷ es) e r rows rows' ne distinct found keyed here (next, first, rest) =
          elim (Bool-cases (d.path == p)) [
            | inl same ↦
                let at = (==_iff d.path p).0 same in
                let is_e : d ≡ e = some-injective _ _ (rw same at found) in
                let alone : any (at_entry p) es ≡ false =
                  subst (λ x. any (at_entry x) es ≡ false) at distinct.0 in
                let (to, gone) = rekey_here d r rows next at keyed here first in
                (
                  AreRekeyed-away q es next rows'
                        (All_others (PassesBy q) es passes_target ne.1 alone) rest
                      ∙ (to ∙ ap (λ x. some (f x q r)) is_e),
                  AreRekeyed-away p es next rows'
                        (All_others (PassesBy p) es passes_source ne.1 alone) rest
                      ∙ gone,
                )
            | inr other ↦
                AreRekeyed-moved es e r next rows' ne.1 distinct.1 (rw other at found)
                  (rekey-IsKeyed d rows first keyed)
                  (rekey_away d rows p (passes_source d ne.0 other) first ∙ here) rest
          ]
