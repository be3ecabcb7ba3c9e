-- ===== src/Inodes/Renaming.antt =====
-- `rename` moves the inodes of a subtree to their new paths and drops those of what was there.
use mathlib.Core.Option.{map as map_option}
use mathlib.Core.Path.{subst}
use icloud_linux.Prelude.{
  ℕ, Bool, true, false, ◌||◌, List, [], ◌∷◌, ◌≡◌, refl, sym, ap, ◌∙◌, arith, inl, inr, ◌==◌,
  ==_refl, nat_eq, text_eq, All, contains, Option, Option-cases, none, some, if◌then◌else◌,
  Bool-cases, get, keys, get-cons, Assoc,
}
use icloud_linux.Path.{IcPath, root, is_within, is_root, rebase}
use icloud_linux.Path.Components.{IsNormal}
use icloud_linux.Path.Order.{root-is_within}
use icloud_linux.Path.Rebase.{rebase-rebase, rebase_outside}
use icloud_linux.Inodes.{
  InodeTable, root_ino, path, moving, relink, relink_all, remove_subtree, rename,
}
use icloud_linux.Inodes.Links.{
  IsLinked, IsValid, replace, relink-IsLinked, by_ino-relink, by_path-relink, relink_absent,
}
use icloud_linux.Inodes.Removal.{
  get-not_listed, outside, remove_subtree-IsLinked, next-remove_subtree, by_path-remove_subtree,
  by_ino-remove_subtree,
}

-- Where a path is after the loop of `rename`.
abbrev moved : List (IcPath × IcPath) → IcPath → IcPath
moved [] p = p
moved ((src, dst) ∷ moves) p = moved moves (replace src dst p)

map_id : (o : Option IcPath) → map_option (moved []) o ≡ o
map_id none = refl
map_id (some p) = refl

map_moved :
    (src dst : IcPath) (moves : List (IcPath × IcPath)) (o : Option IcPath)
    → map_option (moved moves) (map_option (replace src dst) o)
      ≡ map_option (moved ((src, dst) ∷ moves)) o
map_moved src dst moves none = refl
map_moved src dst moves (some p) = refl

-- Each move goes from a normal path that is not within `to` to its rebased path.
abbrev IsPlan : IcPath → IcPath → List (IcPath × IcPath) → Type 0
IsPlan from to [] = Unit
IsPlan from to ((src, dst) ∷ moves) =
    (IsNormal src × (is_within src to ≡ false) × (rebase src from to ≡ some dst))
    × IsPlan from to moves

-- Every path within `to` has come from a path that is no longer there.
abbrev IsVacated : IcPath → IcPath → InodeTable → Type 0
IsVacated from to t =
    (k : IcPath) (i : ℕ)
    → get k t.by_path ≡ some i
    → is_within k to ≡ true
    → (src : IcPath) × (rebase k to from ≡ some src)
      × (is_within src to ≡ false)
      × (get src t.by_path ≡ none)

module _ (from to : IcPath) (nf : IsNormal from) (nt : IsNormal to) where
  -- The way is free for the next move.
  vacant :
      (t : InodeTable) (src dst : IcPath) (i : ℕ)
      → IsVacated from to t
      → IsNormal src
      → rebase src from to ≡ some dst
      → get src t.by_path ≡ some i
      → get dst t.by_path ≡ none
  vacant t src dst i free n e here = elim (Option-cases (get dst t.by_path)) [
    | inl empty ↦ empty
    | inr (j, full) ↦
        let (nd, _, inside, back) = rebase-rebase src from to n nf nt e in
        let (src', back', _, gone) = free dst j full inside in ground arith
  ]

  relink-IsVacated :
      (t : InodeTable) (src dst : IcPath) (i : ℕ)
      → IsVacated from to t
      → IsNormal src
      → is_within src to ≡ false
      → rebase src from to ≡ some dst
      → get src t.by_path ≡ some i
      → IsVacated from to (relink src dst t)
  relink-IsVacated t src dst i free n out e here k j h inside =
      let (nd, _, dst_in, back) = rebase-rebase src from to n nf nt e in
      elim (text_eq.dec dst k) [
        | yes p ↦ (src, ground arith, out, by_path-relink t src dst src here ∙ ground arith)
        | no other ↦
            let (src', back', out', gone) =
              free k j (ground (arith, by_path-relink t src dst k here)) inside in
            (src', back', out', by_path-relink t src dst src' here ∙ ground arith)
      ]

  relink_step :
      (t : InodeTable) (src dst : IcPath)
      → IsLinked t
      → IsVacated from to t
      → IsNormal src
      → is_within src to ≡ false
      → rebase src from to ≡ some dst
      → IsLinked (relink src dst t)
        × IsVacated from to (relink src dst t)
        × ((relink src dst t).next ≡ t.next)
  relink_step t src dst v free n out e = elim (Option-cases (get src t.by_path)) [
    | inl gone ↦ rw (relink_absent t src dst gone) (v, free, refl)
    | inr (ino, here) ↦ (
      relink-IsLinked t v src dst (rebase-rebase src from to n nf nt e).0
          (vacant t src dst ino free n e here),
      relink-IsVacated t src dst ino free n out e here,
      unfold relink in rw (here, relink) refl,
    )
  ]

  relink_all-moves :
      (moves : List (IcPath × IcPath)) (t : InodeTable)
      → IsPlan from to moves
      → IsLinked t
      → IsVacated from to t
      → IsLinked (relink_all moves t)
        × ((relink_all moves t).next ≡ t.next)
        × ((i : ℕ) → get i (relink_all moves t).by_ino ≡ map_option (moved moves) (get i t.by_ino))
  unfolding relink_all
  relink_all-moves [] t plan v free = (v, refl, λ i. sym (map_id (get i t.by_ino)))
  relink_all-moves ((src, dst) ∷ moves) t ((n, out, e), plan) v free =
      let (v', free', same) = relink_step t src dst v free n out e in
      let (linked, next, track) = relink_all-moves moves (relink src dst t) plan v' free' in
      (
        linked,
        next ∙ same,
        λ i.
            track i
            ∙ ap (map_option (moved moves)) (by_ino-relink t v src dst i)
            ∙ map_moved src dst moves (get i t.by_ino),
      )

moving-IsPlan :
    (from to : IcPath) (ps : List IcPath)
    → All (λ p. IsNormal p × (is_within p to ≡ false)) ps
    → IsPlan from to (moving from to ps)
unfolding moving
moving-IsPlan from to [] h = tt
moving-IsPlan from to (p ∷ ps) ((n, out), h) = elim (Option-cases (rebase p from to)) [
  | inl e ↦ rw (e, moving) (moving-IsPlan from to ps h)
  | inr (dst, e) ↦ rw (e, moving) ((n, out, e), moving-IsPlan from to ps h)
]

-- A path within `to` is not moved on.
moved_inside :
    (from to : IcPath) (moves : List (IcPath × IcPath)) (p : IcPath)
    → IsPlan from to moves
    → is_within p to ≡ true
    → moved moves p ≡ p
moved_inside from to [] p plan h = refl
moved_inside from to ((src, dst) ∷ moves) p ((n, out, e), plan) h =
    let stays : replace src dst p ≡ p = ground arith in
    ap (moved moves) stays ∙ moved_inside from to moves p plan h

-- Where `rename` leaves a path: rebased if it lies within `from`, and as it was if not.
abbrev pub rebased : IcPath → IcPath → IcPath → IcPath
rebased from to p = elim (rebase p from to) [ none ↦ p | some q ↦ q ]

moved-moving :
    (from to : IcPath) (ps : List IcPath) (p : IcPath)
    → IsNormal from
    → IsNormal to
    → All (λ q. IsNormal q × (is_within q to ≡ false)) ps
    → moved (moving from to ps) p ≡ (if contains p ps then rebased from to p else p)
unfolding moving
moved-moving from to [] p nf nt h = refl
moved-moving from to (q ∷ ps) p nf nt ((n, out), h) = elim (Option-cases (rebase q from to)) [
  | inl e ↦
      rw (e, moving)
        (elim (text_eq.dec q p) [
          | yes same ↦
              let still : rebase p from to ≡ none = subst (λ r. rebase r from to ≡ none) same e in
              moved-moving from to ps p nf nt h ∙ ground arith
          | no other ↦ moved-moving from to ps p nf nt h ∙ ground arith
        ])
  | inr (dst, e) ↦
      let (_, _, inside, _) = rebase-rebase q from to n nf nt e in
      rw (e, moving)
        (elim (text_eq.dec q p) [
          | yes same ↦
              let there : rebase p from to ≡ some dst =
                subst (λ r. rebase r from to ≡ some dst) same e in
              ap (moved (moving from to ps)) (ground arith)
              ∙ moved_inside from to (moving from to ps) dst (moving-IsPlan from to ps h) inside
              ∙ ground arith
          | no other ↦
              ap (moved (moving from to ps)) (ground arith)
              ∙ moved-moving from to ps p nf nt h
              ∙ ground arith
        ])
]

All-of-contains :
    (P : IcPath → Type 0) (ps : List IcPath)
    → ((p : IcPath) → contains p ps ≡ true → P p)
    → All P ps
All-of-contains P [] h = tt
All-of-contains P (p ∷ ps) h =
    (h p (ground (arith, ==_refl p)), All-of-contains P ps (λ q k. h q (ground arith)))

get_of-contains :
    (p : IcPath) (m : Assoc IcPath ℕ) → contains p (keys m) ≡ true → (i : ℕ) × (get p m ≡ some i)
get_of-contains p [] h = cc
get_of-contains p ((q, i) ∷ m) h = elim (text_eq.dec q p) [
  | yes same ↦ (i, get-cons p q i m ∙ ground arith)
  | no other ↦
      let (j, e) = get_of-contains p m (ground arith) in (j, get-cons p q i m ∙ ground arith)
]

listed_of-get :
    (p : IcPath) (m : Assoc IcPath ℕ) (i : ℕ) → get p m ≡ some i → contains p (keys m) ≡ true
listed_of-get p m i e = elim (Bool-cases (contains p (keys m))) [
  | inl h ↦ h
  | inr h ↦ cc (get-not_listed p m h)
]

module _ (t : InodeTable) (from to : IcPath) (v : IsLinked t) (nf : IsNormal from)
    (nt : IsNormal to) (deep : is_root to ≡ false) where
  abbrev cleared : InodeTable
  cleared = remove_subtree t to

  cleared-IsLinked : IsLinked cleared
  cleared-IsLinked = remove_subtree-IsLinked t to v

  cleared_outside : (p : IcPath) (i : ℕ) → get p cleared.by_path ≡ some i → is_within p to ≡ false
  cleared_outside p i h = ground (arith, by_path-remove_subtree t to p deep)

  cleared_keys : All (λ q. IsNormal q × (is_within q to ≡ false)) (keys cleared.by_path)
  cleared_keys = All-of-contains _ (keys cleared.by_path) (λ p h.
      let (i, e) = get_of-contains p cleared.by_path h in
      (cleared-IsLinked.normal p i e, cleared_outside p i e))

  cleared-IsVacated : IsVacated from to cleared
  cleared-IsVacated k i h inside = absurd (cc (cleared_outside k i h))

  abbrev renamed : InodeTable
  renamed = relink_all (moving from to (keys cleared.by_path)) cleared

  renamed_facts :
      IsLinked renamed
      × (renamed.next ≡ cleared.next)
      × ((i : ℕ)
          → get i renamed.by_ino
            ≡ map_option (moved (moving from to (keys cleared.by_path))) (get i cleared.by_ino))
  renamed_facts =
      relink_all-moves from to nf nt (moving from to (keys cleared.by_path)) cleared
        (moving-IsPlan from to (keys cleared.by_path) cleared_keys) cleared-IsLinked
        cleared-IsVacated

  map_moved-rebased :
      (i : ℕ) (o : Option IcPath)
      → get i cleared.by_ino ≡ o
      → map_option (moved (moving from to (keys cleared.by_path))) o
        ≡ map_option (rebased from to) o
  map_moved-rebased i none e = refl
  map_moved-rebased i (some p) e =
      let here = listed_of-get p cleared.by_path i (cleared-IsLinked.backward p i e) in
      ap some (moved-moving from to (keys cleared.by_path) p nf nt cleared_keys ∙ rw here refl)

  renamed_path :
      (i : ℕ) → get i renamed.by_ino ≡ map_option (rebased from to) (outside to (get i t.by_ino))
  renamed_path i =
      renamed_facts.2 i
      ∙ map_moved-rebased i (get i cleared.by_ino) refl
      ∙ ap (map_option (rebased from to)) (by_ino-remove_subtree t to i v deep)

abbrev pub is_degenerate : IcPath → IcPath → Bool
is_degenerate from to = from == to || is_root from || is_root to

root_stays :
    (from to : IcPath)
    → IsNormal from
    → IsNormal to
    → is_root from ≡ false
    → is_root to ≡ false
    → map_option (rebased from to) (outside to (some root)) ≡ some root
root_stays from to nf nt df dt =
    rw (root-is_within to nt dt)
      (ground (arith, rebase_outside root from to (root-is_within from nf df)))

-- A rename keeps the table valid. It changes nothing if the paths are the same or one of them is
-- the root. If not, an inode whose path lies within `to` is dropped; of the others, one whose path
-- lies within `from` follows to the rebased path, and each other one keeps its path.
pub path-rename :
    (t : InodeTable) (from to : IcPath) (i : ℕ)
    → IsValid t
    → IsNormal from
    → IsNormal to
    → IsValid (rename t from to)
      × (path (rename t from to) i ≡ (
          if is_degenerate from to
          then path t i
          else map_option (rebased from to) (outside to (path t i))))
unfolding path rename
path-rename t from to i v nf nt = elim (Bool-cases (is_degenerate from to)) [
  | inl still ↦ rw (still, rename) (v, refl)
  | inr apart ↦
      let df : is_root from ≡ false = ground arith in
      let dt : is_root to ≡ false = ground arith in
      rw (apart, rename)
        (
          record {
            linked = (renamed_facts t from to v.linked nf nt dt).0;
            rooted =
                renamed_path t from to v.linked nf nt dt root_ino
                ∙ rw v.rooted (root_stays from to nf nt df dt);
            in_range =
                rw ((renamed_facts t from to v.linked nf nt dt).1 ∙ next-remove_subtree t to)
                  v.in_range;
          },
          renamed_path t from to v.linked nf nt dt i,
        )
]
