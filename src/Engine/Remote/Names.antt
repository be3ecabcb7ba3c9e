-- ===== src/Engine/Remote/Names.antt =====
-- The search for a free name of a conflict copy ends.
use icloud_linux.State.Sql.{find_where}
use mathlib.Core.Option.{none-ne-some, some-injective}
use icloud_linux.Prelude.{
  ℕ, zero, suc, ◌+◌, ◌≤◌, ◌<◌, Bool, true, false, ◌||◌, List, [], ◌∷◌, ◌++◌, map, length,
  length-append, contains, All, get, Option-cases, some, Text, codes, ◌≡◌, ◌⊎◌, refl, sym, ap, ◌∙◌,
  inl, inr, arith, Bool-cases, ◌==◌, ==_iff, nat_eq, text_eq,
}
use icloud_linux.Prelude.Decimal.{digits_injective}
use icloud_linux.Prelude.Pigeonhole.{AreDifferent, pigeonhole}
use icloud_linux.Path.{IcPath, parent, file_name}
use icloud_linux.Path.Components.{IsNormal}
use icloud_linux.Path.Steps.{parent-join, parent-IsNormal}
use icloud_linux.State.Rows.{Row}
use icloud_linux.State.Lookup.{row_at}
use icloud_linux.State.Queries.{get_entry}
use icloud_linux.Mirror.Files.{Disk, DiskNode}
use icloud_linux.Mirror
use icloud_linux.Engine.Site.{Site}
use icloud_linux.Engine.Remote.{
  suffix, or_root, candidate, is_unused, free_name, unique_conflict_path,
}

-- The name can be extended by the stamp and by any number up to a last one: it is not too long.
pub record IsExtendable (last : ℕ) (stamp : Text) (path : IcPath) : Type 0 where
  pub given : ℕ → IcPath
  pub joined : (k : ℕ) → k ≤ last → candidate stamp path k ≡ some (given k)

++_cancel : (a b c : Text) → a ++ b ≡ a ++ c → b ≡ c
++_cancel [] b c h = h
++_cancel (x ∷ a) b c h = ++_cancel a b c (cc)

suffix_injective : (j k : ℕ) → suffix j ≡ suffix k → j ≡ k
suffix_injective j k h = elim (Bool-cases (j == 1)) [
  | inl one ↦ elim (Bool-cases (k == 1)) [
    | inl one' ↦ (==_iff j 1).0 one ∙ sym ((==_iff k 1).0 one')
    | inr more ↦ absurd (cc (rw (one, more) at h))
  ]
  | inr more ↦ elim (Bool-cases (k == 1)) [
    | inl one ↦ absurd (cc (rw (more, one) at h))
    | inr more' ↦ digits_injective j k (++_cancel (codes "-") _ _ (rw (more, more') at h))
  ]
]

module _ (last : ℕ) (stamp : Text) (path : IcPath) (n : IsNormal path)
    (ext : IsExtendable last stamp path) where
  given_injective : (j k : ℕ) → j ≤ last → k ≤ last → ext.given j ≡ ext.given k → j ≡ k
  given_injective j k hj hk h =
      let named = λ (i : ℕ) (hi : i ≤ last).
        (parent-join (parent path) _ (parent-IsNormal path n) (ext.joined i hi)).2 in
      let same = some-injective _ _ (sym (named j hj) ∙ (ap file_name h ∙ named k hk)) in
      suffix_injective j k
        (++_cancel (or_root (file_name path) ++ codes ".local-conflict-" ++ stamp) _ _ same)

  -- The names that are tried from a number on.
  tried : ℕ → ℕ → List Text
  tried zero attempt = []
  tried (suc k) attempt = ext.given attempt ∷ tried k (attempt + 1)

  length-tried : (k attempt : ℕ) → length (tried k attempt) ≡ k
  unfolding tried
  length-tried zero attempt = refl
  length-tried (suc k) attempt = ap suc (length-tried k (attempt + 1))

  later_differs :
      (j k attempt : ℕ)
      → j < attempt
      → attempt + k ≤ last + 1
      → contains (ext.given j) (tried k attempt) ≡ false
  unfolding tried
  later_differs j zero attempt h top = refl
  later_differs j (suc k) attempt h top = elim (Bool-cases (ext.given attempt == ext.given j)) [
    | inl same ↦ absurd (
        omega (
          arith,
          h,
          given_injective attempt j (omega (arith, top)) (omega (arith, h, top))
              ((==_iff _ _).0 same),
        ))
    | inr other ↦ rw other (later_differs j k (attempt + 1) (omega (arith, h)) (omega (arith, top)))
  ]

  tried-AreDifferent : (k attempt : ℕ) → attempt + k ≤ last + 1 → AreDifferent (tried k attempt)
  unfolding tried
  tried-AreDifferent zero attempt top = tt
  tried-AreDifferent (suc k) attempt top =
      let rest : (attempt + 1) + k ≤ last + 1 = omega (arith, top) in
      (
        later_differs attempt k (attempt + 1) (omega arith) rest,
        tried-AreDifferent k (attempt + 1) rest,
      )

  -- A free name is found, or all names that are tried are in use.
  free_name-cases :
      {R : Type 0} (k attempt : ℕ) (s : Site R)
      → attempt + k ≤ last + 1
      → ((j : ℕ) × (j ≤ last)
          × (free_name stamp k attempt path s ≡ ext.given j)
          × (is_unused (ext.given j) s ≡ true))
        ⊎ All (λ p. is_unused p s ≡ false) (tried k attempt)
  unfolding free_name tried
  free_name-cases zero attempt s top = inr tt
  free_name-cases (suc k) attempt s top = elim (Bool-cases (is_unused (ext.given attempt) s)) [
    | inl free ↦
        inl (
          attempt,
          omega (arith, top),
          rw (ext.joined attempt (omega (arith, top)), free) refl,
          free,
        )
    | inr used ↦ elim (free_name-cases k (attempt + 1) s (omega (arith, top))) [
      | inl (j, low, found, free) ↦
          inl (j, low, rw (ext.joined attempt (omega (arith, top)), used) found, free)
      | inr all ↦ inr (used, all)
    ]
  ]

abbrev key_of : Text × DiskNode → Text
key_of (q, m) = q

abbrev path_of : Row → Text
path_of r = r.path

-- All that is there: no name outside of it is in use.
abbrev pub taken : {R : Type 0} → Site R → List Text
taken s = map key_of s.disk ++ map path_of s.state.entries

contains-append :
    (x : Text) (xs ys : List Text) → contains x (xs ++ ys) ≡ (contains x xs || contains x ys)
contains-append x [] ys = refl
contains-append x (y ∷ xs) ys = ground (arith, contains-append x xs ys)

exists-contains :
    (p : IcPath) (d : Disk) → Mirror.exists p d ≡ true → contains p (map key_of d) ≡ true
unfolding Mirror.exists get
exists-contains p [] h = absurd (cc (h))
exists-contains p ((q, m) ∷ d) h = ground (arith, h, exists-contains p d)

row_at-contains :
    (p : IcPath) (rows : List Row) (r : Row)
    → row_at p rows ≡ some r
    → contains p (map path_of rows) ≡ true
unfolding find_where
row_at-contains p [] r h = absurd (none-ne-some _ h)
row_at-contains p (q ∷ rows) r h = ground (arith, h, row_at-contains p rows r)

or_true : (b : Bool) → (b || true) ≡ true
or_true false = refl
or_true true = refl

used-contains :
    {R : Type 0} (p : IcPath) (s : Site R) → is_unused p s ≡ false → contains p (taken s) ≡ true
unfolding get_entry
used-contains p s h =
    contains-append p (map key_of s.disk) (map path_of s.state.entries)
    ∙ elim (Bool-cases (Mirror.exists p s.disk)) [
      | inl there ↦ rw (exists-contains p s.disk there) refl
      | inr absent ↦ elim (Option-cases (row_at p s.state.entries)) [
        | inl gone ↦ absurd (cc (rw (absent, gone) at h))
        | inr (r, here) ↦ rw (row_at-contains p s.state.entries r here) (or_true _)
      ]
    ]

All-used :
    {R : Type 0} (ps : List Text) (s : Site R)
    → All (λ p. is_unused p s ≡ false) ps
    → All (λ p. contains p (taken s) ≡ true) ps
All-used [] s h = tt
All-used (p ∷ ps) s h = (used-contains p s h.0, All-used ps s h.1)

length-map {ℓ} : {A : Type ℓ} (f : A → Text) (xs : List A) → length (map f xs) ≡ length xs
length-map f [] = refl
length-map f (x ∷ xs) = ap suc (length-map f xs)

-- The search for the name of a conflict copy ends: among as many names as there are files, folders and
-- entries, and one more, is one that neither the disk nor the database has, and the name that is
-- returned is such a one. The path is normal, and its name not too long to be extended by the numbers
-- that are tried.
pub unique_conflict_path-is_unused :
    {R : Type 0} (stamp : Text) (path : IcPath) (s : Site R) (k : ℕ)
    → IsNormal path
    → (ext : IsExtendable k stamp path) → length s.disk + length s.state.entries < k
    → (j : ℕ) × (j ≤ k)
      × (unique_conflict_path stamp k path s ≡ ext.given j)
      × (is_unused (unique_conflict_path stamp k path s) s ≡ true)
unfolding unique_conflict_path
unique_conflict_path-is_unused stamp path s k n ext enough =
    elim (free_name-cases k stamp path n ext k 1 s (omega arith)) [
      | inl (j, low, found, free) ↦ (j, low, found, rw found free)
      | inr all ↦
          let all_taken =
            pigeonhole (tried k stamp path n ext k 1) (taken s)
              (tried-AreDifferent k stamp path n ext k 1 (omega arith)) (All-used _ s all) in
          absurd (
            omega (
              arith,
              enough,
              all_taken,
              length-tried k stamp path n ext k 1,
              length-append (map key_of s.disk) (map path_of s.state.entries),
              length-map key_of s.disk,
              length-map path_of s.state.entries,
            ))
    ]
