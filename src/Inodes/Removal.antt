-- ===== src/Inodes/Removal.antt =====
-- `remove_subtree` drops exactly the paths within the one that is removed.
use icloud_linux.Prelude.{
  ℕ, false, ◌&&◌, List, [], ◌∷◌, ◌≡◌, refl, ◌∙◌, arith, inl, inr, Eq, nat_eq, text_eq, contains,
  Option, Option-cases, none, some, if◌then◌else◌, Bool-cases, get, keys, get-nil, get-cons, Assoc,
}
use icloud_linux.Path.{IcPath, is_within, is_root}
use icloud_linux.Path.Components.{IsNormal}
use icloud_linux.Path.Order.{root-is_within}
use icloud_linux.Inodes.{InodeTable, root_ino, path, doomed, forget, forget_all, remove_subtree}
use icloud_linux.Inodes.Links.{IsLinked, IsValid, forget-IsLinked, by_path-forget}

-- A key that is not listed has no value.
pub get-not_listed {ℓ κ} :
    {K : Type ℓ} {V : Type κ} ⦃e : Eq K⦄ (k : K) (m : Assoc K V)
    → contains k (keys m) ≡ false
    → get k m ≡ none
get-not_listed k [] h = get-nil k
get-not_listed k ((j, v) ∷ m) h = get-cons k j v m ∙ ground (arith, get-not_listed k m)

contains-doomed :
    (p q : IcPath) (ps : List IcPath) → contains q (doomed p ps) ≡ (is_within q p && contains q ps)
unfolding doomed
contains-doomed p q [] = ground arith
contains-doomed p q (r ∷ ps) = ground (arith, contains-doomed p q ps)

forget_all-IsLinked : (ps : List IcPath) (t : InodeTable) → IsLinked t → IsLinked (forget_all ps t)
unfolding forget_all
forget_all-IsLinked [] t v = v
forget_all-IsLinked (p ∷ ps) t v = forget_all-IsLinked ps (forget p t) (forget-IsLinked t v p)

next-forget_all : (ps : List IcPath) (t : InodeTable) → (forget_all ps t).next ≡ t.next
unfolding forget_all
next-forget_all [] t = refl
next-forget_all (p ∷ ps) t = next-forget_all ps (forget p t) ∙ unfold forget in ground arith

by_path-forget_all :
    (ps : List IcPath) (t : InodeTable) (q : IcPath)
    → get q (forget_all ps t).by_path ≡ (if contains q ps then none else get q t.by_path)
unfolding forget_all
by_path-forget_all [] t q = refl
by_path-forget_all (p ∷ ps) t q =
    by_path-forget_all ps (forget p t) q ∙ ground (arith, by_path-forget t p q)

pub remove_subtree-IsLinked :
    (t : InodeTable) (p : IcPath) → IsLinked t → IsLinked (remove_subtree t p)
unfolding remove_subtree
remove_subtree-IsLinked t p v = elim (Bool-cases (is_root p)) [
  | inl top ↦ rw top v
  | inr deep ↦ rw deep (forget_all-IsLinked (doomed p (keys t.by_path)) t v)
]

pub next-remove_subtree : (t : InodeTable) (p : IcPath) → (remove_subtree t p).next ≡ t.next
unfolding remove_subtree
next-remove_subtree t p = ground (arith, next-forget_all (doomed p (keys t.by_path)) t)

pub by_path-remove_subtree :
    (t : InodeTable) (p q : IcPath)
    → is_root p ≡ false
    → get q (remove_subtree t p).by_path ≡ (if is_within q p then none else get q t.by_path)
unfolding remove_subtree
by_path-remove_subtree t p q deep = rw deep (
    by_path-forget_all (doomed p (keys t.by_path)) t q
    ∙ ground (arith, contains-doomed p q (keys t.by_path), get-not_listed q t.by_path))

-- What is left of a path when the subtree of `p` is removed.
abbrev pub outside : IcPath → Option IcPath → Option IcPath
outside p none = none
outside p (some q) = if is_within q p then none else some q

pub by_ino-remove_subtree :
    (t : InodeTable) (p : IcPath) (i : ℕ)
    → IsLinked t
    → is_root p ≡ false
    → get i (remove_subtree t p).by_ino ≡ outside p (get i t.by_ino)
by_ino-remove_subtree t p i v deep =
    let u = remove_subtree-IsLinked t p v in
    elim (Option-cases (get i (remove_subtree t p).by_ino)) [
      | inr (r, k) ↦
          ground (arith, u.backward r i k, by_path-remove_subtree t p r deep, v.forward r i)
      | inl k ↦ elim (Option-cases (get i t.by_ino)) [
        | inl e ↦ rw k (rw e refl)
        | inr (q, e) ↦
            ground (arith, v.backward q i e, by_path-remove_subtree t p q deep, u.forward q i)
      ]
    ]

-- Removing a path other than the root keeps the table valid; an inode is dropped if its path is
-- the removed one or lies within it, and keeps its path if not. Removing the root changes nothing.
pub path-remove_subtree :
    (t : InodeTable) (p : IcPath) (i : ℕ)
    → IsValid t
    → IsNormal p
    → IsValid (remove_subtree t p)
      × (path (remove_subtree t p) i ≡ (if is_root p then path t i else outside p (path t i)))
unfolding path remove_subtree
path-remove_subtree t p i v n = elim (Bool-cases (is_root p)) [
  | inl top ↦ rw (top, remove_subtree) (v, refl)
  | inr deep ↦ (
    record {
      linked = remove_subtree-IsLinked t p v.linked;
      rooted =
          by_ino-remove_subtree t p root_ino v.linked deep
          ∙ rw v.rooted (rw (root-is_within p n deep) refl);
      in_range = rw (next-remove_subtree t p) v.in_range;
    },
    by_ino-remove_subtree t p i v.linked deep ∙ rw deep refl,
  )
]
