-- ===== src/Inodes.antt =====
-- crates/icloudd/src/inodes.rs: the table between the kernel's inode numbers and iCloud paths.
-- The two hash maps are association lists; `keys()` goes in their order.
pub mod Links
pub mod Removal
pub mod Renaming
mod Tests
use icloud_linux.Prelude.{
  ℕ, ◌+◌, ◌%◌, ◌^◌, Bool, true, false, ◌||◌, List, [], ◌∷◌, Option, none, some, Assoc, keys, get,
  insert, remove, nat_eq, text_eq, ◌==◌, if◌then◌else◌,
}
use icloud_linux.Path.{IcPath, root, is_root, is_within, rebase}

abbrev pub root_ino : ℕ
root_ino = 1

pub record InodeTable : Type 0 where
  pub by_ino : Assoc ℕ IcPath
  pub by_path : Assoc IcPath ℕ
  pub next : ℕ

-- `InodeTable::new`
unfoldable pub new : InodeTable
new = record {
  by_ino = insert root_ino root [];
  by_path = insert root root_ino [];
  next = root_ino + 1;
}

unfoldable pub path : InodeTable → ℕ → Option IcPath
path t ino = get ino t.by_ino

-- `self.next += 1` on a `u64`.
abbrev pub bump : ℕ → ℕ
bump n = (n + 1) % 2 ^ 64

unfoldable pub ino_for : InodeTable → IcPath → InodeTable × ℕ
ino_for t p = elim (get p t.by_path) [
  | some ino ↦ (t, ino)
  | none ↦ (
    record t {
      next = bump t.next;
      by_ino = insert t.next p t.by_ino;
      by_path = insert p t.next t.by_path;
    },
    t.next,
  )
]

-- `self.by_path.keys().filter(|p| p.is_within(path)).cloned().collect()`
unfoldable pub doomed : IcPath → List IcPath → List IcPath
doomed p [] = []
doomed p (q ∷ qs) = let rest = doomed p qs in if is_within q p then q ∷ rest else rest

-- The body of the loop of `remove_subtree`.
unfoldable pub forget : IcPath → InodeTable → InodeTable
forget p t = elim (get p t.by_path) [
  | none ↦ t
  | some ino ↦ record t { by_path = remove p t.by_path; by_ino = remove ino t.by_ino }
]

unfoldable pub forget_all : List IcPath → InodeTable → InodeTable
forget_all [] t = t
forget_all (p ∷ ps) t = forget_all ps (forget p t)

unfoldable pub remove_subtree : InodeTable → IcPath → InodeTable
remove_subtree t p = if is_root p then t else forget_all (doomed p (keys t.by_path)) t

-- `filter_map(|p| p.rebase(from, to).map(|new| (p.clone(), new)))`
unfoldable pub moving : IcPath → IcPath → List IcPath → List (IcPath × IcPath)
moving from to [] = []
moving from to (p ∷ ps) =
    let rest = moving from to ps in
    elim (rebase p from to) [ none ↦ rest | some new ↦ (p, new) ∷ rest ]

-- The body of the loop of `rename`.
unfoldable pub relink : IcPath → IcPath → InodeTable → InodeTable
relink old new t = elim (get old t.by_path) [
  | none ↦ t
  | some ino ↦ record t {
    by_ino = insert ino new t.by_ino;
    by_path = insert new ino (remove old t.by_path);
  }
]

unfoldable pub relink_all : List (IcPath × IcPath) → InodeTable → InodeTable
relink_all [] t = t
relink_all ((old, new) ∷ moves) t = relink_all moves (relink old new t)

unfoldable pub rename : InodeTable → IcPath → IcPath → InodeTable
rename t from to =
    if from == to || is_root from || is_root to
    then t
    else let cleared = remove_subtree t to in
      relink_all (moving from to (keys cleared.by_path)) cleared
