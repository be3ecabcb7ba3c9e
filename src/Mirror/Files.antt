-- ===== src/Mirror/Files.antt =====
-- The file system under the mirror: the calls of `std::fs` that crates/icloud-core/src/mirror.rs makes,
-- as POSIX describes them. A disk maps the normal path of each file and folder below the mirror to
-- it; the mirror's root is at the root path. A folder's time is that of its creation. No call fails for
-- want of space or permissions.
use icloud_linux.Prelude.{
  ℕ, zero, suc, ◌+◌, ◌-◌, Bool, true, false, not, ◌&&◌, List, [], ◌∷◌, ◌++◌, map, any, Option, none,
  some, Assoc, keys, get, insert, remove, length, take, drop, ◌==◌, nat_eq, text_eq, if◌then◌else◌,
}
use icloud_linux.Prelude.Int.{ℤ}
use icloud_linux.Prelude.Exec.{ok, err, Exec}
use icloud_linux.Path.{IcPath, is_within, rebase}
use icloud_linux.Path.Components.{components, render}
use icloud_linux.Errno.{Errno, noent, isdir, notdir, exist, notempty, inval}

pub record DiskNode : Type 0 where
  pub dir : Bool
  pub bytes : List ℕ
  pub mtime : ℤ

abbrev pub Disk : Type 0
Disk = Assoc IcPath DiskNode

abbrev pub new_dir : ℤ → DiskNode
new_dir now = record { dir = true; bytes = []; mtime = now }

abbrev pub new_file : ℤ → DiskNode
new_file now = record { dir = false; bytes = []; mtime = now }

-- `symlink_metadata(..)`
abbrev pub lstat : IcPath → Disk → Option DiskNode
lstat p d = get p d

abbrev pub exists_at : Option DiskNode → Bool
exists_at none = false
exists_at (some n) = true

abbrev pub dir_at : Option DiskNode → Bool
dir_at none = false
dir_at (some n) = n.dir

abbrev pub file_at : Option DiskNode → Bool
file_at none = false
file_at (some n) = not n.dir

module _ {ℓ} {A : Type ℓ} where
  -- The lists that a list starts with, from the empty one on.
  abbrev pub inits : List A → List (List A)
  inits [] = [] ∷ []
  inits (x ∷ xs) = [] ∷ map (◌∷◌ x) (inits xs)

-- A path after all that it lies in, from the root on.
abbrev pub lineage : IcPath → List IcPath
lineage p = map render (inits (components p))

-- A file in the place of a folder: at the end of the path it exists, before that it is no folder.
abbrev blocked : List IcPath → Errno
blocked [] = exist
blocked (p ∷ ps) = notdir

unfoldable pub make_dirs : ℤ → List IcPath → Exec Disk Errno (Unit {0})
make_dirs now [] d = (ok tt, d)
make_dirs now (p ∷ ps) d = elim (lstat p d) [
  | none ↦ make_dirs now ps (insert p (new_dir now) d)
  | some n ↦ let rest = make_dirs now ps d in if n.dir then rest else (err (blocked ps), d)
]

abbrev pub create_dir_all : ℤ → IcPath → Exec Disk Errno (Unit {0})
create_dir_all now p = make_dirs now (lineage p)

-- `open` with `create`: an existing file stays as it is.
unfoldable pub open_create : ℤ → IcPath → Exec Disk Errno DiskNode
open_create now p d = elim (lstat p d) [
  | none ↦ (ok (new_file now), insert p (new_file now) d)
  | some n ↦ if n.dir then (err isdir, d) else (ok n, d)
]

unfoldable pub open_existing : IcPath → Exec Disk Errno DiskNode
open_existing p d = elim (lstat p d) [ none ↦ (err noent, d) | some n ↦ (ok n, d) ]

abbrev pub put : IcPath → DiskNode → Exec Disk Errno (Unit {0})
put p n d = (ok tt, insert p n d)

unfoldable pub zeros : ℕ → List ℕ
zeros zero = []
zeros (suc n) = 0 ∷ zeros n

-- `set_len`
abbrev pub resized : ℕ → List ℕ → List ℕ
resized len bytes = take len bytes ++ zeros (len - length bytes)

-- `write_all_at`: a gap before the offset is filled with zeros.
abbrev pub spliced : ℕ → List ℕ → List ℕ → List ℕ
spliced offset new bytes = resized offset bytes ++ (new ++ drop (offset + length new) bytes)

unfoldable pub unlink : IcPath → Exec Disk Errno (Unit {0})
unlink p d = elim (lstat p d) [
  | none ↦ (err noent, d)
  | some n ↦ if n.dir then (err isdir, d) else (ok tt, remove p d)
]

-- Is there anything below the path?
abbrev pub occupied : IcPath → Disk → Bool
occupied p d = any (λ q. is_within q p && not (q == p)) (keys d)

unfoldable pub unlink_dir : IcPath → Exec Disk Errno (Unit {0})
unlink_dir p d = elim (lstat p d) [
  | none ↦ (err noent, d)
  | some n ↦
      if not n.dir
      then (err notdir, d)
      else if occupied p d
      then (err notempty, d)
      else (ok tt, remove p d)
]

-- `remove_dir_all`: the folder and all below it.
unfoldable pub without_tree : IcPath → Disk → Disk
without_tree p [] = []
without_tree p ((q, n) ∷ d) =
    let rest = without_tree p d in if is_within q p then rest else (q, n) ∷ rest

abbrev pub moved_path : IcPath → IcPath → IcPath → IcPath
moved_path from to q = elim (rebase q from to) [ none ↦ q | some q' ↦ q' ]

unfoldable pub move_tree : IcPath → IcPath → Disk → Disk
move_tree from to [] = []
move_tree from to ((q, n) ∷ d) = (moved_path from to q, n) ∷ move_tree from to d

-- May a node take the place of what is at the destination?
abbrev pub replace_error : DiskNode → Bool → Option DiskNode → Option Errno
replace_error n full none = none
replace_error n full (some m) =
    if n.dir
    then if not m.dir then some notdir else if full then some notempty else none
    else if m.dir
    then some isdir
    else none

-- `rename(2)`
unfoldable pub rename_node : IcPath → IcPath → Exec Disk Errno (Unit {0})
rename_node from to d = elim (lstat from d) [
  | none ↦ (err noent, d)
  | some n ↦
      if from == to
      then (ok tt, d)
      else if is_within to from
      then (err inval, d)
      else elim (replace_error n (occupied to d) (lstat to d)) [
        | some e ↦ (err e, d)
        | none ↦ (ok tt, move_tree from to (remove to d))
      ]
]
