-- ===== src/Inodes/Tests.antt =====
-- A run of the table, and the theorems at it.
use mathlib.Core.Option.{map as map_option}
use icloud_linux.Prelude.{
  ◌+◌, ◌^◌, ◌≡◌, ◌<◌, refl, arith, some, codes, if◌then◌else◌, get, insert, remove, nat_eq, text_eq,
}
use icloud_linux.Path.Samples.{docs, old, docs-IsNormal, old-IsNormal}
use icloud_linux.Inodes.{InodeTable, new, path, ino_for, rename}
use icloud_linux.Inodes.Links.{IsValid, new-IsValid, ino_for_stable}
use icloud_linux.Inodes.Removal.{outside}
use icloud_linux.Inodes.Renaming.{rebased, is_degenerate, path-rename}

start_path : path new 1 ≡ some (codes "/")
unfolding path new get insert remove nat_eq text_eq
start_path = refl

-- The folder is inode 2.
abbrev one_folder : InodeTable
one_folder = (ino_for new docs).0

one_folder_next : one_folder.next ≡ 3
unfolding ino_for new get insert remove nat_eq text_eq
one_folder_next = refl

room : new.next + 1 < 2 ^ 64
unfolding new
room = omega arith

ino_for_stable_example :
    IsValid (ino_for new docs).0
    × (path (ino_for new docs).0 (ino_for new docs).1 ≡ some docs)
    × (path (ino_for new docs).0 1 ≡ some (codes "/"))
    × (ino_for (ino_for new docs).0 docs ≡ ino_for new docs)
ino_for_stable_example =
    ino_for_stable new docs 1 (codes "/") new-IsValid docs-IsNormal room start_path

path-rename_example :
    IsValid (rename one_folder docs old)
    × (path (rename one_folder docs old) 2 ≡ (
        if is_degenerate docs old
        then path one_folder 2
        else map_option (rebased docs old) (outside old (path one_folder 2))))
path-rename_example =
    path-rename one_folder docs old 2 ino_for_stable_example.0 docs-IsNormal old-IsNormal
