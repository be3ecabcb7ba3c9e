-- ===== src/Mirror/Tests.antt =====
-- Two bytes are written behind the first of a file, and the theorem at them.
use icloud_linux.Prelude.{
  ℕ, List, ◌≡◌, refl, false, [], ◌∷◌, length, get, insert, remove, nat_eq, text_eq,
}
use icloud_linux.Prelude.Int.{pos}
use icloud_linux.Prelude.Exec.{ok, ◌>>=◌}
use icloud_linux.Path.{root, parent}
use icloud_linux.Path.Str.{rfind, split}
use icloud_linux.Path.Components.{components}
use icloud_linux.Path.Samples.{docs, note}
use icloud_linux.Mirror.Files.{Disk, new_dir, lstat, resized, zeros, make_dirs, open_create}
use icloud_linux.Mirror.{ensure_parent, read_at, write_at}
use icloud_linux.Mirror.Contents.{bytes_of, read_at-write_at}

abbrev small_disk : Disk
small_disk =
    (root, new_dir (pos 1))
    ∷ (docs, new_dir (pos 1))
    ∷ (note, record { dir = false; bytes = 65 ∷ []; mtime = pos 2 })
    ∷ []

abbrev two : List ℕ
two = 66 ∷ 67 ∷ []

abbrev after : Disk
after = (write_at (pos 9) note 2 two small_disk).1

parent_there : ensure_parent (pos 9) note small_disk ≡ (ok tt, small_disk)
unfolding ensure_parent make_dirs parent rfind split components get nat_eq text_eq
parent_there = refl

write_done : write_at (pos 9) note 2 two small_disk ≡ (ok 2, after)
unfolding write_at ◌>>=◌ ensure_parent make_dirs open_create parent rfind split components get
    insert remove zeros nat_eq text_eq
write_done = refl

read_at-write_at_example :
    (2 ≡ length two)
    × (read_at note 2 (length two) after ≡ (ok two, after))
    × (read_at note 0 2 after ≡ (ok (resized 2 (bytes_of (lstat note small_disk))), after))
read_at-write_at_example =
    read_at-write_at (pos 9) note 2 two small_disk refl parent_there write_done
