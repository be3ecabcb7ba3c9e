-- ===== src/Mirror.antt =====
-- crates/icloud-core/src/mirror.rs: the local copy of the drive. A path names its own place on the disk
-- (`local_path` is the path below the mirror's folder); `now` is the time that the system stamps on what
-- is written. `statvfs`, the SHA-256 of a file and names that are not UTF-8 are not modelled.
pub mod Files
pub mod Contents
mod Tests
use icloud_linux.Prelude.{
  ℕ, zero, ◌+◌, Bool, true, false, not, ◌&&◌, ◌||◌, List, [], ◌∷◌, ◌++◌, Option, none, some, Text,
  codes, length, take, drop, is_empty, get, insert, remove, ◌==◌, nat_eq, text_eq, if◌then◌else◌,
}
use icloud_linux.Prelude.Int.{ℤ, pos, lt_int}
use icloud_linux.Prelude.Exec.{Result, ok, err, Exec, pure, raise, modify, ◌>>=◌, ◌>>◌}
use icloud_linux.Path.{IcPath, is_root, parent, file_name, relative_to, root}
use icloud_linux.Errno.{Errno, noent, isdir, notdir}
use icloud_linux.Mirror.Files.{
  Disk, DiskNode, lstat, exists_at, dir_at, file_at, create_dir_all, open_create, open_existing,
  put, zeros, resized, spliced, unlink, unlink_dir, without_tree, rename_node,
}

-- `TRACKER_IGNORE`
abbrev pub tracker_ignore : Text
tracker_ignore = codes ".trackerignore"

abbrev is_name : Text → Option Text → Bool
is_name name none = false
is_name name (some n) = n == name

-- `Mirror::is_reserved`
unfoldable pub is_reserved : IcPath → Bool
is_reserved path = is_root (parent path) && is_name tracker_ignore (file_name path)

unfoldable pub exists : IcPath → Disk → Bool
exists path d = exists_at (lstat path d)

unfoldable pub is_dir : IcPath → Disk → Bool
is_dir path d = dir_at (lstat path d)

unfoldable pub stat : IcPath → Exec Disk Errno DiskNode
stat path d = elim (lstat path d) [ none ↦ (err noent, d) | some n ↦ (ok n, d) ]

-- The names in a folder: the marker at the root is hidden.
abbrev shown : IcPath → IcPath → Bool
shown path q =
    not (is_root q)
    && (parent q == path && not (is_root path && is_name tracker_ignore (file_name q)))

abbrev name_of : Option Text → Text
name_of none = []
name_of (some n) = n

unfoldable pub names_in : IcPath → Disk → List (Text × Bool)
names_in path [] = []
names_in path ((q, n) ∷ d) =
    let rest = names_in path d in
    if shown path q then (name_of (file_name q), n.dir) ∷ rest else rest

unfoldable pub list_dir : IcPath → Exec Disk Errno (List (Text × Bool))
list_dir path d = elim (lstat path d) [
  | none ↦ (err noent, d)
  | some n ↦ if n.dir then (ok (names_in path d), d) else (err notdir, d)
]

unfoldable pub ensure_dir : ℤ → IcPath → Exec Disk Errno (Unit {0})
ensure_dir now path d =
    create_dir_all now path (if file_at (lstat path d) then remove path d else d)

unfoldable pub ensure_parent : ℤ → IcPath → Exec Disk Errno (Unit {0})
ensure_parent now path = create_dir_all now (parent path)

unfoldable pub create_file : ℤ → IcPath → Exec Disk Errno (Unit {0})
create_file now path = do ensure_parent now path; file ← open_create now path; pure tt

-- `u64::try_from(mtime).unwrap_or(0)` seconds since the epoch.
abbrev pub clock_time : ℤ → ℤ
clock_time t = if lt_int t (pos 0) then pos 0 else t

-- A file with nothing but zeros, sparse on the disk.
abbrev pub placeholder : ℕ → ℤ → DiskNode
placeholder size mtime = record { dir = false; bytes = zeros size; mtime = clock_time mtime }

unfoldable pub materialize_placeholder : ℤ → IcPath → ℕ → ℤ → Exec Disk Errno (Unit {0})
materialize_placeholder now path size mtime = do
  ensure_parent now path
  modify (λ d.
      insert path (placeholder size mtime)
        (if dir_at (lstat path d) then without_tree path d else d))

abbrev commit_over : List ℕ → ℤ → IcPath → Exec Disk Errno (Unit {0})
commit_over bytes mtime path d =
    if dir_at (lstat path d)
    then (err isdir, d)
    else (ok tt, insert path (record { dir = false; bytes = bytes; mtime = mtime }) d)

-- A staged file: its bytes and its time.
unfoldable pub commit : ℤ → List ℕ → ℤ → IcPath → Exec Disk Errno (Unit {0})
commit now bytes mtime path = do ensure_parent now path; commit_over bytes mtime path

-- Reading no byte does not even ask whether it is a folder.
abbrev pub bytes_at : ℕ → ℕ → DiskNode → Exec Disk Errno (List ℕ)
bytes_at offset len n d =
    if n.dir && not (len == 0) then (err isdir, d) else (ok (take len (drop offset n.bytes)), d)

unfoldable pub read_at : IcPath → ℕ → ℕ → Exec Disk Errno (List ℕ)
read_at path offset len = do n ← open_existing path; bytes_at offset len n

-- Nothing is written, and no gap filled, for no bytes.
abbrev pub written : ℤ → ℕ → List ℕ → DiskNode → DiskNode
written now offset new n =
    if is_empty new then n else record n { bytes = spliced offset new n.bytes; mtime = now }

unfoldable pub write_at : ℤ → IcPath → ℕ → List ℕ → Exec Disk Errno ℕ
write_at now path offset new = do
  ensure_parent now path
  n ← open_create now path
  put path (written now offset new n)
  pure (length new)

unfoldable pub truncate : ℤ → IcPath → ℕ → Exec Disk Errno (Unit {0})
truncate now path len = do
  ensure_parent now path
  n ← open_create now path
  put path (record n { bytes = resized len n.bytes; mtime = now })

unfoldable pub set_mtime : IcPath → ℤ → Exec Disk Errno (Unit {0})
set_mtime path mtime = do n ← open_existing path; put path (record n { mtime = clock_time mtime })

unfoldable pub remove_file : IcPath → Exec Disk Errno (Unit {0})
remove_file path = unlink path

unfoldable pub remove_dir : IcPath → Exec Disk Errno (Unit {0})
remove_dir path = unlink_dir path

unfoldable pub remove_tree : IcPath → Exec Disk Errno (Unit {0})
remove_tree path d = elim (lstat path d) [
  | none ↦ (ok tt, d)
  | some n ↦ (ok tt, if n.dir then without_tree path d else remove path d)
]

unfoldable pub rename : ℤ → IcPath → IcPath → Exec Disk Errno (Unit {0})
rename now from to = do ensure_parent now to; rename_node from to
