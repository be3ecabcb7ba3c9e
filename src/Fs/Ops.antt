-- ===== src/Fs/Ops.antt =====
-- The operations of crates/icloud-core/src/fs.rs that change one item. Owners, permission bits and the
-- times of access and change are not modelled; the size of a folder on the disk is 0.
pub mod Reads
pub mod Renames
pub mod Changes
pub mod Kept
pub mod Frame
pub mod Moves
pub mod Creation
pub mod Removal
mod Tests
pub mod Boundary
use icloud_linux.Prelude.{
  ℕ, Bool, true, false, not, ◌&&◌, ◌||◌, List, [], ◌∷◌, Option, none, some, Text, codes, length,
  if◌then◌else◌,
}
use icloud_linux.Prelude.Int.{ℤ}
use icloud_linux.Prelude.Exec.{ok, err, Exec, need, refuse, pure, raise, ◌>>=◌, ◌>>◌}
use icloud_linux.Path.{IcPath, parent, is_root}
use icloud_linux.Errno.{Errno, noent, isdir, notdir, exist, busy}
use icloud_linux.Drive.{NodeKind, file, folder, is_directory}
use icloud_linux.State.Rows.{Entry, local}
use icloud_linux.State.{Database}
use icloud_linux.State.Writes.{
  upsert_entry, mark_dirty, mark_tombstone, remove_entry, remove_subtree,
}
use icloud_linux.State.Queue.{queue_op}
use icloud_linux.State.Trees.{bury_tombstone}
use icloud_linux.Mirror.Files.{DiskNode}
use icloud_linux.Mirror
use icloud_linux.Fs.{person, check_mutation, check_name, live_entry, is_remote}
use icloud_linux.Fs.World.{
  World, Host, Attr, guard, on_disk, on_state, try_state, live, list_if_lazy, fetch_content,
  attr_from_meta,
}

abbrev pub may_mutate : List IcPath → Exec World Errno (Unit {0})
may_mutate paths = guard (λ w. check_mutation w.fs paths)

abbrev parent_error : IcPath → World → Option Errno
parent_error dir w =
    if is_root dir || Mirror.is_dir dir w.disk
    then none
    else if Mirror.exists dir w.disk
    then some notdir
    else some noent

unfoldable pub require_parent_dir : Host → IcPath → Exec World Errno (Unit {0})
require_parent_dir host path = do
  list_if_lazy host (parent path)
  guard (parent_error (parent path))

abbrev taken : Option Entry → Bool → Option Errno
taken none there = if there then some exist else none
taken (some e) there = some exist

-- What `create` and `mkdir` note for an item that has just been made.
abbrev pub note_new : Host → IcPath → NodeKind → Text → DiskNode → Exec World Errno (Unit {0})
note_new host path kind op meta =
    on_state (λ db. queue_op (upsert_entry db (local path kind meta.mtime)) host.now op path none)

-- The end of `create`, after the way is clear.
unfoldable pub make_file : Host → IcPath → Exec World Errno Attr
make_file host path = do
  on_disk (Mirror.create_file host.now path)
  meta ← on_disk (Mirror.stat path)
  note_new host path file (codes "create") meta
  pure (attr_from_meta meta none)

unfoldable pub create : Host → IcPath → Exec World Errno Attr
create host path = do
  may_mutate (path ∷ [])
  guard (λ w. check_name path)
  require_parent_dir host path
  guard (λ w. taken (live_entry w.fs path) false)
  try_state (λ db. bury_tombstone db (host.markers 0) path)
  make_file host path

unfoldable pub mkdir : Host → IcPath → Exec World Errno (Unit {0})
mkdir host path = do
  may_mutate (path ∷ [])
  guard (λ w. check_name path)
  require_parent_dir host path
  guard (λ w. taken (live_entry w.fs path) (Mirror.exists path w.disk))
  try_state (λ db. bury_tombstone db (host.markers 0) path)
  on_disk (Mirror.ensure_dir host.now path)
  meta ← on_disk (Mirror.stat path)
  note_new host path folder (codes "mkdir") meta

-- The checks before the bytes of a file change: what is known of it must be a file, and is downloaded.
abbrev pub prepare : Host → IcPath → Option Entry → Exec World Errno (Unit {0})
prepare host path none = pure tt
prepare host path (some e) =
    if is_directory e.kind then raise isdir else fetch_content host path e person

abbrev pub is_known : Option Entry → Bool
is_known none = false
is_known (some e) = true

abbrev pub changed : Host → IcPath → Bool → DiskNode → Database → Database
changed host path known meta db =
    if known
    then mark_dirty db path (some (length meta.bytes)) (some meta.mtime) (some true) true
    else upsert_entry db (record (local path file meta.mtime) { size = length meta.bytes })

unfoldable pub record_content_change : Host → IcPath → Bool → Exec World Errno (Unit {0})
record_content_change host path known = do
  meta ← on_disk (Mirror.stat path)
  on_state (λ db. queue_op (changed host path known meta db) host.now (codes "update") path none)

unfoldable pub write : Host → IcPath → ℕ → List ℕ → Exec World Errno ℕ
write host path offset new = do
  may_mutate (path ∷ [])
  entry ← live path
  prepare host path entry
  written ← on_disk (Mirror.write_at host.now path offset new)
  record_content_change host path (is_known entry)
  pure written

unfoldable pub truncate : Host → IcPath → ℕ → Exec World Errno (Unit {0})
truncate host path len = do
  may_mutate (path ∷ [])
  entry ← live path
  prepare host path entry
  on_disk (Mirror.truncate host.now path len)
  record_content_change host path (is_known entry)

abbrev pub note_time : IcPath → ℤ → Option Entry → Exec World Errno (Unit {0})
note_time path mtime none = pure tt
note_time path mtime (some e) = on_state (λ db. mark_dirty db path none (some mtime) none false)

unfoldable pub set_mtime : IcPath → ℤ → Exec World Errno (Unit {0})
set_mtime path mtime = do
  may_mutate (path ∷ [])
  guard (λ w. if not (Mirror.exists path w.disk) then some noent else none)
  on_disk (Mirror.set_mtime path mtime)
  entry ← live path
  note_time path mtime entry

unfoldable pub accept_permission_change : IcPath → Exec World Errno (Unit {0})
accept_permission_change path =
    guard (λ w. if is_root path || is_known (live_entry w.fs path) then none else some noent)

unfoldable pub forget : Host → IcPath → Entry → Exec World Errno (Unit {0})
forget host path e = on_state (λ db.
    if is_remote e
    then queue_op (mark_tombstone db path) host.now (codes "delete") path none
    else if is_directory e.kind
    then remove_subtree db path
    else remove_entry db path)

abbrev pub remove_if_there : IcPath → Exec World Errno (Unit {0})
remove_if_there path w =
    if Mirror.exists path w.disk then on_disk (Mirror.remove_file path) w else (ok tt, w)

unfoldable pub unlink : Host → IcPath → Exec World Errno (Unit {0})
unlink host path = do
  may_mutate (path ∷ [])
  entry ← live path
  e ← need noent entry
  refuse (if is_directory e.kind then some isdir else none)
  remove_if_there path
  forget host path e

unfoldable pub rmdir : Host → IcPath → Exec World Errno (Unit {0})
rmdir host path = do
  may_mutate (path ∷ [])
  refuse (if is_root path then some busy else none)
  list_if_lazy host path
  entry ← live path
  e ← need noent entry
  refuse (if not (is_directory e.kind) then some notdir else none)
  on_disk (Mirror.remove_dir path)
  forget host path e
