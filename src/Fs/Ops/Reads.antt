-- ===== src/Fs/Ops/Reads.antt =====
-- The operations of crates/icloud-core/src/fs.rs that ask: `getattr`, `readdir` and `read_as`.
use mathlib.Core.Option.{map as map_option}
use icloud_linux.Prelude.{
  ℕ, Bool, true, false, not, ◌&&◌, ◌||◌, List, map, Option, none, some, Text, if◌then◌else◌,
}
use icloud_linux.Prelude.Int.{ℤ}
use icloud_linux.Prelude.Exec.{Result, ok, err, Exec, need, refuse, pure, ◌>>=◌, ◌>>◌}
use icloud_linux.Path.{IcPath, parent, is_root}
use icloud_linux.Path.Bounds.{text_lt}
use icloud_linux.Errno.{Errno, noent, isdir, notdir, io}
use icloud_linux.Drive.{is_directory}
use icloud_linux.State.Rows.{Entry}
use icloud_linux.State.Sql.{order_by}
use icloud_linux.State.Queries.{get_entry}
use icloud_linux.State.Listings.{folder_listed_at}
use icloud_linux.Mirror.Files.{DiskNode, lstat}
use icloud_linux.Mirror
use icloud_linux.Fs.{Reader}
use icloud_linux.Fs.World.{
  World, Host, Attr, DirItem, guard, on_disk, live, list_if_lazy, fetch_content, attr_from_meta,
  attr_of_entry, synthetic_dir,
}

abbrev root_attr : ℤ → Option DiskNode → Attr
root_attr now none = synthetic_dir now
root_attr now (some n) = attr_from_meta n none

-- The entry of a file that is not downloaded: its size and time are those of iCloud.
abbrev pub placeholder_of : Option Entry → Option Entry
placeholder_of none = none
placeholder_of (some e) = if not (is_directory e.kind) && not e.hydrated then some e else none

abbrev pub deleted : Option Entry → Bool
deleted none = false
deleted (some e) = e.tombstone

abbrev known_attr : ℤ → Option Entry → Option DiskNode → Option Attr
known_attr now entry (some n) = some (attr_from_meta n (placeholder_of entry))
known_attr now entry none = map_option (attr_of_entry now) entry

unfoldable pub stat_known : Host → IcPath → World → Option Attr
stat_known host path w =
    let entry = get_entry w.fs.state path in
    if is_root path
    then some (root_attr host.now (lstat path w.disk))
    else if deleted entry
    then none
    else known_attr host.now entry (lstat path w.disk)

abbrev need_known : Host → IcPath → Exec World Errno Attr
need_known host path w = need noent (stat_known host path w) w

-- The second look, after the folder has been listed.
abbrev look_again : Host → IcPath → Exec World Errno Attr
look_again host path = do list_if_lazy host (parent path); need_known host path

abbrev or_look_again : Host → IcPath → Option Attr → Exec World Errno Attr
or_look_again host path none = look_again host path
or_look_again host path (some a) = pure a

abbrev known_or_listed : Host → IcPath → Exec World Errno Attr
known_or_listed host path w = or_look_again host path (stat_known host path w) w

unfoldable pub getattr : Host → IcPath → Exec World Errno Attr
getattr host path = do
  refuse (if Mirror.is_reserved path then some noent else none)
  known_or_listed host path

abbrev listed_before : IcPath → World → Bool
listed_before path w = elim (folder_listed_at w.fs.state path) [ none ↦ false | some at ↦ true ]

abbrev after_listing : IcPath → Bool × World → Result Errno (Unit {0}) × World
after_listing path (done, w) = if done || listed_before path w then (ok tt, w) else (err io, w)

abbrev list_or_fail : Host → IcPath → Exec World Errno (Unit {0})
list_or_fail host path w =
    if w.fs.signed_in && host.lazy
    then after_listing path (host.list_directory path w)
    else (ok tt, w)

abbrev not_a_folder : IcPath → World → Option Errno
not_a_folder path w =
    if not (Mirror.exists path w.disk)
    then some noent
    else if not (Mirror.is_dir path w.disk)
    then some notdir
    else none

abbrev dir_item : Text × Bool → DirItem
dir_item (name, dir) = record { name = name; directory = dir }

unfoldable pub readdir : Host → IcPath → Exec World Errno (List DirItem)
readdir host path = do
  refuse (if Mirror.is_reserved path then some noent else none)
  list_or_fail host path
  guard (not_a_folder path)
  items ← on_disk (Mirror.list_dir path)
  pure (order_by (λ (a b : DirItem). text_lt a.name b.name) (map dir_item items))

unfoldable pub read_as : Host → IcPath → ℕ → ℕ → Reader → Exec World Errno (List ℕ)
read_as host path offset size who = do
  refuse (if Mirror.is_reserved path then some noent else none)
  entry ← live path
  e ← need noent entry
  refuse (if is_directory e.kind then some isdir else none)
  fetch_content host path e who
  on_disk (Mirror.read_at path offset size)
