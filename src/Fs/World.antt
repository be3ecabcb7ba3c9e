-- ===== src/Fs/World.antt =====
-- What the operations of crates/icloud-core/src/fs.rs work on: the database, the mirror, and the engine,
-- which they call.
use icloud_linux.Prelude.{
  ℕ, Bool, true, false, ◌&&◌, Option, none, some, Text, length, if◌then◌else◌,
}
use icloud_linux.Prelude.Int.{ℤ, pos, lt_int}
use icloud_linux.Prelude.Exec.{Result, ok, err, Exec, refuse}
use icloud_linux.Path.{IcPath}
use icloud_linux.Errno.{Errno, io}
use icloud_linux.Drive.{is_directory}
use icloud_linux.State.Rows.{Entry}
use icloud_linux.State.{Database}
use icloud_linux.Mirror.Files.{Disk, DiskNode}
use icloud_linux.Fs.{
  Opened, FsCore, Reader, refused, granted, downloads, live_entry, ensure_content,
}

pub record World : Type 0 where
  pub fs : FsCore
  pub disk : Disk

-- The clock, the random markers, whether folders are listed on demand, and the two calls of the
-- engine with what they leave: `true` is `Ok`.
pub record Host : Type 0 where
  pub now : ℤ
  pub markers : ℕ → Text
  pub lazy : Bool
  pub list_directory : IcPath → World → Bool × World
  pub hydrate : IcPath → World → Bool × World

-- `directory` is `FileKind::Directory`.
pub record Attr : Type 0 where
  pub directory : Bool
  pub size : ℕ
  pub mtime : ℤ

pub record DirItem : Type 0 where
  pub name : Text
  pub directory : Bool

-- A check of the guards.
unfoldable pub guard : (World → Option Errno) → Exec World Errno (Unit {0})
unfolding refuse
guard check w = refuse (check w) w

abbrev with_disk : {A : Type 0} → World → Result Errno A × Disk → Result Errno A × World
with_disk w (r, d) = (r, record w { disk = d })

unfoldable pub on_disk : {A : Type 0} → Exec Disk Errno A → Exec World Errno A
on_disk m w = with_disk w (m w.disk)

abbrev pub with_state : Database → World → World
with_state db w = record w { fs = record w.fs { state = db } }

unfoldable pub on_state : (Database → Database) → Exec World Errno (Unit {0})
on_state f w = (ok tt, with_state (f w.fs.state) w)

-- A transaction that may fail.
abbrev pub or_io : World → Option Database → Result Errno (Unit {0}) × World
or_io w none = (err io, w)
or_io w (some db) = (ok tt, with_state db w)

unfoldable pub try_state : (Database → Option Database) → Exec World Errno (Unit {0})
try_state f w = or_io w (f w.fs.state)

unfoldable pub live : IcPath → Exec World Errno (Option Entry)
live path w = (ok (live_entry w.fs path), w)

-- `list_if_lazy`
unfoldable pub list_if_lazy : Host → IcPath → Exec World Errno (Unit {0})
list_if_lazy host path w =
    if w.fs.signed_in && host.lazy then (ok tt, (host.list_directory path w).1) else (ok tt, w)

abbrev pub downloaded : Bool × World → Result Errno (Unit {0}) × World
downloaded (true, w) = (ok tt, w)
downloaded (false, w) = (err io, w)

abbrev pub settled : Host → IcPath → World → Opened → Result Errno (Unit {0}) × World
settled host path w (refused x) = (err x, w)
settled host path w granted = (ok tt, w)
settled host path w downloads = downloaded (host.hydrate path w)

-- `ensure_content` with its call of the engine.
unfoldable pub fetch_content : Host → IcPath → Entry → Reader → Exec World Errno (Unit {0})
fetch_content host path e who w = settled host path w (ensure_content w.fs path e who)

abbrev nonzero : ℤ → ℤ → ℤ
nonzero now mtime = if lt_int (pos 0) mtime then mtime else now

abbrev pub synthetic_dir : ℤ → Attr
synthetic_dir at = record { directory = true; size = 0; mtime = at }

abbrev pub attr_from_meta : DiskNode → Option Entry → Attr
attr_from_meta n none = record { directory = n.dir; size = length n.bytes; mtime = n.mtime }
attr_from_meta n (some e) = record { directory = n.dir; size = e.size; mtime = e.mtime }

abbrev pub attr_of_entry : ℤ → Entry → Attr
attr_of_entry now e = record {
  directory = is_directory e.kind;
  size = e.size;
  mtime = nonzero now e.mtime;
}
