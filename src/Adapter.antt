-- ===== src/Adapter.antt =====
-- crates/icloudd/src/adapter.rs: the requests of the kernel, as calls of the operations of Fs on the paths
-- that the inode table gives. A reply is the result of the action; of a file's attributes it has those
-- of `Attr`, with the number.
pub mod Numbers
mod Tests
use icloud_linux.Prelude.{
  ltb, ℕ, Bool, true, false, not, ◌&&◌, List, Option, none, some, Text, if◌then◌else◌,
}
use icloud_linux.Prelude.Int.{ℤ}
use icloud_linux.Prelude.Exec.{Result, ok, err, Exec, need, refuse, pure, gets, ◌>>=◌, ◌>>◌}
use icloud_linux.Path.{IcPath, join}
use icloud_linux.Errno.{Errno, noent, inval, exist}
use icloud_linux.Inodes
use icloud_linux.Inodes.{InodeTable, ino_for}
use icloud_linux.Fs.{Reader}
use icloud_linux.Fs.World.{World, Host, Attr}
use icloud_linux.Fs.Ops
use icloud_linux.Fs.Ops.Reads
use icloud_linux.Fs.Ops.Renames

pub record IcloudFs : Type 0 where
  pub inodes : InodeTable
  pub core : World

module _ {A : Type 0} where
  abbrev pub from_core : IcloudFs → Result Errno A × World → Result Errno A × IcloudFs
  from_core m (r, w) = (r, record m { core = w })

  unfoldable pub on_core : Exec World Errno A → Exec IcloudFs Errno A
  on_core f m = from_core m (f m.core)

-- A change of the inode table.
unfoldable pub on_inodes : (InodeTable → InodeTable) → Exec IcloudFs Errno (Unit {0})
on_inodes f m = (ok tt, record m { inodes = f m.inodes })

abbrev pub numbered : IcloudFs → InodeTable × ℕ → Result Errno ℕ × IcloudFs
numbered m (t, ino) = (ok ino, record m { inodes = t })

unfoldable pub number : IcPath → Exec IcloudFs Errno ℕ
number path m = numbered m (ino_for m.inodes path)

unfoldable pub path_of : ℕ → Exec IcloudFs Errno IcPath
path_of ino m = need noent (Inodes.path m.inodes ino) m

-- A name that is not UTF-8 is refused before.
unfoldable pub child_path : ℕ → Text → Exec IcloudFs Errno IcPath
child_path parent name = do dir ← path_of parent; need inval (join dir name)

module _ (host : Host) where
  unfoldable pub attr_of : IcPath → Exec IcloudFs Errno (ℕ × Attr)
  attr_of path = do attr ← on_core (Reads.getattr host path); ino ← number path; pure (ino, attr)

  unfoldable pub lookup : ℕ → Text → Exec IcloudFs Errno (ℕ × Attr)
  lookup parent name = do path ← child_path parent name; attr_of path

  unfoldable pub getattr : ℕ → Exec IcloudFs Errno (ℕ × Attr)
  getattr ino = do path ← path_of ino; attr_of path

  -- `mknod` of a regular file does the same.
  unfoldable pub create : ℕ → Text → Exec IcloudFs Errno (ℕ × Attr)
  create parent name = do
    path ← child_path parent name
    attr ← on_core (Ops.create host path)
    attr_of path

  unfoldable pub mkdir : ℕ → Text → Exec IcloudFs Errno (ℕ × Attr)
  mkdir parent name = do path ← child_path parent name; on_core (Ops.mkdir host path); attr_of path

  unfoldable pub unlink : ℕ → Text → Exec IcloudFs Errno (Unit {0})
  unlink parent name = do
    path ← child_path parent name
    on_core (Ops.unlink host path)
    on_inodes (λ t. Inodes.remove_subtree t path)

  unfoldable pub rmdir : ℕ → Text → Exec IcloudFs Errno (Unit {0})
  rmdir parent name = do
    path ← child_path parent name
    on_core (Ops.rmdir host path)
    on_inodes (λ t. Inodes.remove_subtree t path)

  abbrev succeeds : Result Errno Attr × World → Bool
  succeeds (ok a, w) = true
  succeeds (err e, w) = false

  abbrev there_then : Result Errno Attr × World → IcloudFs → Result Errno (Unit {0}) × IcloudFs
  there_then (r, w) m = (if succeeds (r, w) then err exist else ok tt, record m { core = w })

  -- With `RENAME_NOREPLACE`; what `getattr` changes stays.
  abbrev must_not_be : Bool → IcPath → Exec IcloudFs Errno (Unit {0})
  must_not_be true path m = there_then (Reads.getattr host path m.core) m
  must_not_be false path m = (ok tt, m)

  unfoldable pub rename : Bool → Bool → ℕ → Text → ℕ → Text → Exec IcloudFs Errno (Unit {0})
  rename exchange no_replace parent name new_parent new_name = do
    refuse (if exchange then some inval else none)
    from ← child_path parent name
    to ← child_path new_parent new_name
    must_not_be no_replace to
    on_core (Renames.rename host from to)
    on_inodes (λ t. Inodes.rename t from to)

  unfoldable pub read : Reader → ℕ → ℕ → ℕ → Exec IcloudFs Errno (List ℕ)
  read who ino offset size = do
    path ← path_of ino
    on_core (Reads.read_as host path offset size who)

  unfoldable pub write : ℕ → ℕ → List ℕ → Exec IcloudFs Errno ℕ
  write ino offset data_ = do
    path ← path_of ino
    written ← on_core (Ops.write host path offset data_)
    pure (if ltb written 0x1_0000_0000 then written else 0xffff_ffff)
