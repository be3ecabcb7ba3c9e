-- ===== src/Fs/Access.antt =====
-- What opening a file lets happen.
use icloud_linux.Prelude.{
  ◌≡◌, Bool, true, false, not, ◌&&◌, arith, Option, Option-cases, inl, inr, none, some,
}
use icloud_linux.Path.{IcPath}
use icloud_linux.Policy.{allows}
use icloud_linux.Drive.{is_directory}
use icloud_linux.State.Rows.{Entry}
use icloud_linux.Mirror.{is_reserved}
use icloud_linux.Fs.{
  FsCore, Reader, Opened, refused, downloads, check_paths, check_mutation, live_entry, may_download,
  is_remote, ensure_content, open_as,
}

abbrev pub is_download : Opened → Bool
is_download downloads = true
is_download _ = false

abbrev pub is_open : Opened → Bool
is_open (refused err) = false
is_open _ = true

-- A file whose content is only on iCloud, and for which this reader may cause a download.
abbrev pub to_fetch : FsCore → Reader → Option Entry → Bool
to_fetch fs who none = false
to_fetch fs who (some e) =
    not (is_directory e.kind) && (not e.hydrated && (is_remote e && may_download fs who e))

-- Changes are made at a path only where there is a session, the mount is not read-only, and the
-- policy allows the path.
abbrev pub may_change : FsCore → IcPath → Bool
may_change fs path = not fs.read_only && (fs.signed_in && allows fs.policy path)

-- Opening a path downloads it exactly if it is a live file whose content is only on iCloud, for which
-- the reader may cause a download, there is a session, the policy allows the path, and it is not
-- opened for writing on a read-only mount; a reserved path never. Nothing is opened for writing where
-- nothing may be changed.
pub open_as-downloads :
    (fs : FsCore) (path : IcPath) (for_write : Bool) (who : Reader)
    → (is_download (open_as fs path for_write who) ≡ (
        not (is_reserved path)
        && (not (for_write && fs.read_only)
            && (fs.signed_in && (allows fs.policy path && to_fetch fs who (live_entry fs path))))))
      × ((for_write && (is_open (open_as fs path for_write who) && not (may_change fs path)))
          ≡ false)
unfolding open_as ensure_content check_mutation check_paths
open_as-downloads fs path for_write who = elim (Option-cases (live_entry fs path)) [
  | inl gone ↦ ground (arith, gone)
  | inr (e, live) ↦ ground (arith, live)
]
