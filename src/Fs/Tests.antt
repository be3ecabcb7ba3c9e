-- ===== src/Fs/Tests.antt =====
-- A thumbnailer opens a file, and the theorem at it.
use icloud_linux.Prelude.{◌≡◌, true, false, not, ◌&&◌, some, codes, text_eq, nat_eq}
use icloud_linux.Prelude.Int.{pos}
use icloud_linux.Path.Samples.{note}
use icloud_linux.Policy.{unrestricted, allows}
use icloud_linux.Drive.{file}
use icloud_linux.State.{Database, empty}
use icloud_linux.State.Rows.{local}
use icloud_linux.State.Writes.{upsert_entry}
use icloud_linux.Mirror.{is_reserved}
use icloud_linux.Fs.{FsCore, preview, live_entry, open_as}
use icloud_linux.Fs.Access.{is_download, is_open, to_fetch, may_change, open_as-downloads}

abbrev placeholder : Database
placeholder = upsert_entry empty (record (local note file (pos 5)) {
  hydrated = false;
  size = 9;
  remote_drivewsid = some (codes "FILE::1");
})

abbrev mounted : FsCore
mounted = record {
  state = placeholder;
  policy = unrestricted;
  signed_in = true;
  read_only = false;
  preview_max_bytes = 10;
}

open_as-downloads_example :
    (is_download (open_as mounted note false preview) ≡ (
      not (is_reserved note)
      && (not (false && mounted.read_only)
          && (mounted.signed_in
              && (allows mounted.policy note
                  && to_fetch mounted preview (live_entry mounted note))))))
    × ((false && (is_open (open_as mounted note false preview) && not (may_change mounted note)))
        ≡ false)
open_as-downloads_example = open_as-downloads mounted note false preview
