-- ===== src/Engine/Upload/Tests.antt =====
-- An upload without a network, and the theorems at it.
use icloud_linux.Prelude.{◌≡◌, refl, true, false, not, ◌&&◌, [], none, nat_eq, text_eq}
use icloud_linux.Prelude.Int.{pos}
use icloud_linux.Prelude.Exec.Runs.{is_err}
use icloud_linux.Path
use icloud_linux.Path.{parent}
use icloud_linux.Path.Str.{rfind, split, join_with}
use icloud_linux.Path.Samples.{note, note-IsNormal}
use icloud_linux.Drive.{file, parse_kind}
use icloud_linux.State.{empty}
use icloud_linux.State.Rows.{Entry, local, to_row, from_row}
use icloud_linux.State.Sql.{find_where}
use icloud_linux.State.Queries.{get_entry}
use icloud_linux.State.Writes.{upsert_entry, upsert_row}
use icloud_linux.State.Dirty.{is_dirty_at}
use icloud_linux.Engine.Site.{Site}
use icloud_linux.Engine.Samples.{alone}
use icloud_linux.Engine.Upload.{is_known, is_moved, sync_file, sync_directory}
use icloud_linux.Engine.Upload.Failures.{sync_file-is_dirty_at}

abbrev new_note : Entry
new_note = local note file (pos 5)

abbrev site : Site (Unit {0})
site = record {
  state = upsert_entry empty new_note;
  disk = [];
  root = none;
  auth_lost = false;
  stopped = false;
  remote = tt;
  faults = λ k. none;
}

note_dirty : is_dirty_at note site.state ≡ true
unfolding get_entry find_where upsert_entry upsert_row local to_row from_row Path.new parent rfind
    split join_with parse_kind nat_eq text_eq
note_dirty = refl

sync_file-is_dirty_at_example :
    ((is_err (sync_file alone 3 new_note site).0
        && not (is_dirty_at note (sync_file alone 3 new_note site).1.state))
      ≡ false)
    × (((not (is_known new_note && is_moved new_note)
            && is_err (sync_directory alone 3 new_note site).0)
          && not (is_dirty_at note (sync_directory alone 3 new_note site).1.state))
        ≡ false)
unfolding local
sync_file-is_dirty_at_example =
    sync_file-is_dirty_at alone 3 new_note site note-IsNormal (λ t h. h) note_dirty
