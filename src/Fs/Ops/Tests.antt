-- ===== src/Fs/Ops/Tests.antt =====
-- A signed-in mount with one folder, and the theorems at it.
use icloud_linux.Fs.World.{live}
use icloud_linux.Prelude.{
  ◌≡◌, refl, true, false, [], ◌∷◌, some, codes, get, insert, remove, nat_eq, text_eq, none,
}
use icloud_linux.Prelude.Int.{pos}
use icloud_linux.Prelude.Exec.{ok, err, ◌>>=◌}
use icloud_linux.Path
use icloud_linux.Path.{root, parent, file_name, is_root, is_within, is_valid_name}
use icloud_linux.Path.Str.{rfind, split, join_with, rsplit_next, strip_prefix}
use icloud_linux.Path.Components.{components}
use icloud_linux.Path.Samples.{docs, note, old, note-IsNormal, old-IsNormal}
use icloud_linux.Policy
use icloud_linux.Policy.{SyncPolicy, unrestricted, allows}
use icloud_linux.Policy.Boundary.{new-IsValid}
use icloud_linux.Errno.{rofs}
use icloud_linux.Drive.{file, parse_kind, as_str}
use icloud_linux.State.{empty}
use icloud_linux.State.Writes.{upsert_row, upsert_entry}
use icloud_linux.State.Rows.{to_row, from_row, local}
use icloud_linux.State.Sql.{find_where}
use icloud_linux.State.Queries.{get_entry}
use icloud_linux.State.Queue.{has_pending_content_change}
use icloud_linux.State.Trees.{bury_tombstone}
use icloud_linux.Mirror.Files.{Disk, new_dir, file_at, lstat, make_dirs, open_create}
use icloud_linux.Mirror
use icloud_linux.Mirror.Files
use icloud_linux.Fs.{Entry, none, FsCore, check_mutation, check_paths, check_name, live_entry}
use icloud_linux.Engine.Site.{Site}
use icloud_linux.Engine.Samples.{alone}
use icloud_linux.Fs.Hydrating.{hydrates}
use icloud_linux.Fs.World.{World, Host, Attr, guard, on_disk, on_state, try_state, list_if_lazy}
use icloud_linux.Fs.Ops
use icloud_linux.Fs.Ops.Reads
use icloud_linux.Fs.Ops.Changes.{perform, makes_file, writes, perform_closed}
use icloud_linux.Fs.Ops.Boundary.{perform_outside}
use icloud_linux.Fs.Ops.Creation.{create-getattr}
use icloud_linux.Fs.Ops.Removal.{unlink-get_entry}

-- An engine that has nothing to list and downloads nothing.
abbrev quiet : Host
quiet = record {
  now = pos 9;
  markers = λ i. codes "00ff";
  lazy = false;
  list_directory = λ p w. (true, w);
  hydrate = λ p w. (true, w);
}

abbrev mounted : SyncPolicy → FsCore
mounted policy = record {
  state = empty;
  policy = policy;
  signed_in = true;
  read_only = false;
  preview_max_bytes = 10;
}

abbrev small_disk : Disk
small_disk = (root, new_dir (pos 1)) ∷ (docs, new_dir (pos 1)) ∷ []

abbrev writable : World
writable = record { fs = mounted unrestricted; disk = small_disk }

abbrev read_only : World
read_only = record { fs = record (mounted unrestricted) { read_only = true }; disk = small_disk }

perform_closed_example : perform quiet (makes_file note) read_only ≡ (err rofs, read_only)
unfolding Mirror.is_reserved is_root parent file_name rfind nat_eq text_eq
perform_closed_example = perform_closed quiet (makes_file note) read_only refl

-- A file on iCloud that is not local yet, in the one allowed folder.
abbrev distant_note : Entry
distant_note = record (local note file (pos 5)) {
  remote_drivewsid = some (codes "FILE::1");
  remote_docwsid = some (codes "1");
  hydrated = false;
  dirty = false;
}

abbrev docs_only : World
docs_only = record {
  fs = record (mounted (Policy.new (docs ∷ []) [])) { state = upsert_entry empty distant_note };
  disk = small_disk;
}

abbrev site : Site (Unit {0})
site = record {
  state = empty;
  disk = [];
  root = none;
  auth_lost = false;
  stopped = false;
  remote = tt;
  faults = λ k. none;
}

-- Its downloads are the engine's, without a network.
abbrev offline_host : Host
offline_host = record quiet { hydrate = hydrates alone site }

perform_outside_example :
    get_entry (perform offline_host (writes note 0 (65 ∷ [])) docs_only).1.fs.state old
    ≡ get_entry docs_only.fs.state old
unfolding Policy.new Path.new is_within is_root strip_prefix split join_with nat_eq text_eq
    upsert_entry upsert_row to_row local
perform_outside_example =
    perform_outside alone site offline_host (writes note 0 (65 ∷ [])) docs_only old
      (new-IsValid (docs ∷ []) []) (note-IsNormal, tt) (note-IsNormal, tt) old-IsNormal refl
      (λ k. refl) refl refl (λ s h. h) refl

abbrev made : World
made = (Ops.create quiet note writable).1

abbrev note_attr : Attr
note_attr = record { directory = false; size = 0; mtime = pos 9 }

create_done : Ops.create quiet note writable ≡ (ok note_attr, made)
unfolding Ops.create Ops.make_file Ops.require_parent_dir ◌>>=◌ guard on_disk on_state try_state
    list_if_lazy check_mutation check_paths check_name live_entry get_entry find_where
    bury_tombstone allows Mirror.is_reserved Mirror.create_file Mirror.ensure_parent Mirror.stat
    Mirror.is_dir make_dirs open_create is_root parent file_name rfind rsplit_next is_valid_name
    split components get insert remove nat_eq text_eq
create_done = refl

create-getattr_example :
    (get_entry made.fs.state note ≡ some (local note file (pos 9)))
    × (has_pending_content_change made.fs.state note ≡ true)
    × (file_at (lstat note made.disk) ≡ true)
    × (Reads.getattr quiet note made ≡ (ok note_attr, made))
create-getattr_example = create-getattr quiet note writable note-IsNormal create_done

-- The same note, known to iCloud.
abbrev known_note : Entry
known_note = record (local note file (pos 5)) {
  remote_drivewsid = some (codes "FILE::1");
  dirty = false;
}

abbrev known : World
known = record {
  fs = record (mounted unrestricted) { state = upsert_entry empty known_note };
  disk = made.disk;
}

abbrev unlinked : World
unlinked = (Ops.unlink quiet note known).1

known_found : get_entry known.fs.state note ≡ some known_note
unfolding get_entry find_where upsert_entry upsert_row local to_row from_row Path.new parent rfind
    split join_with parse_kind as_str nat_eq text_eq
known_found = refl

unlink_done : Ops.unlink quiet note known ≡ (ok tt, unlinked)
unfolding Ops.unlink Ops.forget Ops.create Ops.make_file Ops.require_parent_dir ◌>>=◌ guard on_disk
    on_state try_state live list_if_lazy check_mutation check_paths check_name live_entry get_entry
    find_where upsert_entry upsert_row local to_row from_row Path.new join_with parse_kind as_str
    bury_tombstone allows Mirror.is_reserved Mirror.create_file Mirror.ensure_parent Mirror.stat
    Mirror.is_dir Mirror.exists Mirror.remove_file Files.unlink make_dirs open_create is_root parent
    file_name rfind rsplit_next is_valid_name split components get insert remove nat_eq text_eq
unlink_done = refl

unlink-get_entry_example :
    (get_entry unlinked.fs.state note ≡ some (record known_note { tombstone = true; dirty = true }))
    × (live_entry unlinked.fs note ≡ none)
    × (Mirror.exists note unlinked.disk ≡ false)
unlink-get_entry_example = unlink-get_entry quiet note known known_found unlink_done
