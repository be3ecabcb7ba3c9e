-- ===== src/Engine/Remote.antt =====
-- crates/icloud-core/src/engine/remote.rs: reconciling what iCloud lists with the local copy. Where
-- the code ends by giving a path to the download queue, the action returns that it does.
use icloud_linux.Prelude.Decimal.{digits}
pub mod Sweep
pub mod Names
pub mod Conflicts
mod Tests
use icloud_linux.Prelude.{
  ℕ, zero, suc, ◌+◌, ◌/◌, ◌%◌, Bool, true, false, not, ◌&&◌, ◌||◌, List, [], ◌∷◌, ◌++◌, Option,
  none, some, Text, codes, length, ltb, contains, ◌==◌, nat_eq, text_eq, if◌then◌else◌,
}
use icloud_linux.Prelude.Exec.{Exec, pure, ◌>>=◌, ◌>>◌}
use icloud_linux.Path.{IcPath, parent, file_name, join}
use icloud_linux.Drive.{NodeKind, Node, is_directory}
use icloud_linux.State.{Database}
use icloud_linux.State.Rows.{Entry, from_remote}
use icloud_linux.State.Queries.{get_entry, get_entry_by_remote_id, fetch_subtree, list_children}
use icloud_linux.State.Queue.{queue_op}
use icloud_linux.State.Writes.{upsert_entry, remove_subtree}
use icloud_linux.State.Trees.{rename_tree, detach_subtree_as_conflict}
use icloud_linux.Mirror.Files.{Disk}
use icloud_linux.Mirror
use icloud_linux.Engine.Site.{
  Site, Setting, Failure, on_mirror, on_state, write_state, try_state, asks,
}
use icloud_linux.Engine.Download.{is_file, same_text}
use icloud_linux.Engine.Upload.{same_int, name_of}

-- Is there a first text, and is it not the second?
abbrev other_text : Option Text → Option Text → Bool
other_text none b = false
other_text (some a) b = not (same_text (some a) b)

-- `entry_conflicts`
unfoldable pub entry_conflicts : Entry → IcPath → Node → Bool
entry_conflicts e path n = other_text e.synced_path (some path) || other_text e.remote_etag n.etag

abbrev pub suffix : ℕ → Text
suffix attempt = if attempt == 1 then [] else codes "-" ++ digits attempt attempt

abbrev pub conflict_name : Text → Text → ℕ → Text
conflict_name name stamp attempt = name ++ codes ".local-conflict-" ++ stamp ++ suffix attempt

abbrev pub or_root : Option Text → Text
or_root none = codes "root"
or_root (some name) = name

abbrev or_else : IcPath → Option IcPath → IcPath
or_else path none = path
or_else path (some p) = p

abbrev pub is_free : Option Entry → Bool
is_free none = true
is_free (some e) = false

abbrev live_dirty : Option Entry → Bool
live_dirty none = false
live_dirty (some e) = e.dirty

-- The items that are applied, each with its path: a name that no path can have is passed over.
unfoldable pub usable : IcPath → List Node → List (IcPath × Node)
usable path [] = []
usable path (n ∷ ns) =
    let rest = usable path ns in
    elim (join path n.name) [ none ↦ rest | some child ↦ (child, n) ∷ rest ]

abbrev pub ids_of : List (IcPath × Node) → List Text
ids_of [] = []
ids_of ((path, n) ∷ items) = n.drivewsid ∷ ids_of items

-- `stamp` is the present time as `YYYYMMDDhhmmss`.
abbrev pub short_name : Text → IcPath → IcPath
short_name stamp path = or_else path (join (parent path) (codes "conflict-" ++ stamp))

abbrev pub candidate : Text → IcPath → ℕ → Option IcPath
candidate stamp path attempt =
    join (parent path) (conflict_name (or_root (file_name path)) stamp attempt)

abbrev pub take_free : Bool → Option IcPath → IcPath → IcPath → IcPath
take_free free none short rest = short
take_free free (some found) short rest = if free then found else rest

module _ {R : Type 0} where
  abbrev pub is_unused : IcPath → Site R → Bool
  is_unused path s = not (Mirror.exists path s.disk) && is_free (get_entry s.state path)

  abbrev pub is_unused_if : Option IcPath → Site R → Bool
  is_unused_if none s = false
  is_unused_if (some path) s = is_unused path s

  -- `k` counts the attempts that are left.
  unfoldable pub free_name : Text → ℕ → ℕ → IcPath → Site R → IcPath
  free_name stamp zero attempt path s = short_name stamp path
  free_name stamp (suc k) attempt path s =
      let rest = free_name stamp k (attempt + 1) path s in
      take_free (is_unused_if (candidate stamp path attempt) s) (candidate stamp path attempt)
        (short_name stamp path) rest

  -- `unique_conflict_path`, where `tries` counts the names that it looks at: the code has no bound.
  unfoldable pub unique_conflict_path : Text → ℕ → IcPath → Site R → IcPath
  unique_conflict_path stamp tries path s = free_name stamp tries 1 path s

-- `marker` names what `rename_tree` buries.
module _ {R : Type 0} (set : Setting R) (stamp : Text) (marker : ℕ → Text) (tries : ℕ) where
  abbrev pub rename_if_there : Bool → IcPath → IcPath → Exec (Site R) Failure (Unit {0})
  rename_if_there true from to = on_mirror (Mirror.rename set.now from to)
  rename_if_there false from to = pure tt

  abbrev move_local : IcPath → IcPath → Exec (Site R) Failure (Unit {0})
  move_local from to s = rename_if_there (Mirror.exists from s.disk) from to s

  unfoldable pub queue_copies : List Entry → Database → Database
  queue_copies [] db = db
  queue_copies (e ∷ es) db =
      queue_copies es (queue_op db set.now (codes "conflict-copy") e.path none)

  -- The copies' queued operations are taken to be written.
  abbrev keep_as : IcPath → IcPath → Exec (Site R) Failure (Unit {0})
  keep_as path conflict = do
    move_local path conflict
    try_state (λ db. detach_subtree_as_conflict db path conflict)
    on_state (λ db. queue_copies (fetch_subtree db conflict) db)

  unfoldable pub resolve_conflict : Entry → Exec (Site R) Failure (Unit {0})
  resolve_conflict e s = keep_as e.path (unique_conflict_path stamp tries e.path s) s

  abbrev show : Bool → IcPath → Node → Exec (Site R) Failure (Unit {0})
  show true path n = on_mirror (Mirror.ensure_dir set.now path)
  show false path n = on_mirror (Mirror.materialize_placeholder set.now path n.size n.modified)

  unfoldable pub materialize_remote_entry : IcPath → Node → Bool → Exec (Site R) Failure Bool
  materialize_remote_entry path n schedule = do
    show (is_directory n.kind) path n
    write_state (λ db. upsert_entry db (from_remote path n))
    pure (is_file n.kind && (not (from_remote path n).hydrated && schedule))

  abbrev pub entry_or : Entry → Option Entry → Entry
  entry_or e none = e
  entry_or e (some found) = found

  -- The entry is known under another path.
  abbrev follow_move : Entry → IcPath → Bool → Exec (Site R) Failure Entry
  follow_move e path false = pure e
  follow_move e path true = do
    move_local e.path path
    try_state (λ db. rename_tree db marker e.path path false true)
    asks (λ db. entry_or e (get_entry db path))

  abbrev pub is_changed : Entry → Node → Bool → Bool
  is_changed e n moved =
      not (e.size == n.size)
      || (not (same_int e.mtime n.modified) || (not moved && not (same_text e.remote_etag n.etag)))

  abbrev still_hydrated : Entry → Node → Bool → Bool
  still_hydrated e n changed = if changed then n.size == 0 else e.hydrated

  abbrev replace_if : Bool → IcPath → Node → Exec (Site R) Failure (Unit {0})
  replace_if true path n = on_mirror (Mirror.materialize_placeholder set.now path n.size n.modified)
  replace_if false path n = pure tt

  abbrev refreshed : Entry → IcPath → Node → Bool → Option Text → Entry
  refreshed e path n hydrated sha = record (from_remote path n) {
    hydrated = hydrated;
    local_sha256 = sha;
    last_synced_at = e.last_synced_at;
  }

  abbrev pub refresh_in_place :
      Entry → IcPath → Node → Bool → Bool → Bool → Exec (Site R) Failure Bool
  refresh_in_place e path n schedule moved true = do
    on_mirror (Mirror.ensure_dir set.now path)
    write_state (λ db. upsert_entry db (refreshed e path n true e.local_sha256))
    pure false
  refresh_in_place e path n schedule moved false =
      let changed = is_changed e n moved in
      let hydrated = still_hydrated e n changed in
      (do
        replace_if changed path n
        write_state (λ db.
            upsert_entry db
              (refreshed e path n hydrated (if hydrated then e.local_sha256 else none)))
        pure (not hydrated && schedule))

  unfoldable pub refresh_clean_entry : Entry → IcPath → Node → Bool → Exec (Site R) Failure Bool
  refresh_clean_entry e path n schedule =
      let moved = not (e.path == path) in
      (do
        e' ← follow_move e path moved
        refresh_in_place e' path n schedule moved (is_directory n.kind))

  abbrev make_way : Option Entry → Exec (Site R) Failure (Unit {0})
  make_way none = pure tt
  make_way (some occupant) = if occupant.dirty then resolve_conflict occupant else pure tt

  abbrev apply_new : IcPath → Node → Bool → Exec (Site R) Failure Bool
  apply_new path n schedule = do
    occupant ← asks (λ db. get_entry db path)
    make_way occupant
    materialize_remote_entry path n schedule

  abbrev apply_known : IcPath → Node → Bool → Entry → Exec (Site R) Failure Bool
  apply_known path n schedule e =
      if e.dirty then pure false else refresh_clean_entry e path n schedule

  abbrev apply_found : IcPath → Node → Bool → Option Entry → Exec (Site R) Failure Bool
  apply_found path n schedule none = apply_new path n schedule
  apply_found path n schedule (some e) =
      if e.dirty && entry_conflicts e path n
      then resolve_conflict e >>= (λ u. apply_new path n schedule)
      else apply_known path n schedule e

  unfoldable pub apply_remote_item : IcPath → Node → Bool → Exec (Site R) Failure Bool
  apply_remote_item path n schedule = do
    existing ← asks (λ db. get_entry_by_remote_id db n.drivewsid)
    apply_found path n schedule existing

  unfoldable pub apply_all : Bool → List (IcPath × Node) → Exec (Site R) Failure (Unit {0})
  apply_all schedule [] = pure tt
  apply_all schedule ((path, n) ∷ items) = do
    scheduled ← apply_remote_item path n schedule
    apply_all schedule items

abbrev pub is_seen : List Text → Option Text → Bool
is_seen seen none = true
is_seen seen (some id) = contains id seen

-- An entry that iCloud does not know, one that it listed and one with changes are left alone.
abbrev pub is_kept : List Text → Entry → Bool
is_kept seen e = is_seen seen e.remote_drivewsid || e.dirty

module _ {R : Type 0} where
  unfoldable pub remove_gone : Bool → IcPath → Exec (Site R) Failure (Unit {0})
  remove_gone true path = pure tt
  remove_gone false path = do
    on_mirror (Mirror.remove_tree path)
    write_state (λ db. remove_subtree db path)

  unfoldable pub sweep : List Text → List Entry → Exec (Site R) Failure (Unit {0})
  sweep seen [] = pure tt
  sweep seen (e ∷ es) = remove_gone (is_kept seen e) e.path >> sweep seen es

  -- The sweep of `list_directory`, over the entries directly in the folder.
  unfoldable pub sweep_folder : IcPath → List Text → Exec (Site R) Failure (Unit {0})
  sweep_folder path seen s = sweep seen (list_children s.state path) s
