-- ===== src/Engine/Pass.antt =====
-- `sync_dirty` of crates/icloud-core/src/engine/upload.rs: one pass over what is marked dirty.
pub mod Order
mod Tests
use icloud_linux.Prelude.{
  ℕ, suc, ◌+◌, Bool, true, false, not, ◌&&◌, ◌||◌, List, [], ◌∷◌, Option, none, some, is_empty, ltb,
  ◌==◌, nat_eq, text_eq, if◌then◌else◌,
}
use icloud_linux.Prelude.Exec.{Result, ok, err}
use icloud_linux.Path.{IcPath, depth}
use icloud_linux.Path.Bounds.{text_lt}
use icloud_linux.Policy.{SyncPolicy, allows}
use icloud_linux.Drive.{Node, is_directory}
use icloud_linux.State.Sql.{select_where, order_by}
use icloud_linux.State.Rows.{Entry, node}
use icloud_linux.State.Queries.{get_entry, list_dirty_entries}
use icloud_linux.State.Writes.{remove_subtree}
use icloud_linux.Engine.Site.{Site, Setting, Failure, on_cloud, note_failure}
use icloud_linux.Engine.Upload.{sync_directory, sync_file}

abbrev allows_synced : SyncPolicy → Option IcPath → Bool
allows_synced policy none = true
allows_synced policy (some synced) = allows policy synced

abbrev or_path : Option IcPath → IcPath → IcPath
or_path none path = path
or_path (some synced) path = synced

unfoldable pub allowed_to_sync : SyncPolicy → Entry → Bool
allowed_to_sync policy e =
    if e.tombstone
    then allows policy (or_path e.synced_path e.path)
    else allows policy e.path && allows_synced policy e.synced_path

-- `(depth, path)`, compared
abbrev pub shallower : Entry → Entry → Bool
shallower a b =
    ltb (depth a.path) (depth b.path) || (depth a.path == depth b.path && text_lt a.path b.path)

abbrev pub deeper : Entry → Entry → Bool
deeper a b = shallower b a

-- Folders first, then by depth and path.
abbrev pub earlier : Entry → Entry → Bool
earlier a b =
    if is_directory a.kind
    then (if is_directory b.kind then shallower a b else true)
    else if is_directory b.kind
    then false
    else shallower a b

-- The deletions of a list of dirty entries and the rest, each in the order in which it is worked off.
unfoldable pub tombstones : List Entry → List Entry
tombstones dirty = order_by deeper (select_where (λ e. e.tombstone) dirty)

unfoldable pub regular : List Entry → List Entry
regular dirty = order_by earlier (select_where (λ e. not e.tombstone) dirty)

module _ {R : Type 0} (set : Setting R) where
  abbrev after_delete : Entry → Result Failure (Unit {0}) × Site R → Site R
  after_delete e (ok u, s) = record s { state = remove_subtree s.state e.path }
  after_delete e (err f, s) = note_failure f s

  abbrev delete_node : Entry → Option Node → Site R → Site R
  delete_node e none s = record s { state = remove_subtree s.state e.path }
  delete_node e (some n) s = after_delete e (on_cloud (set.cloud.delete n set.delete_mode) s)

  unfoldable pub sync_tombstone : Entry → Site R → Site R
  sync_tombstone e s = delete_node e (node e) s

  unfoldable pub sync_tombstones : List Entry → Site R → Site R
  sync_tombstones [] s = s
  sync_tombstones (e ∷ es) s =
      let rest = sync_tombstones es (sync_tombstone e s) in
      if s.stopped || s.auth_lost then s else rest

  abbrev after_sync : Result Failure (Unit {0}) × Site R → Site R
  after_sync (ok u, s) = s
  after_sync (err f, s) = note_failure f s

  abbrev sync_fresh : Entry → Site R → Site R
  sync_fresh e s =
      if e.tombstone || not e.dirty
      then s
      else after_sync (
          if is_directory e.kind
          then sync_directory set (depth e.path + 1) e s
          else sync_file set (depth e.path + 1) e s)

  -- What is there now, which may have changed since the scan.
  abbrev sync_if_there : Option Entry → Site R → Site R
  sync_if_there none s = s
  sync_if_there (some e) s = sync_fresh e s

  unfoldable pub sync_regular : List Entry → Site R → Site R
  sync_regular [] s = s
  sync_regular (e ∷ es) s =
      let rest = sync_regular es (sync_if_there (get_entry s.state e.path) s) in
      if s.stopped || s.auth_lost then s else rest

  unfoldable pub sync_dirty : Site R → Site R
  sync_dirty s =
      let dirty = select_where (allowed_to_sync set.policy) (list_dirty_entries s.state) in
      sync_regular (regular dirty) (sync_tombstones (tombstones dirty) s)
