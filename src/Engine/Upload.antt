-- ===== src/Engine/Upload.antt =====
-- crates/icloud-core/src/engine/upload.rs: pushing local changes to iCloud. `k` counts the ancestors
-- that `sync_directory` may still climb.
pub mod Depth
pub mod Kept
pub mod Failures
mod Tests
use icloud_linux.Prelude.{
  ℕ, zero, suc, Bool, true, false, not, ◌&&◌, ◌||◌, List, [], ◌∷◌, Option, none, some, Text, length,
  ◌==◌, nat_eq, text_eq, if◌then◌else◌,
}
use icloud_linux.Prelude.Int.{ℤ, pos, negsuc}
use icloud_linux.Prelude.Exec.{ok, Exec, pure, raise, need, ignore, ◌>>=◌, ◌>>◌}
use icloud_linux.Path.{IcPath, is_root, parent, file_name}
use icloud_linux.Drive.{Node}
use icloud_linux.Config.{permanent}
use icloud_linux.State.{Database}
use icloud_linux.State.Rows.{Entry, node}
use icloud_linux.State.Queries.{get_entry}
use icloud_linux.State.Queue.{has_pending_content_change}
use icloud_linux.State.Writes.{
  mark_clean, mark_tombstone, mark_synced_subtree, mark_uploaded_but_dirty,
}
use icloud_linux.Mirror.Files.{DiskNode}
use icloud_linux.Mirror
use icloud_linux.Engine.Site.{
  Site, Setting, Failure, setup, on_cloud, on_mirror, write_state, asks, others_act,
}
use icloud_linux.Engine.Download.{ensure_local_file}

-- The time is in whole seconds, as the disk of the model keeps it; the code compares the nanoseconds too.
pub record Fingerprint : Type 0 where
  pub size : ℕ
  pub mtime : ℤ

abbrev pub fingerprint : DiskNode → Fingerprint
fingerprint meta = record { size = length meta.bytes; mtime = meta.mtime }

abbrev pub same_int : ℤ → ℤ → Bool
same_int (pos a) (pos b) = a == b
same_int (negsuc a) (negsuc b) = a == b
same_int _ _ = false

abbrev pub same_fingerprint : Fingerprint → Fingerprint → Bool
same_fingerprint a b = a.size == b.size && same_int a.mtime b.mtime

abbrev pub name_of : IcPath → Text
name_of path = elim (file_name path) [ none ↦ [] | some name ↦ name ]

-- Is the entry known to iCloud under another path?
abbrev pub is_moved : Entry → Bool
is_moved e = elim e.synced_path [ none ↦ false | some synced ↦ not (synced == e.path) ]

abbrev pub is_known : Entry → Bool
is_known e = elim e.remote_drivewsid [ none ↦ false | some id ↦ true ]

module _ {R : Type 0} (set : Setting R) where
  abbrev pub remember : Node → Exec (Site R) Failure Node
  remember n s = (ok n, record s { root = some n })

  abbrev pub root_or_ask : Option Node → Exec (Site R) Failure Node
  root_or_ask (some n) = pure n
  root_or_ask none = on_cloud set.cloud.root >>= remember

  unfoldable pub root_node : Exec (Site R) Failure Node
  root_node s = root_or_ask s.root s

  abbrev pub node_at : IcPath → Database → Option Node
  node_at path db = elim (get_entry db path) [ none ↦ none | some e ↦ node e ]

  unfoldable pub remote_node_for_path : IcPath → Exec (Site R) Failure (Option Node)
  remote_node_for_path path =
      if is_root path then (root_node >>= λ n. pure (some n)) else asks (node_at path)

  -- The first child of this name.
  unfoldable pub child_named : Text → List Node → Option Node
  child_named name [] = none
  child_named name (n ∷ ns) = if n.name == name then some n else child_named name ns

  unfoldable pub refresh_child_meta : IcPath → Text → Exec (Site R) Failure Node
  refresh_child_meta parent_path name = do
    found ← remote_node_for_path parent_path
    folder ← need setup found
    nodes ← on_cloud (set.cloud.children folder)
    need setup (child_named name nodes)

  -- A move changes the etag that a rename must present.
  abbrev pub move_if : IcPath → IcPath → Node → Exec (Site R) Failure Node
  move_if from to n = if from == to then pure n else (do
    found ← remote_node_for_path to
    destination ← need setup found
    on_cloud (set.cloud.move_to n destination)
    on_cloud (set.cloud.node n.drivewsid n.share_id))

  abbrev pub rename_if : Text → Text → Node → Exec (Site R) Failure (Unit {0})
  rename_if from to n = if from == to then pure tt else on_cloud (set.cloud.rename n to)

  abbrev pub move_from : Entry → Option IcPath → Option Node → Exec (Site R) Failure (Unit {0})
  move_from e (some synced) (some n) = do
    n' ← move_if (parent synced) (parent e.path) n
    rename_if (name_of synced) (name_of e.path) n'
  move_from e _ _ = pure tt

  unfoldable pub sync_move_or_rename : Entry → Exec (Site R) Failure (Unit {0})
  sync_move_or_rename e = move_from e e.synced_path (node e)

  -- A folder that is dirty is synced first.
  abbrev pub fresh_node :
      (Entry → Exec (Site R) Failure (Unit {0}))
      → IcPath
      → Entry
      → Bool
      → Exec (Site R) Failure (Option Node)
  fresh_node sync dir e true = sync e >>= λ u. asks (node_at dir)
  fresh_node sync dir e false = pure (node e)

  abbrev pub parent_node :
      (Entry → Exec (Site R) Failure (Unit {0}))
      → IcPath
      → Option Entry
      → Exec (Site R) Failure (Option Node)
  parent_node sync dir none = pure none
  parent_node sync dir (some e) = fresh_node sync dir e e.dirty

  -- `ensure_remote_parent`: `sync` is `sync_directory`, for the folder above.
  unfoldable pub ensure_remote_parent :
      (Entry → Exec (Site R) Failure (Unit {0})) → IcPath → Exec (Site R) Failure (Option Node)
  ensure_remote_parent sync path =
      let dir = parent path in
      if is_root dir
      then (root_node >>= λ n. pure (some n))
      else (asks (λ db. get_entry db dir) >>= parent_node sync dir)

  -- The rest of `sync_directory`, by whether iCloud knows the folder and under which path.
  unfoldable pub push_directory : Entry → Node → Exec (Site R) Failure (Unit {0})
  push_directory e folder =
      if not (is_known e)
      then (do
        on_cloud (set.cloud.create_folder folder (name_of e.path))
        meta ← refresh_child_meta (parent e.path) (name_of e.path)
        write_state (λ db. mark_clean db set.now e.path (some meta) none))
      else if is_moved e
      then (do
        sync_move_or_rename e
        meta ← refresh_child_meta (parent e.path) (name_of e.path)
        write_state (λ db. mark_synced_subtree db set.now e.path)
        write_state (λ db. mark_clean db set.now e.path (some meta) none))
      else write_state (λ db. mark_synced_subtree db set.now e.path)

  abbrev pub push_directory_if : Entry → Option Node → Exec (Site R) Failure (Unit {0})
  push_directory_if e none = pure tt
  push_directory_if e (some folder) = push_directory e folder

  -- Where the count is used up, nothing is said of the outcome: see Upload/Depth.antt.
  unfoldable pub sync_directory : ℕ → Entry → Exec (Site R) Failure (Unit {0})
  sync_directory zero e = raise setup
  sync_directory (suc k) e = do
    folder ← ensure_remote_parent (sync_directory k) e.path
    push_directory_if e folder

  abbrev pub require_content : Bool → Exec (Site R) Failure (Unit {0})
  require_content true = pure tt
  require_content false = raise setup

  abbrev pub is_hydrated : IcPath → Database → Bool
  is_hydrated path db = elim (get_entry db path) [ none ↦ false | some e ↦ e.hydrated ]

  -- The bytes that are to be uploaded are made sure of.
  unfoldable pub need_content : IcPath → Bool → Exec (Site R) Failure (Unit {0})
  need_content path false = pure tt
  need_content path true = do
    ensure_local_file set path
    hydrated ← asks (is_hydrated path)
    require_content hydrated

  abbrev pub entry_or : Entry → Option Entry → Entry
  entry_or e none = e
  entry_or e (some f) = f

  abbrev pub move_first : Entry → Bool → Exec (Site R) Failure Entry
  move_first e false = pure e
  move_first e true = do sync_move_or_rename e; asks (λ db. entry_or e (get_entry db e.path))

  abbrev pub delete_old : Option Node → Exec (Site R) Failure (Unit {0})
  delete_old none = pure tt
  delete_old (some n) = ignore (on_cloud (set.cloud.delete n permanent))

  abbrev pub settle_upload : IcPath → Node → Bool → DiskNode → Exec (Site R) Failure (Unit {0})
  settle_upload path meta false after =
      write_state (λ db. mark_uploaded_but_dirty db set.now path meta)
  settle_upload path meta true after = do
    ignore (on_mirror (Mirror.set_mtime path meta.modified))
    write_state (λ db. mark_clean db set.now path (some meta) (some (set.sha256 after.bytes)))

  -- A changed file is uploaded under its name, from which the old one is deleted first.
  unfoldable pub upload_content : IcPath → Node → Entry → Exec (Site R) Failure (Unit {0})
  upload_content path folder e = do
    before ← on_mirror (Mirror.stat path)
    delete_old (node e)
    bytes ← on_mirror (Mirror.stat path)
    on_cloud (set.cloud.upload folder (name_of path) bytes.bytes bytes.mtime)
    others_act set
    meta ← refresh_child_meta (parent path) (name_of path)
    after ← on_mirror (Mirror.stat path)
    settle_upload path meta (same_fingerprint (fingerprint after) (fingerprint before)) after

  abbrev pub push_content : IcPath → Node → Entry → Bool → Exec (Site R) Failure (Unit {0})
  push_content path folder e true = upload_content path folder e
  push_content path folder e false = do
    meta ← refresh_child_meta (parent path) (name_of path)
    write_state (λ db. mark_clean db set.now path (some meta) none)

  unfoldable pub push_present : Entry → Node → Bool → Exec (Site R) Failure (Unit {0})
  push_present e folder changed = do
    need_content e.path changed
    e' ← move_first e (is_known e && is_moved e)
    push_content e.path folder e' changed

  -- A file that is gone from the disk is taken as deleted.
  abbrev pub push_if_there : Entry → Node → Bool → Bool → Exec (Site R) Failure (Unit {0})
  push_if_there e folder false changed = write_state (λ db. mark_tombstone db e.path)
  push_if_there e folder true changed = push_present e folder changed

  unfoldable pub push_file : Entry → Node → Exec (Site R) Failure (Unit {0})
  push_file e folder s =
      push_if_there e folder (Mirror.exists e.path s.disk)
        (not (is_known e) || has_pending_content_change s.state e.path) s

  abbrev pub push_file_if : Entry → Option Node → Exec (Site R) Failure (Unit {0})
  push_file_if e none = pure tt
  push_file_if e (some folder) = push_file e folder

  unfoldable pub sync_file : ℕ → Entry → Exec (Site R) Failure (Unit {0})
  sync_file k e = do folder ← ensure_remote_parent (sync_directory k) e.path; push_file_if e folder
