-- ===== src/Engine/Listing.antt =====
-- `list_directory`, `refresh_listed_folders` and `apply_snapshot` of
-- crates/icloud-core/src/engine/remote.rs. The path's lock is held while a folder is listed.
use icloud_linux.Prelude.{
  ℕ, ◌-◌, Bool, true, false, not, ◌&&◌, ◌||◌, List, [], ◌∷◌, Option, none, some, Text, ltb,
  contains, get, insert, remove, nat_eq, text_eq, if◌then◌else◌,
}
use icloud_linux.Prelude.Int.{ℤ, lt_int, clamp_i64, saturating_diff}
use icloud_linux.Prelude.Exec.{Result, ok, err, Exec, pure, modify, ◌>>◌}
use icloud_linux.Path.{IcPath, is_root}
use icloud_linux.Drive.{Node, root_node, is_directory}
use icloud_linux.State.{Database}
use icloud_linux.State.Rows.{Entry, node}
use icloud_linux.State.Queries.{get_entry, list_entries}
use icloud_linux.State.Listings.{
  folder_listed_at, mark_folder_listed, list_listed_folders, list_stale_folder_listings,
}
use icloud_linux.State.Writes.{remove_subtree, clear_remote_identity}
use icloud_linux.Engine.Site.{Site, Setting, Failure, setup, on_cloud, write_state}
use icloud_linux.Engine.Download.{and_note}
use icloud_linux.Engine.Remote.{usable, ids_of, apply_all, sweep_folder, remove_gone}

-- A site, and when the listing of a folder last failed.
pub record Lister (R : Type 0) : Type 0 where
  pub site : Site R
  pub failures : List (IcPath × ℕ)

-- What is asked for: the children of a folder (its `drivewsid` beside it), nothing, or nothing since
-- the folder is only here and so complete.
pub data Target : Type 0 where
  ask : Node → Option Text → Target
  unknown : Target
  complete : Target

-- A crawl of iCloud: what was found, parents first, and which folders could be read.
pub record Snapshot : Type 0 where
  pub items : List (IcPath × Node)
  pub ids : List Text
  pub visited : List IcPath

abbrev folder_or_complete : Option Node → Target
folder_or_complete none = complete
folder_or_complete (some n) = ask n (some n.drivewsid)

abbrev folder_entry : Option Entry → Target
folder_entry none = unknown
folder_entry (some e) =
    if e.tombstone || not (is_directory e.kind) then unknown else folder_or_complete (node e)

unfoldable pub target : Database → IcPath → Target
target db path = if is_root path then ask root_node none else folder_entry (get_entry db path)

abbrev listed_within : ℤ → ℕ → Option ℤ → Bool
listed_within now interval none = false
listed_within now interval (some at) = lt_int (saturating_diff now at) (clamp_i64 interval)

abbrev failed_within : ℕ → ℕ → Option ℕ → Bool
failed_within clock backoff none = false
failed_within clock backoff (some when) = ltb (clock - when) backoff

abbrev drop_unless : Bool → IcPath → List (IcPath × ℕ) → List (IcPath × ℕ)
drop_unless true path failures = failures
drop_unless false path failures = remove path failures

-- Has the entry been synced since the crawl started?
abbrev synced_since : Option ℤ → Option ℤ → Bool
synced_since (some started) (some synced) = not (lt_int synced started)
synced_since _ _ = false

abbrev is_gone : Snapshot → Entry → Option Text → Bool
is_gone snapshot e none = false
is_gone snapshot e (some id) =
    not (contains id snapshot.ids) && contains e.parent_path snapshot.visited

module _ {R : Type 0} where
  abbrev pub moved_site :
      {A : Type 0} → Lister R → Result Failure A × Site R → Result Failure A × Lister R
  moved_site l (r, s) = (r, record l { site = s })

  unfoldable pub on_site : {A : Type 0} → Exec (Site R) Failure A → Exec (Lister R) Failure A
  on_site m l = moved_site l (m l.site)

module _ {R : Type 0} (set : Setting R) (stamp : Text) (marker : ℕ → Text) (tries : ℕ) where
  -- `apply_snapshot`, for an entry that the crawl did not find in a folder that it read.
  abbrev settle_gone : Option ℤ → Entry → Exec (Site R) Failure (Unit {0})
  settle_gone started e =
      if e.tombstone
      then write_state (λ db. remove_subtree db e.path)
      else if e.dirty
      then write_state (λ db. clear_remote_identity db e.path)
      else remove_gone (synced_since started e.last_synced_at) e.path

  unfoldable pub settle_entries :
      Snapshot → Option ℤ → List Entry → Exec (Site R) Failure (Unit {0})
  settle_entries snapshot started [] = pure tt
  settle_entries snapshot started (e ∷ es) =
      (if is_gone snapshot e e.remote_drivewsid then settle_gone started e else pure tt)
      >> settle_entries snapshot started es

  abbrev settle_all : Snapshot → Option ℤ → Exec (Site R) Failure (Unit {0})
  settle_all snapshot started s = settle_entries snapshot started (list_entries s.state) s

  unfoldable pub apply_snapshot : Snapshot → Option ℤ → Exec (Site R) Failure (Unit {0})
  apply_snapshot snapshot started = do
    apply_all set stamp marker tries true snapshot.items
    settle_all snapshot started

-- `clock` is the present instant, `backoff` and `interval` are the configured times.
module _ {R : Type 0} (set : Setting R) (stamp : Text) (marker : ℕ → Text) (tries : ℕ)
    (clock backoff interval : ℕ) where
  -- `recent_listing_failure`: a failure that is too old is forgotten.
  unfoldable pub recent_listing_failure : IcPath → Exec (Lister R) Failure Bool
  recent_listing_failure path l =
      let recent = failed_within clock backoff (get path l.failures) in
      (ok recent, record l { failures = drop_unless recent path l.failures })

  abbrev settle_listing : IcPath → Option Text → List Node → Exec (Lister R) Failure (Unit {0})
  settle_listing path id nodes = do
    on_site (apply_all set stamp marker tries false (usable path nodes))
    on_site (sweep_folder path (ids_of (usable path nodes)))
    on_site (write_state (λ db. mark_folder_listed db path id set.now))
    modify (λ l. record l { failures = remove path l.failures })

  abbrev with_children :
      IcPath
      → Option Text
      → Result Failure (List Node) × Lister R
      → Result Failure (Unit {0}) × Lister R
  with_children path id (ok nodes, l) = settle_listing path id nodes l
  with_children path id (err f, l) = (err f, record l { failures = insert path clock l.failures })

  unfoldable pub list_target : IcPath → Target → Exec (Lister R) Failure (Unit {0})
  list_target path unknown l = (ok tt, l)
  list_target path complete l =
      on_site (write_state (λ db. mark_folder_listed db path none set.now)) l
  list_target path (ask folder id) l =
      with_children path id (on_site (and_note (on_cloud (set.cloud.children folder))) l)

  abbrev list_now : IcPath → Exec (Lister R) Failure (Unit {0})
  list_now path l = list_target path (target l.site.state path) l

  abbrev unless_failed :
      IcPath → Result Failure Bool × Lister R → Result Failure (Unit {0}) × Lister R
  unless_failed path (ok true, l) = (err setup, l)
  unless_failed path (ok false, l) = list_now path l
  unless_failed path (err f, l) = (err f, l)

  unfoldable pub list_directory : IcPath → Bool → Exec (Lister R) Failure (Unit {0})
  list_directory path true l = list_now path l
  list_directory path false l =
      if listed_within set.now interval (folder_listed_at l.site.state path)
      then (ok tt, l)
      else unless_failed path (recent_listing_failure path l)

  -- The loop of `refresh_listed_folders`: a folder that fails is passed over.
  unfoldable pub list_folders : List IcPath → Lister R → Lister R
  list_folders [] l = l
  list_folders (path ∷ paths) l =
      let rest = list_folders paths (list_directory path true l).1 in
      if l.site.stopped then l else rest

  unfoldable pub refresh_listed_folders : Bool → Lister R → Lister R
  refresh_listed_folders force l =
      list_folders
        (if force
          then list_listed_folders l.site.state
          else list_stale_folder_listings l.site.state set.now interval)
        l
