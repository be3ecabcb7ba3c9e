-- ===== src/Engine/Crawl.antt =====
-- `crawl_remote` of crates/icloud-core/src/engine/remote.rs: a turn of its loop, which runs while
-- folders are queued. Sets are lists, in which an element may occur twice.
use icloud_linux.Prelude.{◌&&◌, List, [], ◌∷◌, ◌++◌, Option, none, some, if◌then◌else◌}
use icloud_linux.Prelude.Exec.{Result, ok, err, Exec}
use icloud_linux.Path.{IcPath, join, root}
use icloud_linux.Policy.{SyncPolicy, should_descend}
use icloud_linux.Drive.{Node, root_node, is_directory}
use icloud_linux.Engine.Site.{Site, Setting, Failure, setup, on_cloud, note_failure}
use icloud_linux.Engine.Listing.{Snapshot}

-- The folders still to be listed, first come first, and what has been found.
pub record Crawl : Type 0 where
  pub queue : List (Node × IcPath)
  pub snapshot : Snapshot

abbrev pub start : Crawl
start = record {
  queue = (root_node, root) ∷ [];
  snapshot = record { items = []; ids = []; visited = [] };
}

abbrev found : IcPath → Node → Snapshot → Snapshot
found path n snapshot = record snapshot {
  ids = n.drivewsid ∷ snapshot.ids;
  items = snapshot.items ++ ((path, n) ∷ []);
}

abbrev add_folder : SyncPolicy → IcPath → Node → List (Node × IcPath) → List (Node × IcPath)
add_folder policy path n queue =
    if is_directory n.kind && should_descend policy path then queue ++ ((n, path) ∷ []) else queue

abbrev add_child : SyncPolicy → Option IcPath → Node → Crawl → Crawl
add_child policy none n crawl = crawl
add_child policy (some path) n crawl = record crawl {
  queue = add_folder policy path n crawl.queue;
  snapshot = found path n crawl.snapshot;
}

unfoldable pub add_children : SyncPolicy → IcPath → List Node → Crawl → Crawl
add_children policy path [] crawl = crawl
add_children policy path (n ∷ ns) crawl =
    add_children policy path ns (add_child policy (join path n.name) n crawl)

abbrev visit : IcPath → Crawl → Crawl
visit path crawl = record crawl {
  snapshot = record crawl.snapshot { visited = path ∷ crawl.snapshot.visited };
}

module _ {R : Type 0} (set : Setting R) where
  -- A folder that cannot be listed is passed over.
  abbrev after_children :
      IcPath → Crawl → Result Failure (List Node) × Site R → Result Failure (Option Crawl) × Site R
  after_children path crawl (ok nodes, s) =
      (ok (some (add_children set.policy path nodes (visit path crawl))), s)
  after_children path crawl (err f, s) = (ok (some crawl), note_failure f s)

  -- One turn: `none` when no folder is left.
  abbrev next_folder : List (Node × IcPath) → Crawl → Exec (Site R) Failure (Option Crawl)
  next_folder [] crawl s = (ok none, s)
  next_folder ((folder, path) ∷ queue) crawl s =
      if s.stopped
      then (err setup, s)
      else after_children path (record crawl { queue = queue })
          (on_cloud (set.cloud.children folder) s)

  unfoldable pub turn : Crawl → Exec (Site R) Failure (Option Crawl)
  turn crawl = next_folder crawl.queue crawl
