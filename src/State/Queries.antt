-- ===== src/State/Queries.antt =====
-- The methods that only read.
use mathlib.Core.Option.{map as map_option}
use icloud_linux.Prelude.{
  ℕ, Bool, false, not, ◌&&◌, ◌||◌, List, map, Option, none, some, Text, codes, length, ◌==◌, nat_eq,
  text_eq,
}
use icloud_linux.Path
use icloud_linux.Path.{IcPath}
use icloud_linux.Path.Bounds.{in_subtree}
use icloud_linux.State.Rows.{Entry, Row, from_row}
use icloud_linux.State.Sql.{select_where, find_where, order_by}
use icloud_linux.State.Defs.{Database, at_path, by_path, by_length}

unfoldable pub get_entry : Database → IcPath → Option Entry
get_entry db path = map_option from_row (find_where (at_path path) db.entries)

-- `remote_drivewsid = ?1`; NULL equals nothing.
abbrev pub has_id : Text → Option Text → Bool
has_id id none = false
has_id id (some j) = j == id

unfoldable pub get_entry_by_remote_id : Database → Text → Option Entry
get_entry_by_remote_id db drivewsid =
    map_option from_row (find_where (λ r. has_id drivewsid r.remote_drivewsid) db.entries)

unfoldable pub list_entries : Database → List Entry
list_entries db = map from_row (order_by by_path db.entries)

unfoldable pub count_entries : Database → ℕ
count_entries db = length db.entries

unfoldable pub list_children : Database → IcPath → List Entry
list_children db parent =
    map from_row (order_by by_path (select_where (λ r. r.parent_path == parent) db.entries))

unfoldable pub list_unhydrated_paths : Database → List IcPath
list_unhydrated_paths db =
    map (λ r. Path.new r.path)
      (order_by by_path (
        select_where (λ r. r.type_ == codes "file" && not r.tombstone && not r.hydrated)
          db.entries))

unfoldable pub list_dirty_entries : Database → List Entry
list_dirty_entries db =
    map from_row (order_by by_path (select_where (λ r. r.dirty || r.tombstone) db.entries))

-- The function `fetch_subtree` on a connection.
unfoldable pub fetch_rows : List Row → IcPath → List Entry
fetch_rows rows path =
    map from_row (order_by by_length (select_where (λ r. in_subtree path r.path) rows))

unfoldable pub fetch_subtree : Database → IcPath → List Entry
fetch_subtree db = fetch_rows db.entries
