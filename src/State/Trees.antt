-- ===== src/State/Trees.antt =====
-- The methods that give rows new paths. A violated key ends the transaction with an error and leaves
-- the database as it was: the result is `none`.
use icloud_linux.Prelude.{
  ℕ, ◌+◌, Bool, true, false, not, ◌&&◌, List, [], ◌∷◌, ◌++◌, map, any, Option, none, some, Text,
  codes, is_empty, ◌==◌, nat_eq, text_eq, if◌then◌else◌,
}
use mathlib.Core.Option.{map as map_option}
use icloud_linux.Path
use icloud_linux.Path.{IcPath, parent, rebase}
use icloud_linux.State.Rows.{Entry, Row, from_row}
use icloud_linux.State.Sql.{update_where, delete_where, find_where}
use icloud_linux.State.Defs.{Database, Op, at_path, listing_in}
use icloud_linux.State.Queries.{fetch_rows}
use icloud_linux.State.Writes.{and_then}

-- `UPDATE entries SET path = ?, .. WHERE path = ?`: two rows may not have one path.
unfoldable pub update_key : Text → Text → (Row → Row) → List Row → Option (List Row)
update_key p p' f rows =
    if any (at_path p) rows && (not (p == p') && any (at_path p') rows)
    then none
    else some (update_where (at_path p) f rows)

abbrev pub or_path : Option IcPath → IcPath → IcPath
or_path none p = p
or_path (some q) p = q

-- The path at which `bury` puts a row: the entry's with NUL, `displaced-` and the marker behind it.
unfoldable pub graveyard : IcPath → Text → IcPath
graveyard path marker = Path.new (path ++ (0 ∷ (codes "displaced-" ++ marker)))

-- `bury`; the flag `make_tombstone` has no effect.
unfoldable pub bury : Text → Entry → List Row → Option (List Row)
bury marker entry rows =
    update_key entry.path (graveyard entry.path marker)
      (λ r. record r {
        path = graveyard entry.path marker;
        tombstone = true;
        dirty = true;
        synced_path = some (or_path entry.synced_path entry.path);
      })
      rows

-- The body of the loop that clears the way at the destination.
abbrev pub displace : Text → Entry → List Row → Option (List Row)
displace marker e rows = elim e.remote_drivewsid [
  | some id ↦ bury marker e rows
  | none ↦ some (delete_where (at_path e.path) rows)
]

-- The n-th row that is displaced gets the n-th marker.
unfoldable pub clear_way : (ℕ → Text) → ℕ → List Entry → List Row → Option (List Row)
clear_way marker i [] rows = some rows
clear_way marker i (e ∷ es) rows =
    and_then (displace (marker i) e rows) (λ rows'. clear_way marker (i + 1) es rows')

-- `synced.rebase(old, new).or_else(|| Some(synced.clone()))` where the move is known to iCloud.
abbrev pub synced_after : IcPath → IcPath → Bool → Option IcPath → Option IcPath
synced_after old new true (some synced) = some (or_path (rebase synced old new) synced)
synced_after old new _ synced = synced

-- What the UPDATE of the loop writes.
abbrev pub relocated : IcPath → IcPath → Bool → Bool → Entry → IcPath → Row → Row
relocated old new root_dirty update_synced e updated r = record r {
  path = updated;
  parent_path = parent updated;
  dirty = if root_dirty && e.path == old then true else e.dirty;
  synced_path = synced_after old new update_synced e.synced_path;
}

-- The body of the loop over the subtree of `rename_tree`.
abbrev pub move_row : IcPath → IcPath → Bool → Bool → Entry → List Row → Option (List Row)
move_row old new root_dirty update_synced e rows = elim (rebase e.path old new) [
  | none ↦ some rows
  | some updated ↦
      update_key e.path updated (relocated old new root_dirty update_synced e updated) rows
]

unfoldable pub move_rows : IcPath → IcPath → Bool → Bool → List Entry → List Row → Option (List Row)
move_rows old new root_dirty update_synced [] rows = some rows
move_rows old new root_dirty update_synced (e ∷ es) rows =
    and_then (move_row old new root_dirty update_synced e rows)
      (λ rows'. move_rows old new root_dirty update_synced es rows')

-- A queued operation follows its paths. Each is updated by its own id.
abbrev pub follow : IcPath → IcPath → Op → Op
follow old new o =
    let path = Path.new o.path in
    let target = map_option Path.new o.target_path in
    let new_path = rebase path old new in
    let new_target = and_then target (λ t. rebase t old new) in
    elim new_path [
      | some p ↦ record o {
        path = p;
        target_path = elim new_target [ none ↦ target | some t ↦ some t ];
      }
      | none ↦ elim new_target [
        | none ↦ o
        | some t ↦ record o { path = path; target_path = some t }
      ]
    ]

unfoldable pub rename_tree : Database → (ℕ → Text) → IcPath → IcPath → Bool → Bool → Option Database
rename_tree db marker old new root_dirty update_synced =
    let subtree = fetch_rows db.entries old in
    let rows =
      and_then (clear_way marker 0 (fetch_rows db.entries new) db.entries)
        (λ rows'. move_rows old new root_dirty update_synced subtree rows') in
    if is_empty subtree
    then some db
    else map_option
        (λ entries. record db {
          entries = entries;
          pending_ops = map (follow old new) db.pending_ops;
          folder_listings = delete_where (listing_in old) db.folder_listings;
        })
        rows

-- `tombstone.filter(|e| e.tombstone)`, and what is done with it.
abbrev pub bury_if_tombstone : Text → Option Entry → List Row → Option (List Row)
bury_if_tombstone marker none rows = some rows
bury_if_tombstone marker (some e) rows = if e.tombstone then bury marker e rows else some rows

unfoldable pub bury_tombstone : Database → Text → IcPath → Option Database
bury_tombstone db marker path =
    map_option (λ entries. record db { entries = entries })
      (bury_if_tombstone marker (map_option from_row (find_where (at_path path) db.entries))
        db.entries)

-- The body of the loop of `detach_subtree_as_conflict`.
abbrev pub detach_row : IcPath → IcPath → Entry → List Row → Option (List Row)
detach_row old new e rows = elim (rebase e.path old new) [
  | none ↦ some rows
  | some updated ↦
      update_key e.path updated
        (λ r. record r {
          path = updated;
          parent_path = parent updated;
          remote_drivewsid = none;
          remote_docwsid = none;
          remote_etag = none;
          remote_zone = none;
          remote_shareid = none;
          synced_path = none;
          dirty = true;
          tombstone = false;
        })
        rows
]

unfoldable pub detach_rows : IcPath → IcPath → List Entry → List Row → Option (List Row)
detach_rows old new [] rows = some rows
detach_rows old new (e ∷ es) rows =
    and_then (detach_row old new e rows) (λ rows'. detach_rows old new es rows')

unfoldable pub detach_subtree_as_conflict : Database → IcPath → IcPath → Option Database
detach_subtree_as_conflict db old new =
    map_option (λ entries. record db { entries = entries })
      (detach_rows old new (fetch_rows db.entries old) db.entries)
