-- ===== src/State/Tests.antt =====
-- A small database, and the theorems at it.
use mathlib.Core.Option.{map as map_option}
use icloud_linux.Prelude.{
  ℕ, Option, Text, true, ◌≡◌, ◌≢◌, false, ◌&&◌, ◌||◌, [], ◌∷◌, refl, arith, any, none, some, codes,
  ◌==◌, if◌then◌else◌, nat_eq, text_eq,
}
use icloud_linux.Prelude.Int.{pos}
use icloud_linux.Path
use icloud_linux.Path.{IcPath, parent, is_within, rebase, is_root, relative_to, subtree_bounds}
use icloud_linux.Path.Str.{strip_prefix, trim_start, rfind, split, join_with}
use icloud_linux.Path.Samples.{docs, note, docs-IsNormal, note-IsNormal, old, old-IsNormal}
use icloud_linux.Drive.{parse_kind, file}
use icloud_linux.State.Rows.{to_row, Entry, local, Row, from_row}
use icloud_linux.State.Sql.{find_where, select_where, order_by, update_where, delete_where}
use icloud_linux.State.{Database, empty}
use icloud_linux.State.Queries.{get_entry, fetch_rows}
use icloud_linux.State.Writes.{upsert_row, upsert_entry, remove_subtree}
use icloud_linux.State.Queue.{op_of, creates, changes_content, queue_op, has_pending_content_change}
use icloud_linux.State.Listings.{folder_listed_at}
use icloud_linux.State.Entries.{IsStorable, get_entry-upsert_entry, get_entry-remove_subtree}
use icloud_linux.State.Relocation.{moved, rename_tree-get_entry}
use icloud_linux.State.Detached.{detached}
use icloud_linux.State.Detached.Free.{detach_subtree_as_conflict-rebase}
use icloud_linux.Path.Bounds.{in_subtree, in_range}
use icloud_linux.State.Burial.{buried, get_entry-bury_tombstone}
use icloud_linux.State.Trees.{
  graveyard, bury_tombstone, rename_tree, clear_way, update_key, move_rows,
  detach_subtree_as_conflict,
}
use icloud_linux.State.Pending.{has_pending_content_change-queue_op}

abbrev new_note : Entry
new_note = local note file (pos 100)

new_note-IsStorable : IsStorable new_note
unfolding local parent rfind nat_eq text_eq
new_note-IsStorable = record {
  at = note-IsNormal;
  under = docs-IsNormal;
  synced = tt;
  small = omega arith;
}

abbrev one_note : Database
one_note = upsert_entry empty new_note

get_entry-upsert_entry_example :
    get_entry one_note note
    ≡ (if new_note.path == note then some new_note else get_entry empty note)
get_entry-upsert_entry_example = get_entry-upsert_entry empty new_note note new_note-IsStorable

note_found : get_entry one_note note ≡ some new_note
unfolding local nat_eq text_eq
note_found = get_entry-upsert_entry empty new_note note new_note-IsStorable

get_entry-remove_subtree_example :
    (get_entry (remove_subtree one_note docs) note
      ≡ (if is_within note docs then none else get_entry one_note note))
    × ((is_within note docs && has_pending_content_change (remove_subtree one_note docs) note)
        ≡ false)
    × (folder_listed_at (remove_subtree one_note docs) note
        ≡ (if is_within note docs then none else folder_listed_at one_note note))
get_entry-remove_subtree_example = get_entry-remove_subtree one_note docs note note-IsNormal

note_ne_docs : ◌≢◌ {A = IcPath} note docs
note_ne_docs = λ e. cc

has_pending_content_change-queue_op_example :
    has_pending_content_change (queue_op one_note (pos 1) (codes "update") note none) note ≡ (
      if codes "update" == codes "delete" && any (op_of note creates) one_note.pending_ops
      then (if note == note then false else has_pending_content_change one_note note)
      else has_pending_content_change one_note note
        || (note == note && changes_content (codes "update")))
has_pending_content_change-queue_op_example =
    has_pending_content_change-queue_op one_note (pos 1) (codes "update") note none note

nothing_queued : any (λ o. o.path == note) one_note.pending_ops ≡ false
unfolding upsert_entry
nothing_queued = refl

-- The note is deleted, and the deletion is still to be sent.
abbrev dead_note : Entry
dead_note = record new_note { tombstone = true; remote_drivewsid = some (codes "FILE::1") }

dead_note-IsStorable : IsStorable dead_note
unfolding local parent rfind nat_eq text_eq
dead_note-IsStorable = record {
  at = note-IsNormal;
  under = docs-IsNormal;
  synced = tt;
  small = omega arith;
}

abbrev with_dead : Database
with_dead = upsert_entry empty dead_note

with_dead_found : get_entry with_dead note ≡ some dead_note
unfolding local nat_eq text_eq
with_dead_found = get_entry-upsert_entry empty dead_note note dead_note-IsStorable

get_entry-bury_tombstone_example :
    map_option (λ t. get_entry t note) (bury_tombstone with_dead (codes "ab12") note)
    ≡ some (
        if graveyard note (codes "ab12") == note
        then some (buried (codes "ab12") dead_note)
        else if note == note
        then none
        else get_entry with_dead note)
unfolding upsert_entry upsert_row to_row local graveyard text_eq nat_eq Path.new split join_with
get_entry-bury_tombstone_example =
    get_entry-bury_tombstone with_dead (codes "ab12") note note (refl, tt) note-IsNormal
      with_dead_found refl refl

-- The note's folder is renamed.
abbrev row_of : Entry → Row
row_of e = to_row e

abbrev one_row : Database
one_row = record empty { entries = row_of new_note ∷ [] }

abbrev kept_by : Option Database → Database
kept_by none = empty
kept_by (some db) = db

abbrev grave : ℕ → Text
grave k = codes "ab12"

abbrev old_note : IcPath
old_note = codes "/old/a.txt"

note_here : get_entry one_row note ≡ some new_note
unfolding get_entry find_where to_row from_row local nat_eq text_eq Path.new split join_with
    parse_kind parent rfind
note_here = refl

note_moves : rebase note docs old ≡ some old_note
unfolding rebase relative_to is_within is_root nat_eq text_eq Path.new split join_with strip_prefix
    trim_start
note_moves = refl

abbrev renamed : Database
renamed = kept_by (rename_tree one_row grave docs old false false)

renamed_runs : rename_tree one_row grave docs old false false ≡ some renamed
unfolding rename_tree fetch_rows select_where order_by clear_way update_where delete_where
    update_key move_rows rebase relative_to is_within is_root to_row from_row local nat_eq text_eq
    Path.new split join_with subtree_bounds in_subtree in_range strip_prefix trim_start
renamed_runs = refl

rename_tree-get_entry_example :
    (get_entry renamed old_note ≡ some (moved docs old false false new_note old_note))
    × (get_entry renamed note ≡ none)
unfolding is_within is_root local nat_eq text_eq to_row strip_prefix
rename_tree-get_entry_example =
    rename_tree-get_entry one_row renamed grave docs old note old_note false false new_note
      (refl, tt) (note-IsNormal, tt) (λ k. refl) docs-IsNormal old-IsNormal note-IsNormal refl refl
      refl note_here note_moves renamed_runs

detach_subtree_as_conflict-rebase_example :
    (db : Database) × (detach_subtree_as_conflict one_row docs old ≡ some db)
    × (get_entry db old_note ≡ some (detached new_note old_note))
    × (get_entry db note ≡ none)
unfolding is_within is_root local nat_eq text_eq to_row strip_prefix
detach_subtree_as_conflict-rebase_example =
    detach_subtree_as_conflict-rebase one_row docs old note old_note new_note (refl, tt)
      (note-IsNormal, tt) docs-IsNormal old-IsNormal note-IsNormal refl refl refl note_here
      note_moves
