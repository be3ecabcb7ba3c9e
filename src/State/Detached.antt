-- ===== src/State/Detached.antt =====
-- Where `detach_subtree_as_conflict` puts the entries of a subtree, and what is left of them.
pub mod Free
use mathlib.Core.Option.{map as map_option, some-injective}
use icloud_linux.Prelude.{true, false, List, [], ◌∷◌, ◌≡◌, refl, sym, ap, ◌∙◌, none, some}
use icloud_linux.Path.{IcPath, is_within, rebase, parent}
use icloud_linux.Path.Components.{IsNormal, new_self}
use icloud_linux.Path.Rebase.{rebase-rebase}
use icloud_linux.Path.Steps.{parent-IsNormal}
use icloud_linux.State.Rows.{Entry, Row, from_row}
use icloud_linux.State.Defs.{Database}
use icloud_linux.State.Queries.{get_entry, fetch_rows}
use icloud_linux.State.Lookup.{IsKeyed}
use icloud_linux.State.Subtree.{AreNormal}
use icloud_linux.State.Entries.{row_of-get_entry}
use icloud_linux.State.Fetched.{fetched-IsNormal}
use icloud_linux.State.Outside.{and_then-some, map_some}
use icloud_linux.State.Rekeyed.{AreRekeyed, AreRekeyed-moved}
use icloud_linux.State.Relocation.{within_apart, fetched-AreDistinct, find-fetch_rows}
use icloud_linux.State.Trees.{detach_row, detach_rows, detach_subtree_as_conflict}

-- A new local entry with the contents of the old one.
abbrev pub detached : Entry → IcPath → Entry
detached e q = record e {
  path = q;
  parent_path = parent q;
  remote_drivewsid = none;
  remote_docwsid = none;
  remote_etag = none;
  remote_zone = none;
  remote_shareid = none;
  synced_path = none;
  dirty = true;
  tombstone = false;
}

abbrev pub detached_row : Entry → IcPath → Row → Row
detached_row e q r = record r {
  path = q;
  parent_path = parent q;
  remote_drivewsid = none;
  remote_docwsid = none;
  remote_etag = none;
  remote_zone = none;
  remote_shareid = none;
  synced_path = none;
  dirty = true;
  tombstone = false;
}

detach_rows-AreRekeyed :
    (old new : IcPath) (es : List Entry) (rows rows' : List Row)
    → detach_rows old new es rows ≡ some rows'
    → AreRekeyed old new detached_row (λ e u r. refl) es rows rows'
unfolding detach_rows
detach_rows-AreRekeyed old new [] rows rows' h = some-injective _ _ h
detach_rows-AreRekeyed old new (e ∷ es) rows rows' h =
    let (next, first, rest) =
      and_then-some (detach_row old new e rows) (λ r. detach_rows old new es r) h in
    (next, first, detach_rows-AreRekeyed old new es next rows' rest)

from_row-detached_row :
    (r : Row) (q : IcPath)
    → IsNormal q
    → from_row (detached_row (from_row r) q r) ≡ detached (from_row r) q
unfolding from_row
from_row-detached_row r q nq = λ i. record (detached (from_row r) q) {
  path = new_self q nq i;
  parent_path = new_self (parent q) (parent-IsNormal q nq) i;
}

-- Where `detach_subtree_as_conflict` succeeds (at an occupied path it fails, and moves nothing), it has
-- moved the entry of each path in the subtree to the rebased path and made it one that has never been
-- on iCloud and is to be uploaded; its own path is free. Paths are
-- normal, no two rows have one path, neither of the two places is within the other.
pub detach_subtree_as_conflict-get_entry :
    (db db' : Database) (old new p q : IcPath) (e : Entry)
    → IsKeyed db.entries
    → AreNormal db.entries
    → IsNormal old
    → IsNormal new
    → IsNormal p
    → is_within old new ≡ false
    → is_within new old ≡ false
    → get_entry db p ≡ some e
    → rebase p old new ≡ some q
    → detach_subtree_as_conflict db old new ≡ some db'
    → (get_entry db' q ≡ some (detached e q)) × (get_entry db' p ≡ none)
unfolding detach_subtree_as_conflict get_entry
detach_subtree_as_conflict-get_entry db db' old new p q e keyed n no_ nn np out_n out_o found moves
      done =
    let (r, here, reads) = row_of-get_entry db p found in
    let (nq, inside, arrived, back) = rebase-rebase p old new np no_ nn moves in
    let subtree = fetch_rows db.entries old in
    let keep = λ (entries : List Row). record db { entries = entries } in
    let (rows, renamed, kept) = map_some keep (detach_rows old new subtree db.entries) done in
    let (to, from) =
      AreRekeyed-moved old new detached_row (λ e u r. refl) no_ nn
        (λ x nx h. within_apart old new x no_ nn nx out_n out_o h) p q np moves subtree (from_row r)
        r db.entries rows (fetched-IsNormal db.entries old)
        (fetched-AreDistinct old db.entries n keyed)
        (find-fetch_rows old db.entries n keyed p r np inside here) keyed here
        (detach_rows-AreRekeyed old new subtree db.entries rows renamed) in
    (
      ap (λ d. get_entry d q) (sym kept)
          ∙ (ap (map_option from_row) to
              ∙ (ap some (from_row-detached_row r q nq) ∙ ap (λ x. some (detached x q)) reads)),
      ap (λ d. get_entry d p) (sym kept) ∙ ap (map_option from_row) from,
    )
