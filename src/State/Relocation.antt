-- ===== src/State/Relocation.antt =====
-- Where `rename_tree` puts the entries of the subtree that it moves.
use mathlib.Core.Path.{subst}
use mathlib.Core.Option.{map as map_option, none-ne-some, some-injective}
use icloud_linux.Prelude.{
  ℕ, ◌+◌, Bool, true, false, ◌&&◌, List, [], ◌∷◌, map, ◌≡◌, refl, sym, ap, ◌∙◌, inl, inr, arith,
  Option, Option-cases, none, some, Text, is_prefix, is_empty, ◌==◌, Bool-cases, nat_eq, text_eq,
  if◌then◌else◌,
}
use icloud_linux.Path
use icloud_linux.Path.{IcPath, is_within, rebase, parent}
use icloud_linux.Path.Bounds.{in_subtree, in_subtree-is_within}
use icloud_linux.Path.Components.{IsNormal, IsSlashless, new_self, new-IsNormal, components}
use icloud_linux.Path.Within.{is_within-components}
use icloud_linux.Path.Rebase.{rebase-rebase}
use icloud_linux.Path.Steps.{parent-IsNormal}
use icloud_linux.State.Rows.{Entry, Row, from_row}
use icloud_linux.State.Sql.{delete_where, select_where, find_where, order_by}
use icloud_linux.State.Defs.{Database, at_path, by_length, listing_in}
use icloud_linux.State.Queries.{get_entry, fetch_rows}
use icloud_linux.State.Writes.{and_then}
use icloud_linux.State.Lookup.{row_at, IsKeyed}
use icloud_linux.State.Subtree.{AreNormal, All-order_by, All-select_where}
use icloud_linux.State.Entries.{row_of-get_entry}
use icloud_linux.State.Graves.{has_nul}
use icloud_linux.State.Fetched.{fetched-IsNormal, fetched_away}
use icloud_linux.State.Outside.{and_then-some, map_some, clear_way-IsUntouched}
use icloud_linux.State.Keyed.{
  at_entry, AreDistinct, find-order_by, find-select_where, find-map-from_row, select_where-IsKeyed,
  order_by-IsKeyed, map-AreDistinct, delete_where-IsKeyed,
}
use icloud_linux.State.Rekeyed.{update_key-IsKeyed, AreRekeyed, AreRekeyed-moved}
use icloud_linux.State.Trees.{
  graveyard, bury, displace, clear_way, follow, synced_after, relocated, move_row, move_rows,
  rename_tree, or_path,
}

prefix_comparable :
    (a b x : List Text)
    → is_prefix a x ≡ true
    → is_prefix b x ≡ true
    → is_prefix a b ≡ false
    → is_prefix b a ≡ true
prefix_comparable [] b x ha hb no_ = absurd (cc)
prefix_comparable (c ∷ a) [] x ha hb no_ = refl
prefix_comparable (c ∷ a) (d ∷ b) [] ha hb no_ = absurd (cc)
prefix_comparable (c ∷ a) (d ∷ b) (y ∷ x) ha hb no_ =
    ground (arith, ha, hb, no_, prefix_comparable a b x)

-- What lies within one of two folders, neither of which is within the other, is not within the other.
pub within_apart :
    (a b x : IcPath)
    → IsNormal a
    → IsNormal b
    → IsNormal x
    → is_within a b ≡ false
    → is_within b a ≡ false
    → is_within x a ≡ true
    → is_within x b ≡ false
within_apart a b x na nb nx ab ba inside = elim (Bool-cases (is_within x b)) [
  | inr out ↦ out
  | inl both ↦
      let b_in_a =
        prefix_comparable (components a) (components b) (components x)
          (sym (is_within-components x a nx na) ∙ inside)
          (sym (is_within-components x b nx nb) ∙ both)
          (sym (is_within-components b a nb na) ∙ ba) in
      absurd (cc (is_within-components a b na nb, b_in_a, ab))
]

-- A scan of the subtree finds the entry of each row in it, and each once.
module _ (old : IcPath) (rows : List Row) (normal : AreNormal rows) (keyed : IsKeyed rows) where
  sorted : List Row
  sorted = order_by by_length (select_where (λ r. in_subtree old r.path) rows)

  sorted-AreNormal : AreNormal sorted
  unfolding sorted
  sorted-AreNormal =
      All-order_by (λ (r : Row). IsNormal r.path) by_length _
        (All-select_where (λ (r : Row). IsNormal r.path) (λ r. in_subtree old r.path) rows normal)

  pub fetched-AreDistinct : AreDistinct (fetch_rows rows old)
  unfolding fetch_rows sorted
  fetched-AreDistinct =
      map-AreDistinct sorted sorted-AreNormal (
        order_by-IsKeyed by_length _ (select_where-IsKeyed (λ r. in_subtree old r.path) rows keyed))

  pub find-fetch_rows :
      (p : IcPath) (r : Row)
      → IsNormal p
      → is_within p old ≡ true
      → row_at p rows ≡ some r
      → find_where (at_entry p) (fetch_rows rows old) ≡ some (from_row r)
  unfolding fetch_rows sorted
  find-fetch_rows p r np inside here =
      find-map-from_row p sorted sorted-AreNormal
      ∙ ap (map_option from_row) (
          find-order_by by_length p _ (select_where-IsKeyed (λ r. in_subtree old r.path) rows keyed)
          ∙ (find-select_where (in_subtree old) p rows (in_subtree-is_within old p np ∙ inside)
              ∙ here))

bury-IsKeyed :
    (marker : Text) (e : Entry) (rows : List Row) {rows' : List Row}
    → bury marker e rows ≡ some rows'
    → IsKeyed rows
    → IsKeyed rows'
unfolding bury
bury-IsKeyed marker e rows h =
    update_key-IsKeyed e.path (graveyard e.path marker) _ rows (λ r. refl) h

displace-IsKeyed :
    (marker : Text) (e : Entry) (rows : List Row) {rows' : List Row}
    → displace marker e rows ≡ some rows'
    → IsKeyed rows
    → IsKeyed rows'
displace-IsKeyed marker e rows h keyed = elim (Option-cases e.remote_drivewsid) [
  | inl local ↦
      subst IsKeyed (some-injective _ _ (rw (local, displace) at h))
        (delete_where-IsKeyed (at_path e.path) rows keyed)
  | inr (id, known) ↦ bury-IsKeyed marker e rows (rw (known, displace) at h) keyed
]

clear_way-IsKeyed :
    (marker : ℕ → Text) (i : ℕ) (es : List Entry) (rows : List Row) {rows' : List Row}
    → clear_way marker i es rows ≡ some rows'
    → IsKeyed rows
    → IsKeyed rows'
unfolding clear_way
clear_way-IsKeyed marker i [] rows h keyed = subst IsKeyed (some-injective _ _ h) keyed
clear_way-IsKeyed marker i (e ∷ es) rows h keyed =
    let (next, first, rest) =
      and_then-some (displace (marker i) e rows) (λ r. clear_way marker (i + 1) es r) h in
    clear_way-IsKeyed marker (i + 1) es next rest (displace-IsKeyed (marker i) e rows first keyed)

move_rows-AreRekeyed :
    (old new : IcPath) (dirty synced : Bool) (es : List Entry) (rows rows' : List Row)
    → move_rows old new dirty synced es rows ≡ some rows'
    → AreRekeyed old new (relocated old new dirty synced) (λ e u r. refl) es rows rows'
unfolding move_rows
move_rows-AreRekeyed old new dirty synced [] rows rows' h = some-injective _ _ h
move_rows-AreRekeyed old new dirty synced (e ∷ es) rows rows' h =
    let (next, first, rest) =
      and_then-some (move_row old new dirty synced e rows)
        (λ r. move_rows old new dirty synced es r) h in
    (next, first, move_rows-AreRekeyed old new dirty synced es next rows' rest)

-- The entry as it is at its new path.
abbrev pub moved : IcPath → IcPath → Bool → Bool → Entry → IcPath → Entry
moved old new root_dirty update_synced e q = record e {
  path = q;
  parent_path = parent q;
  dirty = if root_dirty && e.path == old then true else e.dirty;
  synced_path = synced_after old new update_synced e.synced_path;
}

rebased-IsNormal :
    (old new p : IcPath)
    → IsNormal old
    → IsNormal new
    → IsNormal p
    → IsNormal (or_path (rebase p old new) p)
rebased-IsNormal old new p no_ nn np = elim (Option-cases (rebase p old new)) [
  | inl stays ↦ rw stays np
  | inr (q, moves) ↦ rw moves (rebase-rebase p old new np no_ nn moves).0
]

module _ (old new : IcPath) (no_ : IsNormal old) (nn : IsNormal new) where
  synced_after-normal :
      (b : Bool) (raw : Option Text)
      → map_option Path.new (synced_after old new b (map_option Path.new raw))
        ≡ synced_after old new b (map_option Path.new raw)
  synced_after-normal false none = refl
  synced_after-normal true none = refl
  synced_after-normal false (some raw) = ap some (new_self _ (new-IsNormal raw))
  synced_after-normal true (some raw) =
      ap some (new_self _ (rebased-IsNormal old new (Path.new raw) no_ nn (new-IsNormal raw)))

  from_row-relocated :
      (dirty synced : Bool) (r : Row) (q : IcPath)
      → IsNormal q
      → from_row (relocated old new dirty synced (from_row r) q r)
        ≡ moved old new dirty synced (from_row r) q
  unfolding from_row
  from_row-relocated dirty synced r q nq = λ i. record (from_row r) {
    path = new_self q nq i;
    parent_path = new_self (parent q) (parent-IsNormal q nq) i;
    dirty = if dirty && (from_row r).path == old then true else r.dirty;
    synced_path = synced_after-normal synced r.synced_path i;
  }

pub not_empty :
    (c : Entry → Bool) (es : List Entry) {e : Entry}
    → find_where c es ≡ some e
    → is_empty es ≡ false
unfolding find_where
not_empty c [] h = absurd (none-ne-some _ h)
not_empty c (e ∷ es) h = refl

-- Where `rename_tree` succeeds (a violated key makes it fail as a whole), it has moved the entry of each
-- path in the subtree to the rebased path: its own path is free afterwards, and at the new one is the entry with its new parent, with the dirty flag set if it is
-- the root of the move and this is asked for, and, if the move came from iCloud, with the name that
-- iCloud knows rebased too. Paths are normal and real ones (no NUL), no two rows have one path, neither
-- of the two places is within the other, the markers have no slash.
pub rename_tree-get_entry :
    (db db' : Database) (marker : ℕ → Text) (old new p q : IcPath) (dirty synced : Bool) (e : Entry)
    → IsKeyed db.entries
    → AreNormal db.entries
    → ((k : ℕ) → IsSlashless (marker k))
    → IsNormal old
    → IsNormal new
    → IsNormal p
    → has_nul p ≡ false
    → is_within old new ≡ false
    → is_within new old ≡ false
    → get_entry db p ≡ some e
    → rebase p old new ≡ some q
    → rename_tree db marker old new dirty synced ≡ some db'
    → (get_entry db' q ≡ some (moved old new dirty synced e q)) × (get_entry db' p ≡ none)
unfolding rename_tree get_entry
rename_tree-get_entry db db' marker old new p q dirty synced e keyed n hm no_ nn np real out_n out_o
      found moves done =
    let (r, here, reads) = row_of-get_entry db p found in
    let (nq, inside, arrived, back) = rebase-rebase p old new np no_ nn moves in
    let subtree = fetch_rows db.entries old in
    let there : find_where (at_entry p) subtree ≡ some (from_row r) =
      find-fetch_rows old db.entries n keyed p r np inside here in
    let cleared = clear_way marker 0 (fetch_rows db.entries new) db.entries in
    let move = move_rows old new dirty synced subtree in
    let keep = λ (entries : List Row). record db {
      entries = entries;
      pending_ops = map (follow old new) db.pending_ops;
      folder_listings = delete_where (listing_in old) db.folder_listings;
    } in
    let made : map_option keep (and_then cleared move) ≡ some db' =
      rw (not_empty (at_entry p) subtree there) at done in
    let (rows, renamed, kept) = map_some keep (and_then cleared move) made in
    let (rows', clear, rest) = and_then-some cleared move renamed in
    let apart = λ (x : IcPath) (nx : IsNormal x) (h : is_within x old ≡ true).
      within_apart old new x no_ nn nx out_n out_o h in
    let away =
      clear_way-IsUntouched p real marker 0 (fetch_rows db.entries new) db.entries hm
        (fetched_away db.entries new p n np (apart p np inside)) clear in
    let (to, from) =
      AreRekeyed-moved old new (relocated old new dirty synced) (λ e u r. refl) no_ nn apart p q np
        moves subtree (from_row r) r rows' rows (fetched-IsNormal db.entries old)
        (fetched-AreDistinct old db.entries n keyed) there
        (clear_way-IsKeyed marker 0 (fetch_rows db.entries new) db.entries clear keyed)
        (away.same ∙ here) (move_rows-AreRekeyed old new dirty synced subtree rows' rows rest) in
    (
      ap (λ d. get_entry d q) (sym kept)
          ∙ (ap (map_option from_row) to
              ∙ (ap some (from_row-relocated old new no_ nn dirty synced r q nq)
                  ∙ ap (λ x. some (moved old new dirty synced x q)) reads)),
      ap (λ d. get_entry d p) (sym kept) ∙ ap (map_option from_row) from,
    )
