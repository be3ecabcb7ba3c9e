-- ===== src/State/Entries.antt =====
-- What the methods do to the entry at each path.
use mathlib.Core.Option.{map as map_option, none-ne-some, some-injective}
use mathlib.Core.Bool.{and-false}
use icloud_linux.Prelude.{
  ℕ, ◌≤◌, Bool, true, false, ◌&&◌, List, [], ◌∷◌, ◌≡◌, ◌≢◌, refl, sym, ap, ◌∙◌, arith, inl, inr,
  any, Option, Option-cases, none, some, Text, ◌==◌, Bool-cases, nat_eq, text_eq, if◌then◌else◌,
}
use icloud_linux.Prelude.Int.{ℤ, i64_max, clamp_i64, to_u64}
use icloud_linux.Path
use icloud_linux.Path.{IcPath, is_within}
use icloud_linux.Path.Bounds.{in_subtree, in_subtree-is_within}
use icloud_linux.Path.Components.{IsNormal, new_self}
use icloud_linux.Drive.{Node}
use icloud_linux.Drive.Kinds.{parse_kind-as_str}
use icloud_linux.State.Rows.{Entry, Row, from_row, to_row}
use icloud_linux.State.Sql.{update_where, delete_where, find_where, coalesce?}
use icloud_linux.State.Defs.{Database, Listing, at_path, op_at, op_in, listing_in}
use icloud_linux.State.Queries.{get_entry}
use icloud_linux.State.Writes.{upsert_entry, remove_subtree, cleaned, mark_clean}
use icloud_linux.State.Queue.{op_of, changes_content, has_pending_content_change}
use icloud_linux.State.Listings.{listed, folder_listed_at}
use icloud_linux.State.Lookup.{
  row_at, path-row_at, row_at-update_where, row_at-delete_where, row_at-upsert_row,
}

abbrev NormalIfAny : Option IcPath → Type 0
NormalIfAny none = Unit
NormalIfAny (some p) = IsNormal p

-- An entry with normal paths and a size that an `i64` holds.
pub record IsStorable (e : Entry) : Type 0 where
  pub at : IsNormal e.path
  pub under : IsNormal e.parent_path
  pub synced : NormalIfAny e.synced_path
  pub small : e.size ≤ i64_max

to_u64-clamp_i64 : (n : ℕ) → n ≤ i64_max → to_u64 (clamp_i64 n) ≡ n
to_u64-clamp_i64 n h = ground arith

map-new_self : (o : Option IcPath) → NormalIfAny o → map_option Path.new o ≡ o
map-new_self none h = refl
map-new_self (some p) h = ap some (new_self p h)

-- An entry that is written is read back as it was.
pub from_row-to_row : (e : Entry) → IsStorable e → from_row (to_row e) ≡ e
unfolding from_row to_row
from_row-to_row e s = λ i. record {
  path = new_self e.path s.at i;
  kind = parse_kind-as_str e.kind i;
  parent_path = new_self e.parent_path s.under i;
  remote_drivewsid = e.remote_drivewsid;
  remote_docwsid = e.remote_docwsid;
  remote_etag = e.remote_etag;
  remote_zone = e.remote_zone;
  remote_shareid = e.remote_shareid;
  size = to_u64-clamp_i64 e.size s.small i;
  mtime = e.mtime;
  hydrated = e.hydrated;
  dirty = e.dirty;
  tombstone = e.tombstone;
  local_sha256 = e.local_sha256;
  last_synced_at = e.last_synced_at;
  synced_path = map-new_self e.synced_path s.synced i;
}

-- `upsert_entry` puts an entry that is storable at its path, every column as given, and leaves the
-- others. It is storable if its path, its parent and the path that iCloud knows are normal and its
-- size is at most that of an i64: a larger one is clamped. A `shareID` is its serialised text.
pub get_entry-upsert_entry :
    (db : Database) (e : Entry) (q : IcPath)
    → IsStorable e
    → get_entry (upsert_entry db e) q ≡ (if e.path == q then some e else get_entry db q)
unfolding get_entry upsert_entry
get_entry-upsert_entry db e q s =
    let same : (to_row e).path ≡ e.path = unfold to_row in refl in
    ap (map_option from_row) (row_at-upsert_row q (to_row e) db.entries)
    ∙ rw same (ground (arith, from_row-to_row e s))

any-delete_where {ℓ} :
    {A : Type ℓ} (test c : A → Bool) (xs : List A)
    → ((x : A) → test x ≡ true → c x ≡ true)
    → any test (delete_where c xs) ≡ false
unfolding delete_where
any-delete_where test c [] h = refl
any-delete_where test c (x ∷ xs) h = ground (arith, h x, any-delete_where test c xs h)

pub find-delete_where :
    (p q : IcPath) (ls : List Listing)
    → find_where (listed q) (delete_where (listing_in p) ls)
      ≡ (if in_subtree p q then none else find_where (listed q) ls)
unfolding find_where delete_where
find-delete_where p q [] = ground arith
find-delete_where p q (l ∷ ls) = ground (arith, find-delete_where p q ls)

-- `remove_subtree` removes the entries, the queued content changes and the listing marker of a path
-- and of all that lies within it, and leaves each other entry and marker.
pub get_entry-remove_subtree :
    (db : Database) (p q : IcPath)
    → IsNormal q
    → (get_entry (remove_subtree db p) q ≡ (if is_within q p then none else get_entry db q))
      × ((is_within q p && has_pending_content_change (remove_subtree db p) q) ≡ false)
      × (folder_listed_at (remove_subtree db p) q
          ≡ (if is_within q p then none else folder_listed_at db q))
unfolding get_entry remove_subtree has_pending_content_change folder_listed_at
get_entry-remove_subtree db p q n = (
  ap (map_option from_row) (row_at-delete_where q (in_subtree p) db.entries)
      ∙ ground (arith, in_subtree-is_within p q n),
  elim (Bool-cases (is_within q p)) [
    | inl inside ↦
        ap (λ b. is_within q p && b)
          (any-delete_where (op_of q changes_content) (op_in p) db.pending_ops
            (λ o h. ground (arith, in_subtree-is_within p q n)))
        ∙ and-false (is_within q p)
    | inr out ↦ rw out
  ],
  ap (map_option (λ l. l.listed_at)) (find-delete_where p q db.folder_listings)
      ∙ ground (arith, in_subtree-is_within p q n),
)

pub row_of-get_entry :
    (db : Database) (p : IcPath) {e : Entry}
    → get_entry db p ≡ some e
    → (r : Row) × (row_at p db.entries ≡ some r) × (from_row r ≡ e)
unfolding get_entry
row_of-get_entry db p found = elim (Option-cases (row_at p db.entries)) [
  | inl gone ↦ absurd (none-ne-some _ (ap (map_option from_row) (sym gone) ∙ found))
  | inr (r, here) ↦ (r, here, some-injective _ _ (ap (map_option from_row) (sym here) ∙ found))
]

-- `mark_clean`: the entry is there with neither flag, under the name that iCloud knows, with the
-- remote id that came back, if any; no content change of it is queued; and no other entry changes.
pub get_entry-mark_clean :
    (db : Database) (now : ℤ) (p q : IcPath) (remote : Option Node) (sha256 : Option Text)
    {e : Entry}
    → IsNormal p
    → p ≢ q
    → get_entry db p ≡ some e
    → (e' : Entry) × (get_entry (mark_clean db now p remote sha256) p ≡ some e')
      × (e'.dirty ≡ false)
      × (e'.tombstone ≡ false)
      × (e'.synced_path ≡ some p)
      × (e'.remote_drivewsid ≡ coalesce? (map_option (λ n. n.drivewsid) remote) e.remote_drivewsid)
      × (has_pending_content_change (mark_clean db now p remote sha256) p ≡ false)
      × (get_entry (mark_clean db now p remote sha256) q ≡ get_entry db q)
unfolding mark_clean has_pending_content_change from_row
get_entry-mark_clean db now p q remote sha256 {e} n other found =
    let (r, here, reads) = row_of-get_entry db p found in
    let at : r.path ≡ p = path-row_at p db.entries r here in
    let change = cleaned now remote sha256 in
    let rows = update_where (at_path p) change db.entries in
    let written : row_at p rows ≡ some (change r) =
      row_at-update_where p (at_path p) change db.entries (λ _. refl) ∙ rw here (ground arith) in
    let kept : row_at q rows ≡ row_at q db.entries =
      row_at-update_where q (at_path p) change db.entries (λ _. refl)
      ∙ elim (Option-cases (row_at q db.entries)) [
        | inl gone ↦ rw gone refl
        | inr (s, there) ↦ rw there (ground (arith, path-row_at q db.entries s there))
      ] in
    (
      from_row (change r),
      unfold get_entry in ap (map_option from_row) written,
      refl,
      refl,
      ap some (ap Path.new at ∙ new_self p n),
      ap (λ (x : Entry). coalesce? (map_option (λ n. n.drivewsid) remote) x.remote_drivewsid) reads,
      any-delete_where (op_of p changes_content) (op_at p) db.pending_ops (λ o h. ground arith),
      unfold get_entry in ap (map_option from_row) kept,
    )

-- An entry is at the path at which it is found.
pub path-get_entry :
    (db : Database) (p : IcPath) {e : Entry} → IsNormal p → get_entry db p ≡ some e → e.path ≡ p
path-get_entry db p n found =
    let (r, here, reads) = row_of-get_entry db p found in
    ap (λ (x : Entry). x.path) (sym reads)
    ∙ unfold from_row in (ap Path.new (path-row_at p db.entries r here) ∙ new_self p n)
