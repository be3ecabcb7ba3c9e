-- ===== src/State/Writes.antt =====
-- The methods that write rows of `entries` and keep their paths.
use mathlib.Core.Option.{map as map_option}
use icloud_linux.Prelude.{
  ℕ, Bool, true, false, List, [], ◌∷◌, ◌++◌, any, Option, none, some, Text, codes, ◌==◌, nat_eq,
  text_eq, if◌then◌else◌,
}
use icloud_linux.Prelude.Int.{ℤ, clamp_i64}
use icloud_linux.Path.{IcPath}
use icloud_linux.Path.Bounds.{in_subtree}
use icloud_linux.Drive.{Node}
use icloud_linux.State.Rows.{Entry, Row, to_row}
use icloud_linux.State.Sql.{update_where, delete_where, coalesce, coalesce?}
use icloud_linux.State.Defs.{Database, at_path, op_at, op_in, listing_in}

-- `INSERT .. ON CONFLICT(path) DO UPDATE`
unfoldable pub upsert_row : Row → List Row → List Row
upsert_row r rows =
    if any (at_path r.path) rows
    then update_where (at_path r.path) (λ _. r) rows
    else rows ++ (r ∷ [])

unfoldable pub upsert_entry : Database → Entry → Database
upsert_entry db entry = record db { entries = upsert_row (to_row entry) db.entries }

unfoldable pub mark_hydrated : Database → IcPath → Option Text → Option ℕ → Option ℤ → Database
mark_hydrated db path sha256 size mtime = record db {
  entries =
      update_where (at_path path)
        (λ r. record r {
          hydrated = true;
          local_sha256 = coalesce? sha256 r.local_sha256;
          size = coalesce (map_option clamp_i64 size) r.size;
          mtime = coalesce mtime r.mtime;
        })
        db.entries;
}

unfoldable pub mark_dirty : Database → IcPath → Option ℕ → Option ℤ → Option Bool → Bool → Database
mark_dirty db path size mtime hydrated content_changed = record db {
  entries =
      update_where (at_path path)
        (λ r. record r {
          dirty = true;
          tombstone = false;
          size = coalesce (map_option clamp_i64 size) r.size;
          mtime = coalesce mtime r.mtime;
          hydrated = coalesce hydrated r.hydrated;
          local_sha256 = if content_changed then none else r.local_sha256;
        })
        db.entries;
}

unfoldable pub mark_tombstone : Database → IcPath → Database
mark_tombstone db path = record db {
  entries =
      update_where (at_path path) (λ r. record r { tombstone = true; dirty = true }) db.entries;
}

abbrev pub and_then {ℓ κ} : {A : Type ℓ} {B : Type κ} → Option A → (A → Option B) → Option B
and_then none f = none
and_then (some a) f = f a

-- What `mark_clean` writes into the row.
abbrev pub cleaned : ℤ → Option Node → Option Text → Row → Row
cleaned now remote sha256 r = record r {
  dirty = false;
  tombstone = false;
  hydrated = if r.type_ == codes "file" then r.hydrated else true;
  remote_drivewsid = coalesce? (map_option (λ n. n.drivewsid) remote) r.remote_drivewsid;
  remote_docwsid = coalesce? (and_then remote (λ n. n.docwsid)) r.remote_docwsid;
  remote_etag = coalesce? (and_then remote (λ n. n.etag)) r.remote_etag;
  remote_zone = coalesce? (and_then remote (λ n. n.zone)) r.remote_zone;
  size = coalesce (map_option (λ n. clamp_i64 n.size) remote) r.size;
  mtime = coalesce (map_option (λ n. n.modified) remote) r.mtime;
  local_sha256 = coalesce? sha256 r.local_sha256;
  last_synced_at = some now;
  synced_path = some r.path;
}

unfoldable pub mark_clean : Database → ℤ → IcPath → Option Node → Option Text → Database
mark_clean db now path remote sha256 = record db {
  entries = update_where (at_path path) (cleaned now remote sha256) db.entries;
  pending_ops = delete_where (op_at path) db.pending_ops;
}

unfoldable pub mark_uploaded_but_dirty : Database → ℤ → IcPath → Node → Database
mark_uploaded_but_dirty db now path remote = record db {
  entries =
      update_where (at_path path)
        (λ r. record r {
          remote_drivewsid = some remote.drivewsid;
          remote_docwsid = remote.docwsid;
          remote_etag = remote.etag;
          remote_zone = remote.zone;
          last_synced_at = some now;
          synced_path = some r.path;
        })
        db.entries;
}

unfoldable pub remove_entry : Database → IcPath → Database
remove_entry db path = record db {
  entries = delete_where (at_path path) db.entries;
  pending_ops = delete_where (op_at path) db.pending_ops;
}

unfoldable pub remove_subtree : Database → IcPath → Database
remove_subtree db path = record db {
  entries = delete_where (λ r. in_subtree path r.path) db.entries;
  pending_ops = delete_where (op_in path) db.pending_ops;
  folder_listings = delete_where (listing_in path) db.folder_listings;
}

unfoldable pub mark_synced_subtree : Database → ℤ → IcPath → Database
mark_synced_subtree db now path = record db {
  entries =
      update_where (λ r. in_subtree path r.path)
        (λ r. record r {
          synced_path = some r.path;
          dirty = if r.path == path then false else r.dirty;
          tombstone = if r.path == path then false else r.tombstone;
          last_synced_at = some now;
        })
        db.entries;
}

unfoldable pub clear_remote_identity : Database → IcPath → Database
clear_remote_identity db path = record db {
  entries =
      update_where (at_path path)
        (λ r. record r {
          remote_drivewsid = none;
          remote_docwsid = none;
          remote_etag = none;
          remote_zone = none;
          remote_shareid = none;
          synced_path = none;
          dirty = true;
          tombstone = false;
        })
        db.entries;
}
