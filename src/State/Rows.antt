-- ===== src/State/Rows.antt =====
-- The rows of the table `entries` and the `Entry` that they are read as.
use icloud_linux.Prelude.{
  ℕ, Bool, true, false, ◌||◌, Option, none, some, Text, codes, ◌==◌, text_eq, nat_eq,
}
use icloud_linux.Prelude.Int.{ℤ, clamp_i64, to_u64}
use icloud_linux.Path
use icloud_linux.Path.{IcPath, parent, file_name}
use icloud_linux.Drive.{NodeKind, Node, parse_kind, as_str, is_directory}
use mathlib.Core.Option.{map as map_option, get_or}

pub record Entry : Type 0 where
  pub path : IcPath
  pub kind : NodeKind
  pub parent_path : IcPath
  pub remote_drivewsid : Option Text
  pub remote_docwsid : Option Text
  pub remote_etag : Option Text
  pub remote_zone : Option Text
  pub remote_shareid : Option Text
  pub size : ℕ
  pub mtime : ℤ
  pub hydrated : Bool
  pub dirty : Bool
  pub tombstone : Bool
  pub local_sha256 : Option Text
  pub last_synced_at : Option ℤ
  pub synced_path : Option IcPath

-- A row of `entries`, as SQLite keeps it: `type` is the name of the kind.
pub record Row : Type 0 where
  pub path : Text
  pub type_ : Text
  pub parent_path : Text
  pub remote_drivewsid : Option Text
  pub remote_docwsid : Option Text
  pub remote_etag : Option Text
  pub remote_zone : Option Text
  pub remote_shareid : Option Text
  pub size : ℤ
  pub mtime : ℤ
  pub hydrated : Bool
  pub dirty : Bool
  pub tombstone : Bool
  pub local_sha256 : Option Text
  pub last_synced_at : Option ℤ
  pub synced_path : Option Text

-- `Entry::local`
unfoldable pub local : IcPath → NodeKind → ℤ → Entry
local path kind mtime = record {
  path = path;
  kind = kind;
  parent_path = parent path;
  remote_drivewsid = none;
  remote_docwsid = none;
  remote_etag = none;
  remote_zone = none;
  remote_shareid = none;
  size = 0;
  mtime = mtime;
  hydrated = true;
  dirty = true;
  tombstone = false;
  local_sha256 = none;
  last_synced_at = none;
  synced_path = none;
}

-- `Entry::from_remote`
unfoldable pub from_remote : IcPath → Node → Entry
from_remote path node = record {
  path = path;
  kind = node.kind;
  parent_path = parent path;
  remote_drivewsid = some node.drivewsid;
  remote_docwsid = node.docwsid;
  remote_etag = node.etag;
  remote_zone = node.zone;
  remote_shareid = node.share_id;
  size = node.size;
  mtime = node.modified;
  hydrated = is_directory node.kind || node.size == 0;
  dirty = false;
  tombstone = false;
  local_sha256 = none;
  last_synced_at = none;
  synced_path = some path;
}

-- The node that `Entry::node` builds for an entry with a remote identity.
abbrev pub node_with : Entry → Text → Node
node_with e drivewsid = record {
  drivewsid = drivewsid;
  docwsid = e.remote_docwsid;
  etag = e.remote_etag;
  zone = e.remote_zone;
  share_id = e.remote_shareid;
  name = get_or (file_name e.path) (codes "root");
  kind = e.kind;
  size = e.size;
  modified = e.mtime;
}

-- `Entry::node`
unfoldable pub node : Entry → Option Node
node e = map_option (node_with e) e.remote_drivewsid

-- `Entry::from_row`
unfoldable pub from_row : Row → Entry
from_row r = record {
  path = Path.new r.path;
  kind = parse_kind r.type_;
  parent_path = Path.new r.parent_path;
  remote_drivewsid = r.remote_drivewsid;
  remote_docwsid = r.remote_docwsid;
  remote_etag = r.remote_etag;
  remote_zone = r.remote_zone;
  remote_shareid = r.remote_shareid;
  size = to_u64 r.size;
  mtime = r.mtime;
  hydrated = r.hydrated;
  dirty = r.dirty;
  tombstone = r.tombstone;
  local_sha256 = r.local_sha256;
  last_synced_at = r.last_synced_at;
  synced_path = map_option Path.new r.synced_path;
}

-- The values that `upsert_entry` binds.
unfoldable pub to_row : Entry → Row
to_row e = record {
  path = e.path;
  type_ = as_str e.kind;
  parent_path = e.parent_path;
  remote_drivewsid = e.remote_drivewsid;
  remote_docwsid = e.remote_docwsid;
  remote_etag = e.remote_etag;
  remote_zone = e.remote_zone;
  remote_shareid = e.remote_shareid;
  size = clamp_i64 e.size;
  mtime = e.mtime;
  hydrated = e.hydrated;
  dirty = e.dirty;
  tombstone = e.tombstone;
  local_sha256 = e.local_sha256;
  last_synced_at = e.last_synced_at;
  synced_path = e.synced_path;
}
