-- ===== src/Drive.antt =====
-- crates/icloud-api/src/drive.rs: the node model. A `serde_json::Value` that the code only passes on
-- (`share_id`) is kept as the text it serialises to.
pub mod Kinds
use icloud_linux.Prelude.{
  ℕ, ◌+◌, Bool, true, false, ◌&&◌, Option, none, some, Text, codes, map, leb, ◌==◌, text_eq,
  if◌then◌else◌,
}
use icloud_linux.Prelude.Int.{ℤ, pos}

pub data NodeKind : Type 0 where
  file folder app_library other : NodeKind

-- `to_ascii_lowercase`, byte by byte.
abbrev pub to_lower : ℕ → ℕ
to_lower c = if leb b'A' c && leb c b'Z' then c + 32 else c

-- `NodeKind::parse`
unfoldable pub parse_kind : Text → NodeKind
parse_kind raw =
    let lower = map to_lower raw in
    if lower == codes "file"
    then file
    else if lower == codes "folder"
    then folder
    else if lower == codes "app_library"
    then app_library
    else other

-- `NodeKind::as_str`
abbrev pub as_str : NodeKind → Text
as_str file = codes "file"
as_str folder = codes "folder"
as_str app_library = codes "app_library"
as_str other = codes "unknown"

abbrev pub is_directory : NodeKind → Bool
is_directory folder = true
is_directory app_library = true
is_directory _ = false

pub record Node : Type 0 where
  pub drivewsid : Text
  pub docwsid : Option Text
  pub etag : Option Text
  pub zone : Option Text
  pub share_id : Option Text
  pub name : Text
  pub kind : NodeKind
  pub size : ℕ
  pub modified : ℤ

abbrev pub root_drivewsid : Text
root_drivewsid = codes "FOLDER::com.apple.CloudDocs::root"

abbrev pub cloud_docs_zone : Text
cloud_docs_zone = codes "com.apple.CloudDocs"

-- `Node::root`
unfoldable pub root_node : Node
root_node = record {
  drivewsid = root_drivewsid;
  docwsid = none;
  etag = none;
  zone = some cloud_docs_zone;
  share_id = none;
  name = codes "root";
  kind = folder;
  size = 0;
  modified = pos 0;
}
