-- ===== src/Fs.antt =====
-- crates/icloud-core/src/fs.rs: who may open a file, when opening one downloads it, and what may be
-- changed. The operations themselves are in Fs/Ops.antt.
pub mod Access
pub mod World
pub mod Hydrating
pub mod Ops
mod Tests
use icloud_linux.Prelude.{
  ℕ, ◌+◌, Bool, true, false, not, ◌&&◌, ◌||◌, List, [], ◌∷◌, Option, none, some, Text, codes, leb,
  ◌==◌, nat_eq, text_eq, if◌then◌else◌,
}
use icloud_linux.Path.{IcPath, is_root, parent, file_name, is_valid_name}
use icloud_linux.Policy.{SyncPolicy, allows}
use icloud_linux.Drive.{is_directory}
use icloud_linux.Errno.{Errno, noent, rofs, access, isdir, io, nametoolong, inval}
use icloud_linux.Mirror.{is_reserved}
use icloud_linux.State.Rows.{Entry}
use icloud_linux.State.{Database}
use icloud_linux.State.Queries.{get_entry}

-- Of crates/icloud-core/src/reader.rs.
pub data Reader : Type 0 where
  person : Reader
  preview : Reader
  indexer : Reader

-- `signed_in` says that there is an engine.
pub record FsCore : Type 0 where
  pub state : Database
  pub policy : SyncPolicy
  pub signed_in : Bool
  pub read_only : Bool
  pub preview_max_bytes : ℕ

-- What opening comes to: an error, success, or the call of `hydrate`.
pub data Opened : Type 0 where
  refused : Errno → Opened
  granted : Opened
  downloads : Opened

-- `none` is `Ok(())`.
unfoldable pub check_paths : SyncPolicy → List IcPath → Option Errno
check_paths policy [] = none
check_paths policy (path ∷ paths) =
    let rest = check_paths policy paths in
    if is_reserved path then some access else if not (allows policy path) then some access else rest

unfoldable pub check_mutation : FsCore → List IcPath → Option Errno
check_mutation fs paths =
    if fs.read_only
    then some rofs
    else if not fs.signed_in
    then some access
    else check_paths fs.policy paths

unfoldable pub check_name : IcPath → Option Errno
check_name path = elim (file_name path) [
  | none ↦ some inval
  | some name ↦ if is_valid_name name then none else some nametoolong
]

unfoldable pub live_entry : FsCore → IcPath → Option Entry
live_entry fs path = elim (get_entry fs.state path) [
  | none ↦ none
  | some e ↦ if not e.tombstone then some e else none
]

abbrev pub may_download : FsCore → Reader → Entry → Bool
may_download fs person e = true
may_download fs preview e = leb e.size fs.preview_max_bytes
may_download fs indexer e = false

abbrev pub is_remote : Entry → Bool
is_remote e = elim e.remote_drivewsid [ none ↦ false | some id ↦ true ]

unfoldable pub ensure_content : FsCore → IcPath → Entry → Reader → Opened
ensure_content fs path e who =
    if e.hydrated || not (is_remote e)
    then granted
    else if not (may_download fs who e)
    then refused access
    else if not fs.signed_in
    then refused io
    else if not (allows fs.policy path)
    then refused access
    else downloads

unfoldable pub open_as : FsCore → IcPath → Bool → Reader → Opened
open_as fs path for_write who =
    if is_reserved path
    then refused noent
    else elim (if for_write then check_mutation fs (path ∷ []) else none) [
      | some err ↦ refused err
      | none ↦ elim (live_entry fs path) [
        | none ↦ refused noent
        | some e ↦ if is_directory e.kind then refused isdir else ensure_content fs path e who
      ]
    ]
