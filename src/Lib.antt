-- ===== src/Lib.antt =====
-- icloud-linux: an iCloud Drive client for Linux. A daemon (crates/icloudd) mounts the Drive through
-- FUSE, keeps what it knows of it in a SQLite database and works off local changes in the
-- background; the core is in crates/icloud-core, the wire protocol in crates/icloud-api.
--
-- The parts, and the modules that model them:
--   Path: `IcPath` and `is_valid_name` of crates/icloud-core/src/path.rs. A path is its text, a list
--     of bytes. `components` and `render` (Path/Components/Pieces.antt) are the abstract view, a list of
--     names, and `IsNormal` says that a text is the rendering of its components. `subtree_bounds` is
--     read in Path/Bounds.antt the way SQLite reads it, by comparing bytes (collation BINARY).
--   Policy: `SyncPolicy` of crates/icloud-core/src/policy.rs, the sync boundary.
--   Inodes: `InodeTable` of crates/icloudd/src/inodes.rs, the numbers that the kernel holds for paths.
--     Its two hash maps are association lists with one pair per key. The counter is a u64 and wraps
--     around, which is written out; theorems on new numbers ask that the counter stays below 2 ^ 64.
--   Drive: the node types of crates/icloud-api/src/drive.rs.
--   State: `SyncState` of crates/icloud-core/src/state.rs. A database is a record of three lists of rows,
--     one per table. Each method is the statements that it sends, as functions on those lists
--     (State/Sql.antt): what SQLite does is taken from its documentation. A transaction that fails
--     because of a violated primary key returns `none`, and then the database is as it was. A method
--     that reads the clock takes the time as a parameter, and `rename_tree` the random markers.
--     Times and sizes are i64 in a row and u64 in an entry where the code converts between them.
--   Engine: of crates/icloud-core/src/engine, `KeyedLocks` and `DelayQueue` (sync_util.rs) and the
--     background downloads (download.rs). Threads are steps that may come in any order
--     (Engine/Locks.antt, Engine/Warmup/Once.antt), each one critical section; instants and durations
--     are nanoseconds and the clock is a parameter. In both, what `ensure_local_file` comes to is a parameter.
--     `hydrate` (Engine/Hydrate.antt, with as many attempts as the code, three), `ensure_local_file`
--     (Engine/Download.antt) and the upload, crates/icloud-core/src/engine/upload.rs (Engine/Upload.antt,
--     Engine/Pass.antt), are actions on a `Site`: the database, the disk, the cached root folder, the
--     flags and iCloud, which is the interface `Cloud`, one operation for each method of the trait
--     `Drive` of crates/icloud-api/src/drive.rs. What other threads do while a file is transferred is
--     the function `meanwhile`; a file's bytes are read before it acts. Each access of the disk and each
--     write of the database may fail, as the field `faults` of the `Site` says; a write that fails is
--     rolled back. The database can always be read, and the queued operations of a conflict's copies
--     are taken to be written. Actions on a `Site` are also the reconciliation
--     and the listing of folders, crates/icloud-core/src/engine/remote.rs (Engine/Remote.antt,
--     Engine/Listing.antt, a turn of the crawl in Engine/Crawl.antt); `tries` counts the names that
--     are looked at for a conflict copy (more than there are files, folders and entries are enough:
--     Engine/Remote/Names.antt).
--   Config: of crates/icloud-core/src/config.rs, the defaults and the validation.
--   Hydrate: the plans and the run of crates/icloud-core/src/hydrate.rs, over the database of State.
--     The read through the mount and the cancel flag are parameters.
--   Mirror: crates/icloud-core/src/mirror.rs, the local copy. Mirror/Files.antt models the calls of
--     `std::fs` that it makes: a disk maps the path of each file and folder to it, a folder's time is
--     that of its creation, and no call fails for want of space or permissions, unless `faults` says so.
--   Fs: crates/icloud-core/src/fs.rs, the operations of the mount. Fs.antt has the guards and
--     `open_as`, Fs/Ops.antt and its children each operation as an action that changes a `World`, a
--     database and a disk, and may fail with an `Errno` (Prelude/Exec.antt: what was done before a
--     failure stays done). The engine's `list_directory` and `hydrate` are operations of the record
--     `Host`. Fs/Hydrating.antt fills the second with the `hydrate` of Engine. The first is called only
--     where folders are listed on demand: it then takes over what iCloud says of a folder's entries,
--     inside `sync_paths` or not, so a theorem that some entries stay excludes that mode.
--   Adapter: of crates/icloudd/src/adapter.rs, the requests of the kernel as calls of Fs through Inodes.
--   Reader: of crates/icloud-core/src/reader.rs, which kind of program reads; `/proc` is the record `Proc`.
--   Status: crates/icloud-core/src/status.rs, the watcher of the daemon's log. Status/Log.antt has the
--     lines as `sync_event!` writes them (crates/icloud-core/src/engine/mod.rs) and as `parse_line` reads
--     them, in characters, Status/Monitor.antt the monitor, Status.antt the label in the bookmarks file.
--   Srp: crates/icloud-api/src/srp.rs, the SRP-6a client of the sign-in. The hash, the stretching of the
--     password and the big numbers are a record `Primitives`; what `num_bigint` documents of them is
--     the hypothesis `IsBigUint`. The server is described by the protocol (Srp/Agreement.antt).
--   TwoFactor: crates/icloud-api/src/twofactor.rs, what a sign-in page (TwoFactor/Page.antt) and the JSON in
--     it say of a two-factor challenge. A JSON value is of any type with the operations `Json`.
--   Session: of crates/icloud-api/src/session.rs and error.rs, which error an answer of iCloud is.
--   Setup: of crates/icloud-core/src/setup.rs, the texts of its files: the quoting for systemd and for the
--     shell, and the readers of `icloud.env` and of the octal escapes in the mount table.
--
-- How they interact: the rows of State are keyed by normal paths, and its subtree scans use the
-- bounds of Path; Policy and Inodes decide on paths with `is_within` and `rebase`;
-- Hydrate, Engine and Fs ask Policy which paths may be downloaded, and Hydrate and Fs read State.
--
-- Every function is a structural recursion, on its data or on a count. `hydrate` counts as the code
-- does; `sync_directory` counts the ancestors that it may climb, and a pass gives it one more than the
-- path is deep, which is enough (Engine/Upload/Depth.antt); `parse_fields` and
-- `parse_boot_args` count the characters of their text.
--
-- Not modelled: the network and the JSON of its requests, the encoding of the FUSE calls, what the setup does to files
-- and services, the installer and the command line, thumbnails, the start and stop of threads, the
-- opening and migration of the database, and, but for the writes of the engine, SQLite's errors other
-- than a violated key. A JSON value of an entry (its `shareID`) is kept as its serialised text: that
-- serde_json reads back what it writes is not part of the model. The disk keeps times in whole seconds.
pub mod Prelude
pub mod Errno
pub mod Path
pub mod Policy
pub mod Inodes
pub mod Drive
pub mod State
pub mod Config
pub mod Engine
pub mod Hydrate
pub mod Mirror
pub mod Fs
pub mod Status
pub mod Srp
pub mod TwoFactor
pub mod Setup
pub mod Session
pub mod Reader
pub mod Adapter
