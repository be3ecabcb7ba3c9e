-- ===== src/State.antt =====
-- crates/icloud-core/src/state.rs: the sync state database. A `Database` holds the three tables; a
-- method is a function of it that takes the time (`now()`) and the random markers it reads. A lock
-- guards the connection, so methods run one after the other. An error of SQLite other than a
-- violated key is not modelled.
pub mod Rows
pub mod Sql
mod Defs
pub mod Queries
pub mod Writes
pub mod Lookup
pub mod Trees
pub mod Queue
pub mod Listings
pub mod Entries
pub mod Pending
pub mod Burial
pub mod Subtree
pub mod Markers
pub mod Graves
pub mod Elsewhere
pub mod Dirty
pub mod Fetched
pub mod Outside
pub mod Keyed
pub mod Rekeyed
pub mod Relocation
pub mod Detached
mod Tests
unfoldable pub use Defs.*
