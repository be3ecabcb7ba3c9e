-- ===== src/Path.antt =====
-- crates/icloud-core/src/path.rs: paths inside iCloud Drive. `IcPath` is a newtype of `String`;
-- the model keeps the bytes. The operations are in `Path/Defs.antt`; what a path means is in
-- `Path/Components.antt`.
mod Defs
pub mod Str
pub mod Components
pub mod Moves
pub mod Steps
pub mod Within
pub mod Order
pub mod Rebase
pub mod Bounds
pub mod Samples
mod Tests
unfoldable pub use Defs.*
