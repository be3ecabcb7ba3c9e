-- ===== src/Path/Components.antt =====
-- What an `IcPath` means: the list of its components. A path is normal if it is the rendering of
-- components that are not empty, not `.` or `..`, and hold no `/`.
mod Pieces
pub mod Normal
unfoldable pub use Pieces.*
pub use Normal.*
