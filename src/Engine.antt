-- ===== src/Engine.antt =====
-- The engine, crates/icloud-core/src/engine: what its threads share, and when downloads are retried.
pub mod Locks
pub mod Queue
pub mod Retry
pub mod Hydrate
pub mod Warmup
pub mod Site
pub mod Download
pub mod Upload
pub mod Pass
pub mod Remote
pub mod Listing
pub mod Crawl
pub mod Samples
mod Tests
