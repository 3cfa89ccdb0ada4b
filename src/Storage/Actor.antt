-- ===== src/Storage/Actor.antt =====
-- src/storage/db/actor.rs: the thread that owns the database.
pub mod Tx
pub mod Parts
pub mod Manifests
pub mod Multipart
pub mod Release
pub mod Invariant
pub mod Scan
pub mod Buckets
pub mod Listing
pub mod Versions
pub mod Ops
pub mod Samples
mod Tests
