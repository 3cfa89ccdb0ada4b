-- ===== src/Storage.antt =====
-- src/storage: the metadata store behind the server.
pub mod Manifest
pub mod Engine
pub mod PartStore
pub mod Errors
pub mod Actor
