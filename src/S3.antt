-- ===== src/S3.antt =====
-- src/s3 and src/http: what the server does with a request before and after the store.
mod Error
mod Text
mod Percent
mod World
mod Collect
mod Checksum
mod Addressing
mod Lock
mod Tests
pub mod Request
pub mod Object
pub mod Maintenance
pub mod Multipart
pub mod Copy
pub mod Tagging
