-- ===== src/S3/Object/Served.antt =====
-- src/s3/object.rs: on an intact server, reading an object neither panics nor fails for want of a
-- part. The steps from the request to the manifest.
use s3lite.Storage.Manifest.{Manifest}
use s3lite.Storage.Engine.{Engine}
use s3lite.S3.World.{World}
