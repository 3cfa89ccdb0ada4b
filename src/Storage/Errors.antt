-- ===== src/Storage/Errors.antt =====
-- src/storage/db/errors.rs: the errors of the metadata store. A message text is kept where the
-- code gives one by a value of the request; `hex::encode` of a hash is left as the hash.
use s3lite.Common.Order.{Bytes}
use s3lite.Storage.Manifest.{Hash, ManifestKey}

pub data MetaError : Type 0 where
  redb bincode_encode bincode_decode io actor_spawn : Bytes → MetaError
  actor_died : MetaError
  bucket_exists bucket_not_found bucket_not_empty : Bytes → MetaError
  manifest_not_found : ManifestKey → MetaError
  part_gc_pending part_not_found : Hash → MetaError
  upload_not_in_progress : ManifestKey → MetaError
