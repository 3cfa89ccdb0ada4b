-- ===== src/Storage/Manifest.antt =====
-- src/storage/manifest.rs: the rows of the metadata database.
--
-- A `String` is its bytes, `OffsetDateTime` is the number of nanoseconds since the earliest date
-- that it can hold, a `BTreeMap<String, String>` is a list in ascending key order, and `u32` and
-- `u64` are natural numbers whose wrap or saturation is written out where it can happen.
pub mod Key
pub mod Etag
use s3lite.Common.{ℕ, zero, suc, ◌+◌, ◌*◌, ◌^◌, ◌%◌, ltb, Bool, true, false, Option, none, some}
use s3lite.Common.{List, [], ◌∷◌, ◌++◌, if◌then◌else◌}
use s3lite.Common.Order.{Bytes}

abbrev pub Time : Type 0
Time = ℕ

abbrev pub Hash : Type 0
Hash = Bytes

abbrev pub StringMap : Type 0
StringMap = List (Bytes × Bytes)

pub data ManifestState : Type 0 where
  in_progress committed aborted : ManifestState

pub data ManifestKind : Type 0 where
  object tombstone : ManifestKind

pub data UploadMode : Type 0 where
  single_put multipart : UploadMode

pub data ChecksumAlgorithm : Type 0 where
  crc32 crc32c sha1 sha256 : ChecksumAlgorithm

pub record AdditionalChecksum : Type 0 where
  pub algorithm : ChecksumAlgorithm
  pub value : Bytes

pub data LockMode : Type 0 where
  compliance : LockMode

pub record Retention : Type 0 where
  pub mode : LockMode
  pub retain_until : Time

pub record ObjectLock : Type 0 where
  pub retention : Option Retention
  pub legal_hold : Bool

retention_forbids : Option Retention → Time → Bool
retention_forbids (some r) now = ltb now r.retain_until
retention_forbids none now = false

unfoldable pub forbids_delete : ObjectLock → Time → Bool
unfolding retention_forbids
forbids_delete lock now = if lock.legal_hold then true else retention_forbids lock.retention now

pub record PartRef : Type 0 where
  pub part_number : ℕ
  pub hash : Hash
  pub md5 : Bytes
  pub size : ℕ

pub record ManifestKey : Type 0 where
  pub bucket : Bytes
  pub key : Bytes
  pub version_id : Bytes

-- `ManifestKey::encode`: the three names with a NUL byte between.
unfoldable pub encode : ManifestKey → Bytes
encode k = k.bucket ++ (0 ∷ (k.key ++ (0 ∷ k.version_id)))

pub record Manifest : Type 0 where
  pub key : ManifestKey
  pub state : ManifestState
  pub kind : ManifestKind
  pub upload_mode : UploadMode
  pub parts : List PartRef
  pub size : ℕ
  pub content_type : Option Bytes
  pub user_metadata : StringMap
  pub tags : StringMap
  pub additional_checksum : Option AdditionalChecksum
  pub storage_class : Bytes
  pub object_lock : Option ObjectLock
  pub created_at : Time
  pub last_modified : Time
  pub upload_id : Option Bytes

pub data VersioningState : Type 0 where
  off enabled suspended : VersioningState

pub data LifecycleStatus : Type 0 where
  disabled enabled : LifecycleStatus

pub record LifecycleExpiration : Type 0 where
  pub days : ℕ

pub record NoncurrentVersionExpiration : Type 0 where
  pub noncurrent_days : ℕ

pub record AbortIncompleteMultipart : Type 0 where
  pub days_after_initiation : ℕ

pub record LifecycleRule : Type 0 where
  pub id : Option Bytes
  pub status : LifecycleStatus
  pub filter_prefix : Option Bytes
  pub expiration : Option LifecycleExpiration
  pub noncurrent_version_expiration : Option NoncurrentVersionExpiration
  pub abort_incomplete_multipart_upload : Option AbortIncompleteMultipart

pub record DefaultRetention : Type 0 where
  pub mode : LockMode
  pub days : Option ℕ
  pub years : Option ℕ

pub record ObjectLockConfig : Type 0 where
  pub enabled : Bool
  pub default_retention : Option DefaultRetention

pub record CorsRule : Type 0 where
  pub id : Option Bytes
  pub allowed_origins : List Bytes
  pub allowed_methods : List Bytes
  pub allowed_headers : List Bytes
  pub expose_headers : List Bytes
  pub max_age_seconds : Option ℕ

pub record BucketConfig : Type 0 where
  pub created_at : Time
  pub versioning : VersioningState
  pub region : Bytes
  pub cors_rules : List CorsRule
  pub object_lock : Option ObjectLockConfig
  pub lifecycle_rules : List LifecycleRule

-- `BucketConfig::new`, with the clock's value.
abbrev pub new_bucket_config : Time → Bytes → BucketConfig
new_bucket_config now region = record {
  created_at = now;
  versioning = off;
  region = region;
  cors_rules = [];
  object_lock = none;
  lifecycle_rules = [];
}

pub data PartState : Type 0 where
  live gc_pending : PartState

pub record PartEntry : Type 0 where
  pub refcount : ℕ
  pub size : ℕ
  pub state : PartState
  pub created_at : Time

-- `DeletionEffect`
pub record DeletionEffect : Type 0 where
  pub freed_parts : List Hash
