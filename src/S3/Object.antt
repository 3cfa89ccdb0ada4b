-- ===== src/S3/Object.antt =====
-- src/s3/object.rs: what the operations on objects share. A handler runs without another request in
-- between; what it returns stands beside the state that it leaves.
pub mod Put
pub mod Get
pub mod Delete
pub mod Intact
pub mod Rows
pub mod Stored
pub mod Fetched
pub mod RoundTrip
pub mod Safe
pub mod Served
pub mod Removed
pub mod Locked
use s3lite.Common.{
  Bool, true, false, Option, none, some, List, [], ◌∷◌, ◌++◌, Result, ok, err, ◌>>=◌, ok_or,
}
use s3lite.Common.Order.{Bytes}
use s3lite.Common.Text.{bytes}
use s3lite.Storage.Manifest.{
  Time, ManifestKey, Manifest, BucketConfig, VersioningState, off, enabled, suspended, committed,
  tombstone, single_put, DeletionEffect,
}
use s3lite.Storage.Errors.{MetaError}
use s3lite.Storage.Engine.{Engine, Db}
use s3lite.Storage.Actor.Buckets.{handle_get_bucket}
use s3lite.Storage.Actor.Manifests.{handle_put_manifest, handle_delete_manifest}
use s3lite.S3.Error.{S3Error, new_error, with_resource, no_such_bucket, no_such_key}
use s3lite.S3.Lock.{Formats, map_err, map_meta_err, bucket_resource, object_resource}
use s3lite.S3.World.{External, ObjectEvent, World, Fault}
use s3lite.S3.Collect.{gc_freed_parts}

-- What a handler gets from outside: a fresh `Uuid::new_v4().simple()`, the clock for a default
-- lock, the clock for the manifest, and the clock of the actor.
pub record Moment : Type 0 where
  pub uuid : Bytes
  pub lock_now : Time
  pub now : Time
  pub actor_now : Time

-- `NULL_VERSION_ID`
abbrev pub null_version_id : Bytes
null_version_id = bytes "null"

-- `next_version_id`
unfoldable pub next_version_id : VersioningState → Bytes → Bytes
next_version_id enabled uuid = uuid
next_version_id off uuid = null_version_id
next_version_id suspended uuid = null_version_id

-- `matches!(versioning, VersioningState::Enabled).then(..)`
abbrev pub if_enabled : VersioningState → Bytes → Option Bytes
if_enabled enabled version_id = some version_id
if_enabled off version_id = none
if_enabled suspended version_id = none

abbrev pub key_of : Bytes → Bytes → Bytes → ManifestKey
key_of bucket key version_id = record { bucket = bucket; key = key; version_id = version_id }

-- `no_such_key`
abbrev pub no_such_key_error : Bytes → Bytes → S3Error
no_such_key_error bucket key =
    with_resource (new_error no_such_key (bytes "key does not exist")) (object_resource bucket key)

-- The delete marker of `delete_object`, `expire_current` of src/s3/maintenance.rs included.
abbrev pub tombstone_at : ManifestKey → Time → Manifest
tombstone_at key now = record {
  key = key;
  state = committed;
  kind = tombstone;
  upload_mode = single_put;
  parts = [];
  size = 0;
  content_type = none;
  user_metadata = [];
  tags = [];
  additional_checksum = none;
  storage_class = bytes "STANDARD";
  object_lock = none;
  created_at = now;
  last_modified = now;
  upload_id = none;
}

-- A handler's result beside its state: the error ends the handler there.
abbrev pub and_then {ℓ κ} :
    {T : Type ℓ} {U : Type κ} {W : Type 0}
    → Result S3Error T
    → W
    → (T → Result Fault U × W)
    → Result Fault U × W
and_then (err y) w go_on = (err (Fault.s3_error y), w)
and_then (ok t) w go_on = go_on t

-- The same for a result that may be a panic.
abbrev pub and_go {ℓ κ} :
    {T : Type ℓ} {U : Type κ} {W : Type 0}
    → Result Fault T
    → W
    → (T → Result Fault U × W)
    → Result Fault U × W
and_go (err y) w go_on = (err y, w)
and_go (ok t) w go_on = go_on t

module _ (e : Engine) where
  -- `emit`, as the events in order
  abbrev pub emit : World e → ObjectEvent → World e
  emit w event = record w { emitted = w.emitted ++ event ∷ [] }

  abbrev pub collected :
      World e → Result MetaError DeletionEffect × Db e → Result MetaError (Unit {0}) × World e
  collected w (err y, db) = (err y, record w { db = db })
  collected w (ok effect, db) = (ok tt, gc_freed_parts e (record w { db = db }) effect.freed_parts)

  -- `put_manifest`, and `gc_freed_parts` of its effect
  unfoldable pub put_row : World e → Manifest → Time → Result MetaError (Unit {0}) × World e
  put_row w m now = collected w (handle_put_manifest e w.db m now)

  -- `delete_manifest`, and `gc_freed_parts` of its effect
  unfoldable pub delete_row : World e → ManifestKey → Result MetaError (Unit {0}) × World e
  delete_row w key = collected w (handle_delete_manifest e w.db key)

  -- `require_bucket`
  unfoldable pub require_bucket : Formats → Db e → Bytes → Result S3Error BucketConfig
  require_bucket f db bucket = do
    found ← map_err (map_meta_err f) (handle_get_bucket e db bucket)
    ok_or found (
        with_resource (new_error no_such_bucket (bytes "bucket does not exist"))
          (bucket_resource bucket))
