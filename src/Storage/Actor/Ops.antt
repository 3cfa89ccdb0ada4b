-- ===== src/Storage/Actor/Ops.antt =====
-- src/storage/db/actor.rs: the messages of the actor and its loop. The thread takes one message
-- at a time, so a run is a sequence of whole transactions.
pub mod Invariant
pub mod Keyed
use s3lite.Common.{ℕ, Bool, Option, some, none, List, [], ◌∷◌, Result, ok, err}
use s3lite.Common.Order.{Bytes}
use s3lite.Storage.Manifest.{
  Hash, Time, StringMap, ManifestState, ObjectLock, PartRef, ManifestKey, Manifest, VersioningState,
  LifecycleRule, ObjectLockConfig, CorsRule, BucketConfig, PartEntry, DeletionEffect,
}
use s3lite.Storage.Errors.{MetaError}
use s3lite.Storage.Engine.{Engine, Db}
use s3lite.Storage.Actor.Parts.{
  handle_get_part, handle_mark_gc_pending, handle_remove_part, handle_list_gc_pending,
  handle_list_orphan_parts,
}
use s3lite.Storage.Actor.Manifests.{
  handle_put_manifest, handle_get_manifest, handle_delete_manifest, handle_update_state,
  handle_update_manifest_tags, handle_update_manifest_lock, handle_append_part,
}
use s3lite.Storage.Actor.Multipart.{handle_complete_multipart}
use s3lite.Storage.Actor.Scan.{handle_get_latest_version, handle_list_all_manifests_in_bucket}
use s3lite.Storage.Actor.Buckets.{
  handle_create_bucket, handle_get_bucket, handle_delete_bucket, handle_list_buckets,
  handle_update_bucket_versioning, handle_update_bucket_cors, handle_update_bucket_object_lock,
  handle_update_bucket_lifecycle, handle_insert_dlq, handle_list_dlq,
}
use s3lite.Storage.Actor.Listing.{ListObjectsRequest, ListObjectsPage, handle_list_objects}
use s3lite.Storage.Actor.Versions.{ListObjectVersionsPage, handle_list_object_versions}

-- A message, without its reply channel.
pub data Op : Type 0 where
  create_bucket : Bytes → BucketConfig → Op
  get_bucket : Bytes → Op
  delete_bucket : Bytes → Op
  list_buckets : Op
  put_manifest : Manifest → Op
  get_manifest : ManifestKey → Op
  delete_manifest : ManifestKey → Op
  update_manifest_state : ManifestKey → ManifestState → Op
  append_part : ManifestKey → PartRef → Op
  get_part : Hash → Op
  mark_part_gc_pending : Hash → Op
  remove_part : Hash → Op
  list_gc_pending_parts : Op
  list_objects : ListObjectsRequest → Op
  complete_multipart_upload : ManifestKey → Manifest → Op
  get_latest_version : Bytes → Bytes → Op
  update_bucket_versioning : Bytes → VersioningState → Op
  list_object_versions : ListObjectsRequest → Op
  update_bucket_cors : Bytes → List CorsRule → Op
  update_manifest_tags : ManifestKey → StringMap → Op
  update_bucket_object_lock : Bytes → Option ObjectLockConfig → Op
  update_manifest_lock : ManifestKey → Option ObjectLock → Op
  update_bucket_lifecycle : Bytes → List LifecycleRule → Op
  list_all_manifests_in_bucket : Bytes → Op
  list_orphan_parts : Op
  insert_dlq_entry : Bytes → Op
  list_dlq : Op
  shutdown : Op

-- What is sent on the reply channel of a message.
pub data Reply : Type 0 where
  done : Result MetaError (Unit {0}) → Reply
  bucket : Result MetaError (Option BucketConfig) → Reply
  buckets : Result MetaError (List (Bytes × BucketConfig)) → Reply
  effect : Result MetaError DeletionEffect → Reply
  manifest : Result MetaError (Option Manifest) → Reply
  manifests : Result MetaError (List Manifest) → Reply
  part : Result MetaError (Option PartEntry) → Reply
  marked : Result MetaError Bool → Reply
  hashes : Result MetaError (List Hash) → Reply
  page : Result MetaError ListObjectsPage → Reply
  versions : Result MetaError ListObjectVersionsPage → Reply
  dlq_id : Result MetaError ℕ → Reply
  dlq : Result MetaError (List (ℕ × Bytes)) → Reply
  none_sent : Reply

-- A message, with what the clock shows when its handler reads it first and again.
pub record Message : Type 0 where
  pub op : Op
  pub now : Time
  pub later : Time

-- A handler's result on the reply channel, beside the database.
abbrev reply_of : {A D : Type 0} → (A → Reply) → A × D → Reply × D
reply_of reply (a, db) = (reply a, db)

abbrev pub is_shutdown : Op → Bool
is_shutdown shutdown = Bool.true
is_shutdown _ = Bool.false

module _ (e : Engine) where
  -- One arm of the `match` in `run`.
  unfoldable pub answer : Db e → Op → Time → Time → Reply × Db e
  answer db (create_bucket name config) now later =
      reply_of done (handle_create_bucket e db name config)
  answer db (get_bucket name) now later = (bucket (handle_get_bucket e db name), db)
  answer db (delete_bucket name) now later = reply_of done (handle_delete_bucket e db name)
  answer db list_buckets now later = (buckets (handle_list_buckets e db), db)
  answer db (put_manifest m) now later = reply_of effect (handle_put_manifest e db m now)
  answer db (get_manifest key) now later = (manifest (handle_get_manifest e db key), db)
  answer db (delete_manifest key) now later = reply_of effect (handle_delete_manifest e db key)
  answer db (update_manifest_state key new_state) now later =
      reply_of done (handle_update_state e db key new_state now)
  answer db (append_part key p) now later =
      reply_of effect (handle_append_part e db key p now later)
  answer db (get_part hash) now later = (part (handle_get_part e db hash), db)
  answer db (mark_part_gc_pending hash) now later =
      reply_of marked (handle_mark_gc_pending e db hash)
  answer db (remove_part hash) now later = reply_of done (handle_remove_part e db hash)
  answer db list_gc_pending_parts now later = (hashes (handle_list_gc_pending e db), db)
  answer db (list_objects req) now later = (page (handle_list_objects e db req), db)
  answer db (complete_multipart_upload key m) now later =
      reply_of effect (handle_complete_multipart e db key m now)
  answer db (get_latest_version b key) now later =
      (manifest (handle_get_latest_version e db b key), db)
  answer db (update_bucket_versioning name new_state) now later =
      reply_of done (handle_update_bucket_versioning e db name new_state)
  answer db (list_object_versions req) now later =
      (versions (handle_list_object_versions e db req), db)
  answer db (update_bucket_cors name rules) now later =
      reply_of done (handle_update_bucket_cors e db name rules)
  answer db (update_manifest_tags key tags) now later =
      reply_of done (handle_update_manifest_tags e db key tags)
  answer db (update_bucket_object_lock name cfg) now later =
      reply_of done (handle_update_bucket_object_lock e db name cfg)
  answer db (update_manifest_lock key lock) now later =
      reply_of done (handle_update_manifest_lock e db key lock)
  answer db (update_bucket_lifecycle name rules) now later =
      reply_of done (handle_update_bucket_lifecycle e db name rules)
  answer db (list_all_manifests_in_bucket b) now later =
      (manifests (handle_list_all_manifests_in_bucket e db b), db)
  answer db list_orphan_parts now later = (hashes (handle_list_orphan_parts e db), db)
  answer db (insert_dlq_entry entry) now later = reply_of dlq_id (handle_insert_dlq e db entry)
  answer db list_dlq now later = (dlq (handle_list_dlq e db), db)
  answer db shutdown now later = (none_sent, db)

  -- `while let Some(op) = receiver.blocking_recv()`, over the messages that arrive until the channel
  -- closes: the database that is left. `Shutdown` ends the loop.
  unfoldable pub run : Db e → List Message → Db e
  unfolding answer
  run db [] = db
  run db (msg ∷ messages) = elim (is_shutdown msg.op) [
    | Bool.true ↦ db
    | Bool.false ↦ run (answer db msg.op msg.now msg.later).1 messages
  ]
