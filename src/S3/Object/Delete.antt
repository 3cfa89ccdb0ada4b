-- ===== src/S3/Object/Delete.antt =====
-- src/s3/object.rs: `delete_object` and `delete_specific_version`.
use s3lite.Common.{Bool, true, false, Option, none, some, [], Result, ok, err, if◌then◌else◌}
use s3lite.Common.Order.{Bytes}
use s3lite.Common.Text.{bytes}
use s3lite.Storage.Manifest.{
  Time, Manifest, object, tombstone, VersioningState, off, enabled, suspended, forbids_delete,
}
use s3lite.Storage.Errors.{MetaError, manifest_not_found}
use s3lite.Storage.Engine.{Engine}
use s3lite.Storage.Actor.Manifests.{handle_get_manifest}
use s3lite.S3.Error.{S3Error, new_error, with_resource, access_forbidden}
use s3lite.S3.Lock.{map_err, map_meta_err, object_resource}
use s3lite.S3.World.{
  Headers, External, EventType, object_removed_delete, object_removed_delete_marker_created,
  ObjectEvent, World, Fault, Response, plain_response, set_header,
}
use s3lite.S3.Object.{
  Moment, null_version_id, next_version_id, if_enabled, key_of, tombstone_at, and_then, emit,
  put_row, delete_row, require_bucket,
}

-- `matches!(maybe.as_ref().map(|m| m.kind), Some(ManifestKind::Tombstone))`
abbrev pub is_delete_marker : Option Manifest → Bool
is_delete_marker none = false
is_delete_marker (some m) = elim m.kind [ object ↦ false | tombstone ↦ true ]

-- The lock of a row forbids its removal.
abbrev pub is_locked : Option Manifest → Time → Bool
is_locked none now = false
is_locked (some m) now = elim m.object_lock [ none ↦ false | some lock ↦ forbids_delete lock now ]

abbrev pub locked_error : Bytes → Bytes → S3Error
locked_error bucket key =
    with_resource (new_error access_forbidden (bytes "object is locked by retention or legal hold"))
      (object_resource bucket key)

-- `ObjectEvent` of a removal.
abbrev removal : EventType → Bytes → Bytes → Option Bytes → ObjectEvent
removal event_type bucket key version_id = record {
  event_type = event_type;
  bucket = bucket;
  key = key;
  size = 0;
  etag = [];
  version_id = version_id;
}

module _ (e : Engine) (x : External) where
  abbrev gone : Bytes → Headers → Response
  gone version_id h = record (plain_response 204) {
    headers = set_header x (bytes "x-amz-version-id") version_id h;
  }

  abbrev set_marker : Bool → Response → Response
  set_marker false r = r
  set_marker true r = record r {
    headers = set_header x (bytes "x-amz-delete-marker") (bytes "true") r.headers;
  }

  abbrev pub finish_version :
      Bytes → Bool → Result MetaError (Unit {0}) × World e → Result Fault Response × World e
  finish_version version_id marker (ok u, w) = (ok (set_marker marker (gone version_id [])), w)
  finish_version version_id marker (err (manifest_not_found k), w) = (ok (gone version_id []), w)
  finish_version version_id marker (err y, w) = (err (Fault.s3_error (map_meta_err x.formats y)), w)

  -- `delete_specific_version`; `now` is its reading of the clock.
  unfoldable pub delete_specific_version :
      World e → Bytes → Bytes → Bytes → Time → Result Fault Response × World e
  delete_specific_version w bucket key version_id now =
      let target = key_of bucket key version_id in
      and_then (map_err (map_meta_err x.formats) (handle_get_manifest e w.db target)) w (λ maybe.
        if is_locked maybe now
        then (err (Fault.s3_error (locked_error bucket key)), w)
        else finish_version version_id (is_delete_marker maybe) (delete_row e w target))

  abbrev pub finish_unversioned :
      Bytes → Bytes → Result MetaError (Unit {0}) × World e → Result Fault Response × World e
  finish_unversioned bucket key (ok u, w) =
      (ok (plain_response 204), emit e w (removal object_removed_delete bucket key none))
  finish_unversioned bucket key (err (manifest_not_found k), w) = (ok (plain_response 204), w)
  finish_unversioned bucket key (err y, w) = (err (Fault.s3_error (map_meta_err x.formats y)), w)

  -- The branch of `VersioningState::Off`, the check of the lock included.
  unfoldable pub delete_unversioned :
      World e → Bytes → Bytes → Time → Result Fault Response × World e
  delete_unversioned w bucket key now =
      let target = key_of bucket key null_version_id in
      and_then (map_err (map_meta_err x.formats) (handle_get_manifest e w.db target)) w (λ current.
        if is_locked current now
        then (err (Fault.s3_error (locked_error bucket key)), w)
        else finish_unversioned bucket key (delete_row e w target))

  abbrev set_version : Option Bytes → Response → Response
  set_version none r = r
  set_version (some v) r = record r {
    headers = set_header x (bytes "x-amz-version-id") v r.headers;
  }

  abbrev pub finish_marker :
      VersioningState
      → Bytes
      → Bytes
      → Bytes
      → Result MetaError (Unit {0}) × World e
      → Result Fault Response × World e
  finish_marker versioning bucket key version (err y, w) =
      (err (Fault.s3_error (map_meta_err x.formats y)), w)
  finish_marker versioning bucket key version (ok u, w) = (
    ok (set_version (if_enabled versioning version) (set_marker true (plain_response 204))),
    emit e w
        (removal object_removed_delete_marker_created bucket key (if_enabled versioning version)),
  )

  -- The branch of the other states: a delete marker.
  unfoldable pub insert_marker :
      World e → VersioningState → Bytes → Bytes → Moment → Result Fault Response × World e
  insert_marker w versioning bucket key moment =
      let version = next_version_id versioning moment.uuid in
      let marker = tombstone_at (key_of bucket key version) moment.now in
      finish_marker versioning bucket key version (put_row e w marker moment.actor_now)

  abbrev pub delete_current :
      World e → VersioningState → Bytes → Bytes → Moment → Result Fault Response × World e
  delete_current w off bucket key moment = delete_unversioned w bucket key moment.lock_now
  delete_current w enabled bucket key moment = insert_marker w enabled bucket key moment
  delete_current w suspended bucket key moment = insert_marker w suspended bucket key moment

  abbrev pub delete_in :
      World e
      → VersioningState
      → Bytes
      → Bytes
      → Option Bytes
      → Moment
      → Result Fault Response × World e
  delete_in w versioning bucket key (some vid) moment =
      delete_specific_version w bucket key vid moment.lock_now
  delete_in w versioning bucket key none moment = delete_current w versioning bucket key moment

  -- `delete_object`
  unfoldable pub delete_object :
      World e → Bytes → Bytes → Option Bytes → Moment → Result Fault Response × World e
  delete_object w bucket key version_id moment =
      and_then (require_bucket e x.formats w.db bucket) w
        (λ cfg. delete_in w cfg.versioning bucket key version_id moment)
