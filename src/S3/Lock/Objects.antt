-- ===== src/S3/Lock/Objects.antt =====
-- src/s3/lock.rs: the handlers of one object version's retention and legal hold.
use s3lite.Common.{
  Bool, true, false, Option, none, some, List, [], Result, ok, err, ◌>>=◌, ok_or, if◌then◌else◌,
}
use s3lite.Common.Order.{Bytes}
use s3lite.Common.Text.{bytes}
use s3lite.Storage.Manifest.{Retention, ObjectLock, Manifest, ManifestKey}
use s3lite.Storage.Errors.{MetaError}
use s3lite.Storage.Engine.{Engine, Db}
use s3lite.Storage.Actor.Manifests.{handle_get_manifest, handle_update_manifest_lock}
use s3lite.Storage.Actor.Scan.{handle_get_latest_version}
use s3lite.Storage.Actor.Ops.{Message, run}
use s3lite.S3.Error.{
  S3Error, new_error, with_resource, invalid_request, invalid_argument, no_such_key,
  access_forbidden,
}
use s3lite.S3.Lock.{
  Formats, LockResponse, retention_body, legal_hold_body, object_resource, malformed, quoted,
  is_text, parse_mode, mode_to_str, held, retention_of, shortens, current_object, map_err,
  answer_ok, map_meta_err,
}

-- `.map(..).unwrap_or("OFF")`
abbrev status_text : Option ObjectLock → Bytes
status_text none = bytes "OFF"
status_text (some lock) = if lock.legal_hold then bytes "ON" else bytes "OFF"

-- `format(..).unwrap_or_default()`
abbrev or_empty : Option Bytes → Bytes
or_empty none = []
or_empty (some text) = text

module _ (e : Engine) (f : Formats) where
  -- `get_manifest` of a version, or `get_latest_version`.
  unfoldable pub find_version :
      Db e → Bytes → Bytes → Option Bytes → Result MetaError (Option Manifest)
  find_version db bucket key (some version_id) =
      handle_get_manifest e db (record { bucket = bucket; key = key; version_id = version_id })
  find_version db bucket key none = handle_get_latest_version e db bucket key

  unfoldable pub require_object_with_version :
      Db e → Bytes → Bytes → Option Bytes → Result S3Error Manifest
  require_object_with_version db bucket key version_id = do
    result ← map_err (map_meta_err f) (find_version db bucket key version_id)
    ok_or (current_object result) (
        with_resource (new_error no_such_key (bytes "key does not exist"))
          (object_resource bucket key))

  -- The lock that the body asks for.
  unfoldable pub requested_retention : Bytes → Bytes → Bytes → Result S3Error Retention
  requested_retention bucket key body = do
    xml ←
        map_err (malformed f (bytes "Retention") (object_resource bucket key))
          (f.read_retention body)
    mode ← parse_mode (some xml.mode)
    retain_until ← ok_or (f.parse_date xml.retain_until_date) (
        with_resource (new_error invalid_request (bytes "RetainUntilDate must be ISO 8601"))
          (object_resource bucket key))
    ok (record { mode = mode; retain_until = retain_until })

  -- What `put_object_retention` decides before it writes: the row's key and its new lock.
  unfoldable pub retention_plan :
      Db e → Bytes → Bytes → Option Bytes → Bytes → Result S3Error (ManifestKey × ObjectLock)
  retention_plan db bucket key version_id body = do
    retention ← requested_retention bucket key body
    manifest ← require_object_with_version db bucket key version_id
    if shortens (retention_of manifest.object_lock) retention.retain_until
        then err (
            with_resource
              (new_error access_forbidden (bytes "Compliance retention period cannot be shortened"))
              (object_resource bucket key))
        else ok (
          manifest.key,
          record { retention = some retention; legal_hold = held manifest.object_lock },
        )

  -- The write of a plan, after the messages that the actor answers in between.
  unfoldable pub write_lock :
      Db e
      → List Message
      → Result S3Error (ManifestKey × ObjectLock)
      → Result S3Error LockResponse × Db e
  write_lock db between (err x) = (err x, db)
  write_lock db between (ok (key, lock)) =
      answer_ok (map_meta_err f) (handle_update_manifest_lock e (run e db between) key (some lock))

  -- `put_object_retention`
  unfoldable pub put_object_retention :
      Db e
      → List Message
      → Bytes
      → Bytes
      → Option Bytes
      → Bytes
      → Result S3Error LockResponse × Db e
  put_object_retention db between bucket key version_id body =
      write_lock db between (retention_plan db bucket key version_id body)

  -- `get_object_retention`
  unfoldable pub get_object_retention :
      Db e → Bytes → Bytes → Option Bytes → Result S3Error LockResponse
  get_object_retention db bucket key version_id = do
    manifest ← require_object_with_version db bucket key version_id
    retention ← ok_or (retention_of manifest.object_lock) (
        with_resource (new_error invalid_request (bytes "no retention configured for this object"))
          (object_resource bucket key))
    ok (
        retention_body (record {
          mode = mode_to_str retention.mode;
          retain_until_date = or_empty (f.format_date retention.retain_until);
        }))

  -- The status of the body of `put_object_legal_hold`.
  unfoldable pub parse_hold : Bytes → Bytes → Bytes → Result S3Error Bool
  parse_hold bucket key status =
      if is_text status (bytes "ON")
      then ok true
      else if is_text status (bytes "OFF")
      then ok false
      else err (
          with_resource
            (new_error invalid_argument (quoted (bytes "invalid LegalHold Status ") status))
            (object_resource bucket key))

  unfoldable pub hold_plan :
      Db e → Bytes → Bytes → Option Bytes → Bytes → Result S3Error (ManifestKey × ObjectLock)
  hold_plan db bucket key version_id body = do
    xml ←
        map_err (malformed f (bytes "LegalHold") (object_resource bucket key))
          (f.read_legal_hold body)
    on ← parse_hold bucket key xml.status
    manifest ← require_object_with_version db bucket key version_id
    ok (manifest.key, record { retention = retention_of manifest.object_lock; legal_hold = on })

  -- `put_object_legal_hold`
  unfoldable pub put_object_legal_hold :
      Db e
      → List Message
      → Bytes
      → Bytes
      → Option Bytes
      → Bytes
      → Result S3Error LockResponse × Db e
  put_object_legal_hold db between bucket key version_id body =
      write_lock db between (hold_plan db bucket key version_id body)

  -- `get_object_legal_hold`
  unfoldable pub get_object_legal_hold :
      Db e → Bytes → Bytes → Option Bytes → Result S3Error LockResponse
  get_object_legal_hold db bucket key version_id = do
    manifest ← require_object_with_version db bucket key version_id
    ok (legal_hold_body (record { status = status_text manifest.object_lock }))
