-- ===== src/S3/Lock.antt =====
-- src/s3/lock.rs: object lock of buckets and objects. The XML and date formats of other crates are
-- the record `Formats`. A handler reads and later writes through the actor, which may answer other
-- messages in between: these are an argument of the handlers that write.
pub mod Objects
pub mod Buckets
pub mod Extend
pub mod Keep
use s3lite.Common.{
  ℕ, ◌+◌, ◌*◌, ltb, not, ◌&&◌, ◌||◌, Bool, true, false, Option, none, some, List, [], ◌∷◌, ◌++◌,
  Result, ok, err, ◌>>=◌, ok_or, if◌then◌else◌,
}
use s3lite.Common.Order.{Bytes, bytes_order, same}
use s3lite.Common.Text.{bytes}
use s3lite.Storage.Manifest.{
  Time, ManifestState, committed, ManifestKind, object, LockMode, compliance, Retention, ObjectLock,
  ManifestKey, Manifest, DefaultRetention, ObjectLockConfig, BucketConfig,
}
use s3lite.Storage.Errors.{MetaError}
use s3lite.Storage.Engine.{Engine, Db}
use s3lite.Storage.Actor.Manifests.{handle_get_manifest, handle_update_manifest_lock}
use s3lite.Storage.Actor.Scan.{handle_get_latest_version, is_committed}
use s3lite.Storage.Actor.Listing.{is_object}
use s3lite.Storage.Actor.Buckets.{handle_get_bucket, handle_update_bucket_object_lock}
use s3lite.Storage.Actor.Ops.{Message, run}
use s3lite.S3.Error.{
  S3Error, new_error, with_resource, internal_error, invalid_request, invalid_argument,
  no_such_bucket, no_such_key, access_forbidden,
}

pub record RetentionXml : Type 0 where
  pub mode : Bytes
  pub retain_until_date : Bytes

pub record LegalHoldXml : Type 0 where
  pub status : Bytes

pub record DefaultRetentionXml : Type 0 where
  pub mode : Option Bytes
  pub days : Option ℕ
  pub years : Option ℕ

pub record ObjectLockRuleXml : Type 0 where
  pub default_retention : Option DefaultRetentionXml

pub record ObjectLockConfigurationXml : Type 0 where
  pub object_lock_enabled : Option Bytes
  pub rule : Option ObjectLockRuleXml

-- The functions of other crates: quick_xml's reader with the text of its error, the RFC 3339
-- dates of the crate time, and the message that thiserror derives.
pub record Formats : Type 0 where
  pub read_retention : Bytes → Result Bytes RetentionXml
  pub read_legal_hold : Bytes → Result Bytes LegalHoldXml
  pub read_lock_configuration : Bytes → Result Bytes ObjectLockConfigurationXml
  pub parse_date : Bytes → Option Time
  pub format_date : Time → Option Bytes
  pub show_meta_error : MetaError → Bytes

-- `StatusCode::OK.into_response()` or an `XmlBody`
pub data LockResponse : Type 0 where
  status_ok : LockResponse
  lock_configuration_body : ObjectLockConfigurationXml → LockResponse
  retention_body : RetentionXml → LockResponse
  legal_hold_body : LegalHoldXml → LockResponse

-- `format!("/{bucket}/{key}")`
abbrev pub object_resource : Bytes → Bytes → Bytes
object_resource bucket key = bytes "/" ++ (bucket ++ (bytes "/" ++ key))

abbrev pub bucket_resource : Bytes → Bytes
bucket_resource bucket = bytes "/" ++ bucket

-- `format!("{text}'{other}'")`
abbrev pub quoted : Bytes → Bytes → Bytes
quoted text other = text ++ (bytes "'" ++ (other ++ bytes "'"))

abbrev pub is_text : Bytes → Bytes → Bool
is_text a b = same bytes_order a b

unfoldable pub parse_mode : Option Bytes → Result S3Error LockMode
parse_mode none = err (new_error invalid_request (bytes "lock Mode is required"))
parse_mode (some mode) =
    if is_text mode (bytes "COMPLIANCE")
    then ok compliance
    else if is_text mode (bytes "GOVERNANCE")
    then err
        (new_error invalid_argument (bytes "GOVERNANCE mode is not supported (Compliance only)"))
    else err (new_error invalid_argument (quoted (bytes "invalid lock Mode ") mode))

unfoldable pub mode_to_str : LockMode → Bytes
mode_to_str compliance = bytes "COMPLIANCE"

-- `.map(|l| l.legal_hold).unwrap_or(false)`
abbrev pub held : Option ObjectLock → Bool
held none = false
held (some lock) = lock.legal_hold

-- `.and_then(|l| l.retention.clone())`
abbrev pub retention_of : Option ObjectLock → Option Retention
retention_of none = none
retention_of (some lock) = lock.retention

-- `retain_until < existing.retain_until`
abbrev pub shortens : Option Retention → Time → Bool
shortens none retain_until = false
shortens (some existing) retain_until = ltb retain_until existing.retain_until

-- The filter of `require_object_with_version`.
abbrev pub current_object : Option Manifest → Option Manifest
current_object none = none
current_object (some m) = if is_committed m.state && is_object m.kind then some m else none

-- `map_err` with a function of the error.
abbrev pub map_err {ℓ} : {X : Type 0} {T : Type ℓ} → (X → S3Error) → Result X T → Result S3Error T
map_err f (ok t) = ok t
map_err f (err x) = err (f x)

-- A result of the actor as the answer `StatusCode::OK`, beside the database.
abbrev pub answer_ok :
    {D : Type 0}
    → (MetaError → S3Error)
    → Result MetaError (Unit {0}) × D
    → Result S3Error LockResponse × D
answer_ok f (ok u, db) = (ok status_ok, db)
answer_ok f (err x, db) = (err (f x), db)

module _ (f : Formats) where
  -- src/s3/bucket.rs: `map_meta_err`
  unfoldable pub map_meta_err : MetaError → S3Error
  map_meta_err x = new_error internal_error (bytes "meta: " ++ f.show_meta_error x)

  abbrev pub malformed : Bytes → Bytes → Bytes → S3Error
  malformed name resource x =
      with_resource
        (new_error invalid_request (bytes "malformed " ++ (name ++ (bytes " body: " ++ x))))
        resource

  -- `retention` of the headers `mode` and `retain_until` of a PUT.
  abbrev header_retention : Option Bytes → Option Bytes → Result S3Error (Option Retention)
  header_retention none none = ok none
  header_retention (some mode) (some date) = do
    mode' ← parse_mode (some mode)
    retain_until ←
        ok_or (f.parse_date date)
          (new_error invalid_request (bytes "x-amz-object-lock-retain-until-date must be ISO 8601"))
    ok (some (record { mode = mode'; retain_until = retain_until }))
  header_retention _ _ = err (
      new_error invalid_request (
        bytes
          "x-amz-object-lock-mode and x-amz-object-lock-retain-until-date must be set together"))

  abbrev header_hold : Option Bytes → Result S3Error Bool
  header_hold none = ok false
  header_hold (some status) =
      if is_text status (bytes "ON")
      then ok true
      else if is_text status (bytes "OFF")
      then ok false
      else err (
          new_error invalid_argument
            (quoted (bytes "invalid x-amz-object-lock-legal-hold ") status))

  abbrev lock_of_headers :
      Option Bytes → Option Bytes → Option Bytes → Result S3Error (Option ObjectLock)
  lock_of_headers none none none = ok none
  lock_of_headers mode date hold = do
    retention ← header_retention mode date
    legal_hold ← header_hold hold
    ok (some (record { retention = retention; legal_hold = legal_hold }))

  -- `parse_lock_headers`, of the headers that are text.
  unfoldable pub parse_lock_headers : (Bytes → Option Bytes) → Result S3Error (Option ObjectLock)
  parse_lock_headers headers =
      lock_of_headers (headers (bytes "x-amz-object-lock-mode"))
        (headers (bytes "x-amz-object-lock-retain-until-date"))
        (headers (bytes "x-amz-object-lock-legal-hold"))
