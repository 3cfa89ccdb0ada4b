-- ===== src/S3/Object/Put.antt =====
-- src/s3/object.rs: `put_object`.
use s3lite.Common.{
  not, Bool, false, Option, none, some, [], ◌∷◌, Result, ok, err, ◌>>=◌, if◌then◌else◌,
}
use s3lite.Common.Order.{Bytes, bytes_order, same}
use s3lite.Common.Text.{bytes}
use s3lite.Storage.Manifest.{
  ObjectLock, Manifest, BucketConfig, VersioningState, AdditionalChecksum, committed, object,
  single_put,
}
use s3lite.Storage.Errors.{MetaError}
use s3lite.Storage.Engine.{Engine, Db}
use s3lite.Storage.PartStore.{PartWriteResult, write_stream}
use s3lite.Storage.Actor.Manifests.{handle_get_manifest}
use s3lite.S3.Error.{S3Error, new_error, with_resource, bad_digest, precondition_failed}
use s3lite.S3.Lock.{map_err, map_meta_err, object_resource, current_object, parse_lock_headers}
use s3lite.S3.Lock.Buckets.{default_lock_for_bucket}
use s3lite.S3.Request.{etag_matches, parse_content_md5, extract_user_metadata, parse_x_amz_tagging}
use s3lite.S3.Checksum.{parse_request_checksum, verify, set_checksum}
use s3lite.S3.World.{
  Headers, External, object_created_put, World, Fault, Response, plain_response, faulting, or_panic,
  header_string, set_header, etag_of,
}
use s3lite.S3.Object.{
  Moment, null_version_id, next_version_id, if_enabled, key_of, and_then, and_go, emit, put_row,
  require_bucket,
}

-- `e.with_resource(..)` on an error
abbrev pub at_resource {ℓ} : {T : Type ℓ} → Bytes → Result S3Error T → Result S3Error T
at_resource resource (ok t) = ok t
at_resource resource (err y) = err (with_resource y resource)

-- `Some(l) => Some(l), None => default`
abbrev pub or_default : Option ObjectLock → Option ObjectLock → Option ObjectLock
or_default (some l) default = some l
or_default none default = default

module _ (e : Engine) (x : External) where
  -- `existing.is_some_and(|m| etag_matches(raw, &m.etag()))`
  abbrev matches_existing : Bytes → Option Manifest → Result Fault Bool
  matches_existing raw none = ok false
  matches_existing raw (some m) = do etag ← or_panic (etag_of x m); ok (etag_matches raw etag)

  abbrev failed : Bytes → Bytes → Result Fault (Unit {0})
  failed resource message =
      err (Fault.s3_error (with_resource (new_error precondition_failed message) resource))

  abbrev check_match : Bytes → Option Bytes → Option Manifest → Result Fault (Unit {0})
  check_match resource none existing = ok tt
  check_match resource (some im) existing = do
    pass ← matches_existing im existing
    if not pass then failed resource (bytes "If-Match failed") else ok tt

  abbrev check_none_match : Bytes → Option Bytes → Option Manifest → Result Fault (Unit {0})
  check_none_match resource none existing = ok tt
  check_none_match resource (some inm) existing = do
    blocks ← matches_existing inm existing
    if blocks then failed resource (bytes "If-None-Match failed") else ok tt

  -- `check_put_preconditions`. Without either header nothing is read, and both checks pass.
  unfoldable pub check_put_preconditions : Db e → Bytes → Bytes → Headers → Result Fault (Unit {0})
  check_put_preconditions db bucket key headers = do
    row ← faulting (
        map_err (map_meta_err x.formats)
          (handle_get_manifest e db (key_of bucket key null_version_id)))
    _ ←
        check_match (object_resource bucket key) (header_string x headers (bytes "if-match"))
          (current_object row)
    check_none_match (object_resource bucket key) (header_string x headers (bytes "if-none-match"))
        (current_object row)

  abbrev check_md5 : Bytes → Option Bytes → Bytes → Result S3Error (Unit {0})
  check_md5 resource none body = ok tt
  check_md5 resource (some expected) body =
      if not (same bytes_order expected (x.md5.digest body))
      then err (
          with_resource
            (new_error bad_digest (bytes "Content-MD5 header did not match computed digest"))
            resource)
      else ok tt

  abbrev verify_some : Option AdditionalChecksum → Bytes → Result S3Error (Unit {0})
  verify_some none body = ok tt
  verify_some (some ac) body = verify x ac body

  -- The checks of the request's headers against the body.
  unfoldable pub check_content :
      Db e → Bytes → Bytes → Headers → Bytes → Result Fault (Option AdditionalChecksum)
  check_content db bucket key headers body = do
    let resource = object_resource bucket key
    _ ← check_put_preconditions db bucket key headers
    md5 ← faulting (parse_content_md5 x headers)
    _ ← faulting (check_md5 resource md5 body)
    checksum ← faulting (at_resource resource (parse_request_checksum x headers))
    _ ← faulting (at_resource resource (verify_some checksum body))
    ok checksum

  -- What `put_object` checks before the body is written.
  unfoldable pub check_request :
      Db e
      → Bytes
      → Bytes
      → Headers
      → Bytes
      → Result Fault (BucketConfig × Option AdditionalChecksum)
  check_request db bucket key headers body = do
    cfg ← faulting (require_bucket e x.formats db bucket)
    checksum ← check_content db bucket key headers body
    ok (cfg, checksum)

  -- The manifest of `put_object`.
  unfoldable pub object_manifest :
      BucketConfig
      → Option AdditionalChecksum
      → Bytes
      → Bytes
      → Headers
      → Moment
      → PartWriteResult
      → Result S3Error Manifest
  object_manifest cfg checksum bucket key headers moment part = do
    let resource = object_resource bucket key
    tags ← at_resource resource (parse_x_amz_tagging x headers)
    lock ← at_resource resource (parse_lock_headers x.formats (header_string x headers))
    ok (record {
      key = key_of bucket key (next_version_id cfg.versioning moment.uuid);
      state = committed;
      kind = object;
      upload_mode = single_put;
      parts = record { part_number = 1; hash = part.hash; md5 = part.md5; size = part.size } ∷ [];
      size = part.size;
      content_type = header_string x headers (bytes "content-type");
      user_metadata = extract_user_metadata x [] headers;
      tags = tags;
      additional_checksum = checksum;
      storage_class = bytes "STANDARD";
      object_lock = or_default lock (default_lock_for_bucket cfg.object_lock moment.lock_now);
      created_at = moment.now;
      last_modified = moment.now;
      upload_id = none;
    })

  abbrev set_some : Bytes → Option Bytes → Headers → Headers
  set_some name none h = h
  set_some name (some value) h = set_header x name value h

  abbrev put_response : Bytes → Option Bytes → Option AdditionalChecksum → Response
  put_response etag version_id checksum = record (plain_response 200) {
    headers =
        set_checksum x checksum
          (set_some (bytes "x-amz-version-id") version_id (set_header x (bytes "etag") etag []));
  }

  abbrev pub finish_put :
      VersioningState
      → Manifest
      → Bytes
      → Result MetaError (Unit {0}) × World e
      → Result Fault Response × World e
  finish_put versioning m etag (err y, w) = (err (Fault.s3_error (map_meta_err x.formats y)), w)
  finish_put versioning m etag (ok u, w) = (
    ok (put_response etag (if_enabled versioning m.key.version_id) m.additional_checksum),
    emit e w (record {
      event_type = object_created_put;
      bucket = m.key.bucket;
      key = m.key.key;
      size = m.size;
      etag = etag;
      version_id = if_enabled versioning m.key.version_id;
    }),
  )

  -- What `put_object` does with its manifest.
  unfoldable pub store_manifest :
      World e → VersioningState → Manifest → Moment → Result Fault Response × World e
  store_manifest w versioning m moment =
      and_go (or_panic (etag_of x m)) w
        (λ etag. finish_put versioning m etag (put_row e w m moment.actor_now))

  -- `put_object` from the writing of the body on.
  unfoldable pub write_object :
      World e
      → BucketConfig × Option AdditionalChecksum
      → Bytes
      → Bytes
      → Headers
      → Bytes
      → Moment
      → Result Fault Response × World e
  write_object w (cfg, checksum) bucket key headers body moment =
      let (part, files) = write_stream x.blake3 x.md5 w.files (x.reads body) in
      let w' : World e = record w { files = files } in
      and_then (object_manifest cfg checksum bucket key headers moment part) w'
        (λ m. store_manifest w' cfg.versioning m moment)

  -- `put_object`
  unfoldable pub put_object :
      World e → Bytes → Bytes → Headers → Bytes → Moment → Result Fault Response × World e
  put_object w bucket key headers body moment =
      and_go (check_request w.db bucket key headers body) w
        (λ checked. write_object w checked bucket key headers body moment)
