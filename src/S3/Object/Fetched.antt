-- ===== src/S3/Object/Fetched.antt =====
-- src/s3/object.rs: what `get_or_head_object` answers for a manifest that it finds.
use s3lite.Common.{◌≡◌, refl, false, Bool, Option, none, some, [], ok}
use s3lite.Common.Order.{Bytes}
use s3lite.Storage.Manifest.{Manifest, BucketConfig, object, committed, encode}
use s3lite.Storage.Engine.{Engine, Db}
use s3lite.Storage.PartStore.{Files}
use s3lite.Storage.Actor.Buckets.{handle_get_bucket}
use s3lite.Storage.Actor.Manifests.{handle_get_manifest}
use s3lite.S3.World.{Headers, header, External, World, etag_of, header_string}
use s3lite.S3.Request.{evaluate_preconditions, parse_range_header}
use s3lite.S3.Object.{require_bucket, key_of}
use s3lite.S3.Object.Get.{
  read_parts, read_body, object_headers, send_object, or_send, find_manifest, get_or_head_object,
}

module _ (e : Engine) (x : External) where
  require_bucket-found :
      (db : Db e) (bucket : Bytes) (cfg : BucketConfig)
      → e.buckets.get db.buckets bucket ≡ some cfg
      → require_bucket e x.formats db bucket ≡ ok cfg
  unfolding require_bucket handle_get_bucket
  require_bucket-found db bucket cfg there = rw there refl

  -- The answer for an object that is found, up to its preconditions.
  pub get-found :
      (w : World e) (bucket key : Bytes) (version_id : Option Bytes) (headers : Headers)
      (head : Bool) (cfg : BucketConfig) (m : Manifest) (etag : Bytes)
      → e.buckets.get w.db.buckets bucket ≡ some cfg
      → find_manifest x e w.db bucket key version_id ≡ ok m
      → m.kind ≡ object
      → etag_of x m ≡ some etag
      → get_or_head_object x e w bucket key version_id headers head
        ≡ or_send x
            (evaluate_preconditions x headers etag m.last_modified bucket key)
            (send_object x w.files m etag headers head)
  unfolding get_or_head_object
  get-found w bucket key none headers head cfg m etag there found is_object tagged =
      rw (require_bucket-found w.db bucket cfg there, found, is_object, tagged) refl
  get-found w bucket key (some vid) headers head cfg m etag there found is_object tagged =
      rw (require_bucket-found w.db bucket cfg there, found, is_object, tagged) refl

  -- The version that is stored under the key.
  pub find_manifest-version :
      (db : Db e) (bucket key vid : Bytes) (m : Manifest)
      → e.objects.get db.objects (encode (key_of bucket key vid)) ≡ some m
      → m.state ≡ committed
      → find_manifest x e db bucket key (some vid) ≡ ok m
  unfolding handle_get_manifest
  find_manifest-version db bucket key vid m row current = rw (row, current) refl

  -- Without headers the whole content is sent.
  pub send_object-plain :
      (files : Files) (m : Manifest) (etag content : Bytes)
      → read_parts x files [] m.parts ≡ ok content
      → send_object x files m etag [] false
        ≡ ok (record { status = 200; headers = object_headers x m etag none; body = content })
  unfolding send_object parse_range_header header read_body
  send_object-plain files m etag content read = rw read refl

  -- Without headers no precondition ends the request.
  pub evaluate_preconditions-none :
      (m : Manifest) (etag bucket key : Bytes)
      → evaluate_preconditions x [] etag m.last_modified bucket key ≡ none
  unfolding evaluate_preconditions header_string header
  evaluate_preconditions-none m etag bucket key = refl
