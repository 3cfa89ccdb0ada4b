-- ===== src/S3/Tests.antt =====
-- The theorems about addressing and object lock at concrete requests.
mod Copies
mod Samples
mod Objects
mod Requests
mod Sweeps
mod Tags
mod Uploads
use s3lite.Common.{◌≡◌, ◌↔◌, refl, true, false, Option, none, some, List, [], ◌∷◌, ◌++◌, ok}
use s3lite.Common.Order.{Bytes, cmp_bytes}
use s3lite.Common.OrdMap.{lookup, upsert}
use s3lite.Common.Text.{bytes}
use s3lite.Storage.Manifest.{
  Time, compliance, ObjectLock, forbids_delete, Manifest, new_bucket_config, BucketConfig, encode,
}
use s3lite.Storage.Engine.{Db}
use s3lite.Storage.Engine.Sorted.{engine, empty}
use s3lite.Storage.Actor.Parts.{inc_all, inc_part_refcount, dec_all}
use s3lite.Storage.Actor.Manifests.{handle_put_manifest}
use s3lite.Storage.Actor.Buckets.{handle_create_bucket}
use s3lite.Storage.Actor.Ops.{Message, run, answer, create_bucket}
use s3lite.Storage.Actor.Ops.Keyed.{IsKeyed, put-IsKeyed}
use s3lite.Storage.Actor.Samples.{photo, photo_row, photo-IsNamed, empty-IsKeyed}
use s3lite.S3.Text.{has_byte, all_bytes, split}
use s3lite.S3.Addressing.{
  Addressing, rsplit_once, strip_port, strip_suffix, virtual_hosted_bucket, validate_bucket_name,
  last_byte, is_ipv4_like, path_to_key, split_slash, path_style, extract,
}
use s3lite.S3.Addressing.Names.{IsBucketName, validate_bucket_name_exact}
use s3lite.S3.Addressing.Styles.{extract_agrees, extract_valid}
use s3lite.S3.Lock.{Formats}
use s3lite.S3.Lock.Objects.{put_object_retention, put_object_legal_hold}
use s3lite.S3.Lock.Buckets.{put_bucket_object_lock_config}
use s3lite.S3.Lock.Extend.{RowKept, retention_never_shortened, retention-still_forbids}
use s3lite.S3.Lock.Keep.{SameRetention, hold-keeps_retention, lock_flag, config-keeps_enabled}

-- The names that the addressing tests compute with.
addressing : Unit {0}
unfolding validate_bucket_name all_bytes last_byte is_ipv4_like split has_byte rsplit_once
    strip_port strip_suffix virtual_hosted_bucket path_to_key split_slash path_style extract
    cmp_bytes
addressing = tt

pics_valid : validate_bucket_name (bytes "pics") ≡ ok tt
unfolding addressing
pics_valid = refl

validate_bucket_name_exact_example :
    (validate_bucket_name (bytes "pics") ≡ ok tt) ↔ IsBucketName (bytes "pics")
validate_bucket_name_exact_example = validate_bucket_name_exact (bytes "pics")

abbrev host : Bytes
host = (bytes "pics" ++ 0x2e ∷ bytes "s3.test") ++ 0x3a ∷ bytes "9000"

no_colon : has_byte 0x3a (bytes "9000") ≡ false
unfolding addressing
no_colon = refl

extract_agrees_example :
    extract (some host) (0x2f ∷ bytes "a/b.jpg") (some (bytes "s3.test"))
    ≡ extract none (0x2f ∷ (bytes "pics" ++ 0x2f ∷ bytes "a/b.jpg")) none
extract_agrees_example =
    extract_agrees (bytes "pics") (bytes "a/b.jpg") (bytes "s3.test") (bytes "9000") pics_valid refl
      no_colon

abbrev pics_only : Addressing
pics_only = record { bucket = some (bytes "pics"); key = none }

pics_path : extract none (bytes "/pics") none ≡ ok pics_only
unfolding addressing
pics_path = refl

extract_valid_example : validate_bucket_name (bytes "pics") ≡ ok tt
extract_valid_example =
    extract_valid none (bytes "/pics") none pics_only (bytes "pics") pics_path refl

-- Formats that read a body as the date itself, and a date as its first byte.
abbrev first_byte : Bytes → Option Time
first_byte [] = none
first_byte (b ∷ s) = some b

abbrev formats : Formats
formats = record {
  read_retention = λ body. ok (record { mode = bytes "COMPLIANCE"; retain_until_date = body });
  read_legal_hold = λ body. ok (record { status = body });
  read_lock_configuration = λ body. ok (record { object_lock_enabled = some body; rule = none });
  parse_date = first_byte;
  format_date = λ t. some (t ∷ []);
  show_meta_error = λ x. bytes "failed";
}

-- The object locked until 200.
abbrev photo_lock : ObjectLock
photo_lock = record {
  retention = some (record { mode = compliance; retain_until = 200 });
  legal_hold = false;
}

abbrev locked : Manifest
locked = record photo_row { object_lock = some photo_lock }

abbrev stored_lock : Db engine
stored_lock = (handle_put_manifest engine empty locked 100).1

stored_lock-IsKeyed : IsKeyed engine stored_lock.objects
stored_lock-IsKeyed = put-IsKeyed engine empty empty-IsKeyed locked 100 photo-IsNamed

abbrev pics_config : BucketConfig
pics_config = new_bucket_config 90 (bytes "us-east-1")

-- A message that the actor answers between a handler's read and its write.
abbrev between : List Message
between = record { op = create_bucket (bytes "pics") pics_config; now = 120; later = 120 } ∷ []

same_rows :
    (q : Bytes)
    → engine.objects.get (run engine stored_lock between).objects q
      ≡ engine.objects.get stored_lock.objects q
unfolding run answer handle_create_bucket handle_put_manifest inc_all inc_part_refcount dec_all
    upsert lookup cmp_bytes
same_rows q = refl

locked_there : engine.objects.get stored_lock.objects (encode photo) ≡ some locked
unfolding handle_put_manifest inc_all inc_part_refcount dec_all upsert lookup cmp_bytes encode
locked_there = refl

locked_forbids : forbids_delete photo_lock 150 ≡ true
unfolding forbids_delete
locked_forbids = refl

retention_never_shortened_example :
    RowKept (engine.objects.get stored_lock.objects (encode photo)) (
      engine.objects.get
        (put_object_retention engine formats stored_lock between
          (bytes "pics")
          (bytes "a.jpg")
          none
          (250 ∷ [])).1.objects
        (encode photo))
retention_never_shortened_example =
    retention_never_shortened engine formats stored_lock stored_lock-IsKeyed between (bytes "pics")
      (bytes "a.jpg") none (250 ∷ []) same_rows (encode photo)

retention-still_forbids_example :
    (m' : Manifest) × (lock' : ObjectLock) × (engine.objects.get
        (put_object_retention engine formats stored_lock between
          (bytes "pics")
          (bytes "a.jpg")
          none
          (250 ∷ [])).1.objects
        (encode photo)
      ≡ some m')
    × (m'.object_lock ≡ some lock')
    × (forbids_delete lock' 150 ≡ true)
retention-still_forbids_example =
    retention-still_forbids engine formats stored_lock stored_lock-IsKeyed between (bytes "pics")
      (bytes "a.jpg") none (250 ∷ []) same_rows (encode photo) locked photo_lock 150 locked_there
      refl locked_forbids

hold-keeps_retention_example :
    SameRetention (engine.objects.get stored_lock.objects (encode photo)) (
      engine.objects.get
        (put_object_legal_hold engine formats stored_lock between
          (bytes "pics")
          (bytes "a.jpg")
          none
          (bytes "ON")).1.objects
        (encode photo))
hold-keeps_retention_example =
    hold-keeps_retention engine formats stored_lock stored_lock-IsKeyed between (bytes "pics")
      (bytes "a.jpg") none (bytes "ON") same_rows (encode photo)

-- A bucket created with object lock.
abbrev with_lock : Db engine
with_lock =
    (handle_create_bucket engine empty (bytes "pics") (record pics_config {
      object_lock = some (record { enabled = true; default_retention = none });
    })).1

no_message :
    (q : Bytes)
    → engine.buckets.get (run engine with_lock []).buckets q
      ≡ engine.buckets.get with_lock.buckets q
unfolding run
no_message q = refl

config-keeps_enabled_example :
    lock_flag (
      engine.buckets.get
        (put_bucket_object_lock_config engine formats with_lock []
          (bytes "pics")
          (bytes "Enabled")).1.buckets
        (bytes "pics"))
    ≡ lock_flag (engine.buckets.get with_lock.buckets (bytes "pics"))
config-keeps_enabled_example =
    config-keeps_enabled engine formats with_lock [] (bytes "pics") (bytes "Enabled") no_message
      (bytes "pics")
