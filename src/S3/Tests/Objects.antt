-- ===== src/S3/Tests/Objects.antt =====
-- The theorems about objects at concrete requests.
use s3lite.Common.{◌<◌, ◌≤◌, ◌≡◌, ◌≢◌, inl, refl, true, false, none, some, [], ◌∷◌, ◌++◌, ok, arith}
use s3lite.Common.Order.{Bytes, bytes_order, same, cmp_bytes}
use s3lite.Common.OrdMap.{lookup, upsert}
use s3lite.Common.Text.{bytes}
use s3lite.Storage.Manifest.{
  Hash, Manifest, BucketConfig, PartEntry, live, off, single_put, forbids_delete, encode,
}
use s3lite.Storage.Engine.Sorted.{engine}
use s3lite.Storage.PartStore.{open_read, write_stream, write_loop}
use s3lite.Storage.Manifest.Etag.{etag}
use s3lite.Storage.Actor.Buckets.{handle_create_bucket, handle_get_bucket}
use s3lite.Storage.Actor.Parts.{
  u32_max, inc_all, inc_part_refcount, dec_all, part_keys, handle_list_orphan_parts,
}
use s3lite.Storage.Actor.Manifests.{handle_put_manifest, handle_get_manifest}
use s3lite.Storage.Actor.Samples.{photo, photo_row, seven}
use s3lite.S3.Object.Delete.{is_locked, delete_object}
use s3lite.S3.Object.Removed.{delete_object-IsIntact}
use s3lite.S3.Object.Locked.{delete-keeps_locked}
use s3lite.S3.Collect.Kept.{IsKept}
use s3lite.S3.Collect.Swept.{IsGone, sweep_gc-IsGone, sweep_gc-IsIntact}
use s3lite.Storage.Actor.Invariant.{references, SafeRow}
use s3lite.Storage.Actor.Parts.Counts.{refcount}
use s3lite.S3.Lock.{parse_lock_headers}
use s3lite.S3.Lock.Buckets.{default_lock_for_bucket}
use s3lite.S3.Request.{parse_content_md5, extract_user_metadata, parse_x_amz_tagging}
use s3lite.S3.Checksum.{find_checksum, parse_request_checksum, header_name_for}
use s3lite.S3.World.{Headers, header, insert_header, header_string, set_header, World, Response}
use s3lite.S3.Collect.{gc_freed_parts, sweep_gc}
use s3lite.S3.Object.{next_version_id, key_of, put_row, require_bucket}
use s3lite.S3.Object.Put.{
  check_put_preconditions, check_content, check_request, object_manifest, store_manifest,
  write_object, put_object,
}
use s3lite.S3.Object.Get.{get_or_head_object}
use s3lite.S3.Object.Stored.{put_object-IsIntact}
use s3lite.S3.Object.RoundTrip.{put-get}
use s3lite.S3.Object.Intact.{IsIntact}
use s3lite.S3.Tests.Samples.{
  crates, pics, pics_bucket, start, moment, start-IsConsistent, start-IsIntact,
}

-- The names that a PUT computes with.
putting : Unit {0}
unfolding put_object write_object store_manifest object_manifest check_request check_content
    check_put_preconditions require_bucket handle_create_bucket handle_get_bucket
    handle_get_manifest parse_content_md5 parse_request_checksum find_checksum header_name_for
    header header_string insert_header set_header parse_x_amz_tagging parse_lock_headers
    extract_user_metadata default_lock_for_bucket next_version_id put_row handle_put_manifest
    inc_all inc_part_refcount dec_all gc_freed_parts write_stream write_loop etag encode lookup
    upsert cmp_bytes
putting = tt

abbrev a_jpg : Bytes
a_jpg = bytes "a.jpg"

no_file : (c : Bytes) → open_read start.files (bytes "hi") ≡ some c → c ≡ bytes "hi"
unfolding open_read lookup
no_file c h = absurd (cc h)

no_references : (q : Hash) → references engine start.db.objects q < u32_max
unfolding handle_create_bucket lookup
no_references q = omega arith

abbrev stored_response : Response
stored_response = record {
  status = 200;
  headers = (bytes "etag", 0x22 ∷ (bytes "hi" ++ 0x22 ∷ [])) ∷ [];
  body = [];
}

put_succeeds :
    (put_object engine crates start pics a_jpg [] (bytes "hi") moment).0 ≡ ok stored_response
unfolding putting
put_succeeds = refl

bucket_there : engine.buckets.get start.db.buckets pics ≡ some pics_bucket
unfolding putting
bucket_there = refl

put-get_example :
    (h : Headers) × (get_or_head_object crates engine
        (put_object engine crates start pics a_jpg [] (bytes "hi") moment).1
        pics
        a_jpg
        (some (next_version_id pics_bucket.versioning moment.uuid))
        []
        false
      ≡ ok (record { status = 200; headers = h; body = bytes "hi" }))
put-get_example =
    put-get engine crates start pics a_jpg [] (bytes "hi") moment pics_bucket stored_response
      start-IsConsistent no_file no_references bucket_there put_succeeds

put_object-IsIntact_example :
    IsIntact crates engine (put_object engine crates start pics a_jpg [] (bytes "hi") moment).1
put_object-IsIntact_example =
    put_object-IsIntact engine crates start pics a_jpg [] (bytes "hi") moment start-IsIntact no_file
      no_references

-- The server after the PUT.
abbrev with_hi : World engine
with_hi = (put_object engine crates start pics a_jpg [] (bytes "hi") moment).1

with_hi-IsIntact : IsIntact crates engine with_hi
with_hi-IsIntact =
    put_object-IsIntact engine crates start pics a_jpg [] (bytes "hi") moment start-IsIntact no_file
      no_references

abbrev hi_row : Manifest
hi_row = record photo_row {
  upload_mode = single_put;
  parts = record { part_number = 1; hash = bytes "hi"; md5 = bytes "hi"; size = 2 } ∷ [];
  size = 2;
  created_at = 101;
  last_modified = 101;
}

few_references : (q : Hash) → references engine with_hi.db.objects q ≤ u32_max
unfolding putting
few_references q = ground arith

delete_object-IsIntact_example :
    IsIntact crates engine (delete_object engine crates with_hi pics a_jpg none moment).1
delete_object-IsIntact_example =
    delete_object-IsIntact crates engine with_hi with_hi-IsIntact few_references pics a_jpg none
      moment

-- The bucket with an object under legal hold.
abbrev held_row : Manifest
held_row = record photo_row {
  parts = [];
  size = 0;
  object_lock = some (record { retention = none; legal_hold = true });
}

abbrev held_there : World engine
held_there = record start { db = (handle_put_manifest engine start.db held_row 100).1 }

held_stored : engine.objects.get held_there.db.objects (encode photo) ≡ some held_row
unfolding putting
held_stored = refl

held_locked : is_locked (some held_row) moment.lock_now ≡ true
unfolding forbids_delete
held_locked = refl

no_marker :
    (cfg : BucketConfig)
    → engine.buckets.get held_there.db.buckets pics ≡ some cfg
    → cfg.versioning ≢ off
    → same bytes_order
        (encode photo)
        (encode (key_of pics a_jpg (next_version_id cfg.versioning moment.uuid)))
      ≡ false
unfolding putting
no_marker cfg there on = absurd (on (ground arith))

delete-keeps_locked_example :
    engine.objects.get
      (delete_object engine crates held_there pics a_jpg none moment).1.db.objects
      (encode photo)
    ≡ some held_row
delete-keeps_locked_example =
    delete-keeps_locked engine crates held_there pics a_jpg none moment (encode photo) held_row
      held_stored held_locked no_marker

-- A part that no manifest refers to, with its file.
abbrev orphan : PartEntry
orphan = record { refcount = 0; size = 2; state = live; created_at = 100 }

abbrev littered : World engine
littered = record start {
  db = record start.db { parts = engine.parts.insert start.db.parts seven orphan };
  files = (seven, bytes "hi") ∷ [];
}

littered_list : handle_list_orphan_parts engine littered.db ≡ ok (seven ∷ [])
unfolding handle_list_orphan_parts part_keys upsert handle_create_bucket lookup cmp_bytes
littered_list = refl

sweep_gc-IsGone_example : IsGone engine (sweep_gc engine littered).1 seven
sweep_gc-IsGone_example =
    sweep_gc-IsGone engine littered (seven ∷ []) seven littered_list (inl refl)

orphaned-count : (q : Hash) → refcount engine littered.db.parts q ≡ 0
unfolding lookup upsert handle_create_bucket
orphaned-count q = ground arith

orphaned-safe : (q : Hash) → SafeRow (engine.parts.get littered.db.parts q)
unfolding lookup upsert handle_create_bucket
orphaned-safe q = ground arith

littered-IsIntact : IsIntact crates engine littered
unfolding handle_create_bucket lookup
littered-IsIntact = record {
  consistent = record { counted = orphaned-count; gc_safe = orphaned-safe };
  rows = λ k. tt;
}

sweep_gc-IsIntact_example :
    IsIntact crates engine (sweep_gc engine littered).1
    × IsKept engine littered (sweep_gc engine littered).1
sweep_gc-IsIntact_example = sweep_gc-IsIntact engine crates littered littered-IsIntact
