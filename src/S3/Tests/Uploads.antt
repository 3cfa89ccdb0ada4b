-- ===== src/S3/Tests/Uploads.antt =====
-- The theorems about multipart uploads at a concrete server.
use s3lite.Common.{◌≡◌, ◌≢◌, refl, true, none, some, [], ◌∷◌, ◌++◌, Result, ok}
use s3lite.Common.Order.{Bytes, cmp_bytes}
use s3lite.Common.OrdMap.{lookup, upsert}
use s3lite.Common.Text.{bytes}
use s3lite.Storage.Manifest.{Manifest, PartRef, in_progress, encode}
use s3lite.Storage.Manifest.Etag
use s3lite.Storage.Manifest.Etag.{feed_parts}
use s3lite.Storage.Engine.{Db}
use s3lite.Storage.Engine.Sorted.{engine, empty}
use s3lite.Storage.Actor.Manifests.{handle_put_manifest, handle_get_manifest, find_part}
use s3lite.Storage.Actor.Parts.{inc_all, inc_part_refcount, dec_all, dec_part_refcount}
use s3lite.Storage.Actor.Multipart.{is_in_progress, handle_complete_multipart}
use s3lite.Storage.Actor.Samples.{photo, photo_row, seven}
use s3lite.S3.Text.{trim, trim_start, trim_end, decimal}
use s3lite.S3.World.{World, etag_of}
use s3lite.S3.Object.{key_of, null_version_id}
use s3lite.S3.Multipart.{
  CompleteMultipartUploadRequest, check_sorted, select_parts, find_upload,
  CompleteMultipartUploadResult, complete_plan, complete_multipart_upload, abort_multipart_upload,
}
use s3lite.S3.Multipart.Chosen.{AreChosen, Ascending, abort-keeps}
use s3lite.S3.Multipart.Committed.{IsWholeObject, complete-chosen}
use s3lite.S3.Tests.Samples.{crates, pics, start}

abbrev a_jpg : Bytes
a_jpg = bytes "a.jpg"

abbrev piece : PartRef
piece = record { part_number = 2; hash = seven; md5 = bytes "m"; size = 5 }

abbrev upload_row : Manifest
upload_row = record photo_row {
  key = key_of pics a_jpg (bytes "5f");
  state = in_progress;
  parts = piece ∷ [];
  size = 5;
}

abbrev uploading : Db engine
uploading = (handle_put_manifest engine empty upload_row 100).1

abbrev read_one : Bytes → Result Bytes CompleteMultipartUploadRequest
read_one body =
    ok (record { parts = record { part_number = 2; etag = 0x22 ∷ (bytes "m" ++ 0x22 ∷ []) } ∷ [] })

-- A server with the upload.
abbrev with_upload : World engine
with_upload = record start { db = uploading }

abbrev answer : CompleteMultipartUploadResult
answer = record {
  location = bytes "/pics/a.jpg";
  bucket = pics;
  key = a_jpg;
  etag = 0x22 ∷ bytes "m-1\"";
}

answered :
    (complete_multipart_upload crates engine read_one with_upload pics a_jpg
      (bytes "5f")
      []
      120
      130).0
    ≡ ok answer
unfolding complete_multipart_upload complete_plan check_sorted select_parts find_upload find_part
    trim trim_start trim_end handle_put_manifest handle_get_manifest handle_complete_multipart
    inc_all inc_part_refcount dec_all dec_part_refcount lookup upsert cmp_bytes encode Etag.etag
    feed_parts decimal
answered = refl

differs : bytes "5f" ≢ null_version_id
differs h = cc h

complete-chosen_example :
    (request : CompleteMultipartUploadRequest) × (upload m : Manifest) × (read_one [] ≡ ok request)
    × (engine.objects.get uploading.objects (encode (key_of pics a_jpg (bytes "5f"))) ≡ some upload)
    × (is_in_progress upload.state ≡ true)
    × (engine.objects.get
          (complete_multipart_upload crates engine read_one with_upload pics a_jpg
            (bytes "5f")
            []
            120
            130).1.db.objects
          (encode (key_of pics a_jpg (bytes "5f")))
        ≡ none)
    × (engine.objects.get
          (complete_multipart_upload crates engine read_one with_upload pics a_jpg
            (bytes "5f")
            []
            120
            130).1.db.objects
          (encode (key_of pics a_jpg null_version_id))
        ≡ some m)
    × IsWholeObject crates engine read_one pics a_jpg m
    × (etag_of crates m ≡ some answer.etag)
    × AreChosen crates upload.parts request.parts m.parts
    × Ascending 0 m.parts
complete-chosen_example =
    complete-chosen crates engine read_one with_upload pics a_jpg (bytes "5f") [] 120 130 answer
      differs answered

abbrev with_photo : World engine
with_photo = record start { db = (handle_put_manifest engine uploading photo_row 110).1 }

photo_there : engine.objects.get with_photo.db.objects (encode photo) ≡ some photo_row
unfolding handle_put_manifest inc_all inc_part_refcount dec_all lookup upsert cmp_bytes encode
photo_there = refl

abort-keeps_example :
    engine.objects.get
      (abort_multipart_upload crates engine with_photo pics a_jpg (bytes "5f")).1.db.objects
      (encode photo)
    ≡ some photo_row
abort-keeps_example =
    abort-keeps crates engine with_photo pics a_jpg (bytes "5f") (encode photo) photo_row
      photo_there refl
