-- ===== src/Storage/Actor/Tests.antt =====
-- The theorems about the actor at a small database: one bucket, and one object of two parts that share
-- their content.
mod Scans
use s3lite.Common.{
  ◌⊎◌, Ordering, ◌+◌, ◌≤◌, ◌<◌, ◌≡◌, ◌≢◌, ◌↔◌, ◌&&◌, refl, true, some, List, [], ◌∷◌, ok, err,
  arith, none, false, inl,
}
use s3lite.Common.Order.{cmp_bytes_refl, cmp_bytes, bytes_order, same, less}
use s3lite.Common.OrdMap.{lookup, upsert, without, between, is_between}
use s3lite.Common.OrdMap.Members.{In}
use s3lite.Common.Text.{bytes, length, is_prefix}
use s3lite.Storage.Actor.Listing.{
  ListObjectsRequest, ListObjectsPage, is_object, object_item, scan_start, latest_by_key,
  list_round, list_loop, handle_list_objects,
}
use s3lite.Storage.Actor.Listing.Complete.{IsNewest, page_complete}
use s3lite.Storage.Actor.Listing.Page.{IsListed, page-length, page_objects}
use s3lite.Storage.Manifest.{
  in_progress, Hash, ManifestKey, Manifest, new_bucket_config, DeletionEffect, encode, BucketConfig,
}
use s3lite.Storage.Manifest.Key.{NulFree, then_cmp, cmp-encode, encode_injective}
use s3lite.Storage.Actor.Scan.Ranges.{after_key_range}
use s3lite.Storage.Actor.Scan.Stored.{list_all_exact, delete_bucket_exact}
use s3lite.Storage.Errors.{part_gc_pending}
use s3lite.Storage.Engine.{Db}
use s3lite.Storage.Engine.Sorted.{engine, empty}
use s3lite.Storage.Actor.Parts.{
  inc_part_refcount, dec_part_refcount, inc_all, dec_all, handle_mark_gc_pending, u32_max,
}
use s3lite.Storage.Actor.Parts.Counts.{refs}
use s3lite.Storage.Actor.Manifests
use s3lite.Storage.Actor.Buckets.{handle_create_bucket, handle_delete_bucket}
use s3lite.Storage.Actor.Ops.{Message, run, answer, put_manifest, delete_manifest, create_bucket}
use s3lite.Storage.Actor.Ops.Invariant.{FitsAll, run-IsConsistent, initial-IsConsistent}
use s3lite.Storage.Actor.Invariant.{references, IsConsistent}
use s3lite.Storage.Actor.Invariant.Manifests.{put-IsConsistent}
use s3lite.Storage.Actor.Invariant.Gc.{mark-put_refused}
use s3lite.Storage.Actor.Multipart.{
  handle_complete_multipart, swap_manifests, collect_all, collect, contains, hashes,
}
use s3lite.Storage.Actor.Release.Completed.{complete-freed}
use s3lite.Storage.Actor.Release.{put-freed, delete-freed}
use s3lite.Storage.Actor.Ops.Keyed.{IsKeyed, put-IsKeyed, NamesFitAll, run-IsKeyed}
use s3lite.Storage.Actor.Scan.{
  handle_get_latest_version, pick_latest, pick_step, key_start, key_end,
  handle_list_all_manifests_in_bucket, rows_of_bucket, bucket_start, bucket_end, after_key,
  initial_scan_start,
}
use s3lite.Storage.Actor.Samples.{chunk, seven, photo, photo_row, photo-IsNamed, empty-IsKeyed}
use s3lite.Storage.Actor.Scan.Latest.{IsVersion, latest_newest, latest_stored}

abbrev pub messages : List Message
messages =
    record {
      op = create_bucket (bytes "pics") (new_bucket_config 90 (bytes "us-east-1"));
      now = 90;
      later = 90;
    }
    ∷ record { op = put_manifest photo_row; now = 100; later = 100 }
    ∷ record { op = put_manifest photo_row; now = 110; later = 110 }
    ∷ record { op = delete_manifest photo; now = 120; later = 120 }
    ∷ []

empty-IsConsistent : IsConsistent engine empty
empty-IsConsistent = initial-IsConsistent engine empty refl refl

refs-le : (q : Hash) → refs q photo_row.parts ≤ 2
refs-le q = ground arith

-- The names that a run of the messages computes with.
pub program : Unit {0}
unfolding answer run handle_create_bucket Manifests.handle_put_manifest
    Manifests.handle_delete_manifest inc_part_refcount dec_part_refcount inc_all dec_all cmp_bytes
    encode lookup upsert without
program = tt

messages-FitsAll : FitsAll engine empty messages
unfolding program
messages-FitsAll = (tt, (λ q. omega (arith, refs-le q), (λ q. omega (arith, refs-le q), (tt, tt))))

run-IsConsistent_example : IsConsistent engine (run engine empty messages)
run-IsConsistent_example =
    run-IsConsistent engine empty messages empty-IsConsistent messages-FitsAll

-- The database with the object stored.
abbrev pub stored : Db engine
stored = (Manifests.handle_put_manifest engine empty photo_row 100).1

put_room : (q : Hash) → references engine empty.objects q + refs q photo_row.parts ≤ u32_max
put_room q = omega (arith, refs-le q)

stored-IsConsistent : IsConsistent engine stored
stored-IsConsistent = put-IsConsistent engine empty photo_row 100 empty-IsConsistent put_room

restore_room : (q : Hash) → references engine stored.objects q + refs q [] ≤ u32_max
unfolding program
restore_room q = omega (arith, refs-le q)

-- The object written again with no parts: both references go, and the part is reported once.
abbrev emptied : Manifest
emptied = record photo_row { parts = []; size = 0 }

abbrev freed_seven : DeletionEffect
freed_seven = record { freed_parts = seven ∷ [] }

overwrite_reports : (Manifests.handle_put_manifest engine stored emptied 110).0 ≡ ok freed_seven
unfolding program
overwrite_reports = refl

put-freed_example : In seven (seven ∷ []) ↔ (
    (0 < refs seven (Manifests.parts_of (engine.objects.get stored.objects (encode photo))))
    × (references engine (Manifests.handle_put_manifest engine stored emptied 110).1.objects seven
        ≡ 0))
put-freed_example =
    put-freed engine stored emptied 110 stored-IsConsistent restore_room overwrite_reports seven

pub row_there : engine.objects.get stored.objects (encode photo) ≡ some photo_row
unfolding program
row_there = refl

delete_reports : (Manifests.handle_delete_manifest engine stored photo).0 ≡ ok freed_seven
unfolding program
delete_reports = refl

delete-freed_example : In seven (seven ∷ []) ↔ (
    (0 < refs seven photo_row.parts)
    × (references engine (Manifests.handle_delete_manifest engine stored photo).1.objects seven
        ≡ 0))
delete-freed_example =
    delete-freed engine stored photo photo_row stored-IsConsistent row_there delete_reports seven

-- After the deletion the part is free, and the collector can mark it.
abbrev deleted : Db engine
deleted = (Manifests.handle_delete_manifest engine stored photo).1

mark_works : (handle_mark_gc_pending engine deleted seven).0 ≡ ok true
unfolding program handle_mark_gc_pending
mark_works = refl

photo_refers : 0 < refs seven photo_row.parts
unfolding program
photo_refers = omega arith

mark-put_refused_example :
    (q : Hash) × (Manifests.handle_put_manifest engine
        (handle_mark_gc_pending engine deleted seven).1
        photo_row
        130
      ≡ (err (part_gc_pending q), (handle_mark_gc_pending engine deleted seven).1))
mark-put_refused_example =
    mark-put_refused engine deleted seven photo_row 130 mark_works photo_refers

-- An upload of one part beside the stored object, and the object that its completion commits.
abbrev eight : Hash
eight = 8 ∷ []

abbrev upload_key : ManifestKey
upload_key = record { bucket = bytes "pics"; key = bytes "a.jpg"; version_id = bytes "u1" }

abbrev upload : Manifest
upload = record photo_row { key = upload_key; state = in_progress; parts = chunk 1 eight ∷ [] }

abbrev completed : Manifest
completed = record photo_row { parts = chunk 1 eight ∷ [] }

refs-one : (q : Hash) → refs q completed.parts ≤ 1
refs-one q = ground arith

upload_room : (q : Hash) → references engine stored.objects q + refs q upload.parts ≤ u32_max
unfolding program
upload_room q = omega (arith, refs-le q, refs-one q)

abbrev with_upload : Db engine
with_upload = (Manifests.handle_put_manifest engine stored upload 115).1

with_upload-IsConsistent : IsConsistent engine with_upload
with_upload-IsConsistent = put-IsConsistent engine stored upload 115 stored-IsConsistent upload_room

completed_room :
    (q : Hash) → references engine with_upload.objects q + refs q completed.parts ≤ u32_max
unfolding program
completed_room q = omega (arith, refs-le q, refs-one q)

upload_there : engine.objects.get with_upload.objects (encode upload_key) ≡ some upload
unfolding program
upload_there = refl

keys_order : cmp_bytes (encode upload_key) (encode photo) ≡ Ordering.gt
unfolding program
keys_order = refl

keys_differ : encode upload_key ≢ encode photo
keys_differ h = cc (keys_order, h, cmp_bytes_refl (encode photo))

complete_reports :
    (handle_complete_multipart engine with_upload upload_key completed 130).0 ≡ ok freed_seven
unfolding program handle_complete_multipart swap_manifests collect_all collect contains hashes
complete_reports = refl

complete-freed_example : In seven (seven ∷ []) ↔ (
    ((0 < refs seven upload.parts)
      ⊎ (0
          < refs seven
              (Manifests.parts_of (engine.objects.get with_upload.objects (encode photo)))))
    × (references engine
          (handle_complete_multipart engine with_upload upload_key completed 130).1.objects
          seven
        ≡ 0))
complete-freed_example =
    complete-freed engine with_upload upload_key completed upload 130 with_upload-IsConsistent
      keys_differ completed_room upload_there complete_reports seven
