-- ===== src/Storage/Actor/Tests/Scans.antt =====
-- The theorems about the scans, the listing and the encoded keys, over the stored object.
use s3lite.Common.{◌≤◌, ◌≡◌, ◌≢◌, ◌↔◌, ◌&&◌, refl, true, some, [], ◌∷◌, ok, arith, none, false, inl}
use s3lite.Common.Order.{cmp_bytes, bytes_order, same, less}
use s3lite.Common.OrdMap.{lookup, upsert, between, is_between}
use s3lite.Common.OrdMap.Members.{In}
use s3lite.Common.Text.{bytes, length, is_prefix}
use s3lite.Storage.Actor.Listing.{
  ListObjectsRequest, ListObjectsPage, is_object, object_item, scan_start, latest_by_key,
  list_round, list_loop, handle_list_objects,
}
use s3lite.Storage.Actor.Listing.Complete.{IsNewest, page_complete}
use s3lite.Storage.Actor.Listing.Page.{IsListed, page-length, page_objects}
use s3lite.Storage.Manifest.{ManifestKey, Manifest, new_bucket_config, encode, BucketConfig}
use s3lite.Storage.Manifest.Key.{NulFree, then_cmp, cmp-encode, encode_injective}
use s3lite.Storage.Actor.Scan.Ranges.{after_key_range}
use s3lite.Storage.Actor.Scan.Stored.{list_all_exact, delete_bucket_exact}
use s3lite.Storage.Engine.{Db}
use s3lite.Storage.Engine.Sorted.{engine, empty}
use s3lite.Storage.Actor.Parts.{inc_part_refcount, inc_all}
use s3lite.Storage.Actor.Manifests
use s3lite.Storage.Actor.Buckets.{handle_create_bucket, handle_delete_bucket}
use s3lite.Storage.Actor.Ops.{run}
use s3lite.Storage.Actor.Ops.Keyed.{IsKeyed, put-IsKeyed, NamesFitAll, run-IsKeyed}
use s3lite.Storage.Actor.Scan.{
  handle_get_latest_version, pick_latest, pick_step, key_start, key_end,
  handle_list_all_manifests_in_bucket, rows_of_bucket, bucket_start, bucket_end, after_key,
  initial_scan_start,
}
use s3lite.Storage.Actor.Samples.{photo, photo_row, photo-IsNamed, empty-IsKeyed}
use s3lite.Storage.Actor.Scan.Latest.{IsVersion, latest_newest, latest_stored}
use s3lite.Storage.Actor.Tests.{messages, program, stored, row_there}

photo-IsVersion : IsVersion (bytes "pics") (bytes "a.jpg") photo_row
photo-IsVersion = record { in_bucket = refl; at_key = refl; is_committed = refl }

-- The scans, over the stored object.
stored-IsKeyed : IsKeyed engine stored.objects
stored-IsKeyed = put-IsKeyed engine empty empty-IsKeyed photo_row 100 photo-IsNamed

latest_newest_example :
    (l : Manifest) × (handle_get_latest_version engine stored (bytes "pics") (bytes "a.jpg")
      ≡ ok (some l))
    × (100 ≤ l.last_modified)
latest_newest_example =
    latest_newest engine stored stored-IsKeyed (bytes "pics") (bytes "a.jpg") (omega arith)
      (omega arith) photo_row row_there photo-IsVersion

latest_is_photo :
    handle_get_latest_version engine stored (bytes "pics") (bytes "a.jpg") ≡ ok (some photo_row)
unfolding program handle_get_latest_version pick_latest pick_step key_start key_end between
latest_is_photo = refl

latest_stored_example :
    IsVersion (bytes "pics") (bytes "a.jpg") photo_row
    × (engine.objects.get stored.objects (encode photo) ≡ some photo_row)
latest_stored_example =
    latest_stored engine stored stored-IsKeyed (bytes "pics") (bytes "a.jpg") photo_row
      latest_is_photo

-- A bucket's contents, before and after the only object goes.
pics-NulFree : NulFree (bytes "pics")
pics-NulFree = omega arith

key-NulFree : NulFree (bytes "a.jpg")
key-NulFree = omega arith

all_listed : handle_list_all_manifests_in_bucket engine stored (bytes "pics") ≡ ok (photo_row ∷ [])
unfolding program handle_list_all_manifests_in_bucket rows_of_bucket bucket_start bucket_end between
all_listed = refl

list_all_exact_example : In photo_row (photo_row ∷ []) ↔ (
    (engine.objects.get stored.objects (encode photo) ≡ some photo_row)
    × (photo.bucket ≡ bytes "pics"))
list_all_exact_example =
    list_all_exact engine stored stored-IsKeyed (bytes "pics") (photo_row ∷ []) pics-NulFree
      all_listed photo_row

abbrev pics_config : BucketConfig
pics_config = new_bucket_config 90 (bytes "us-east-1")

abbrev with_bucket : Db engine
with_bucket = (handle_create_bucket engine stored (bytes "pics") pics_config).1

bucket_there : engine.buckets.get with_bucket.buckets (bytes "pics") ≡ some pics_config
unfolding program
bucket_there = refl

with_bucket-IsKeyed : IsKeyed engine with_bucket.objects
unfolding handle_create_bucket lookup Manifests.handle_put_manifest inc_all inc_part_refcount upsert
    cmp_bytes
with_bucket-IsKeyed k = stored-IsKeyed k

delete_bucket_exact_example :
    ((handle_delete_bucket engine with_bucket (bytes "pics")).0 ≡ ok tt) ↔ (
      (m : Manifest)
      → engine.objects.get with_bucket.objects (encode m.key) ≡ some m
      → m.key.bucket ≢ bytes "pics")
delete_bucket_exact_example =
    delete_bucket_exact engine with_bucket with_bucket-IsKeyed (bytes "pics") pics_config
      pics-NulFree bucket_there

abbrev other : ManifestKey
other = record { bucket = bytes "pics"; key = bytes "b.jpg"; version_id = bytes "null" }

other-NulFree : NulFree (bytes "b.jpg")
other-NulFree = omega arith

cmp-encode_example :
    cmp_bytes (encode photo) (encode other)
    ≡ then_cmp (cmp_bytes (bytes "pics") (bytes "pics")) (
        then_cmp
          (cmp_bytes (bytes "a.jpg") (bytes "b.jpg"))
          (cmp_bytes (bytes "null") (bytes "null")))
cmp-encode_example = cmp-encode photo other pics-NulFree pics-NulFree key-NulFree other-NulFree

encode_injective_example :
    (photo.bucket ≡ photo.bucket) × (photo.key ≡ photo.key) × (photo.version_id ≡ photo.version_id)
encode_injective_example =
    encode_injective photo photo pics-NulFree pics-NulFree key-NulFree key-NulFree refl

after_key_range_example :
    is_between bytes_order
      (after_key (bytes "pics") (bytes "a.jpg"))
      (bucket_end (bytes "pics"))
      (encode other)
    ≡ (same bytes_order (bytes "pics") (bytes "pics")
        && less bytes_order (bytes "a.jpg") (bytes "b.jpg"))
after_key_range_example =
    after_key_range (bytes "pics") other pics-NulFree pics-NulFree (bytes "a.jpg") key-NulFree
      other-NulFree

messages-NamesFit : NamesFitAll engine messages
messages-NamesFit = (tt, (photo-IsNamed, (photo-IsNamed, (tt, tt))))

run-IsKeyed_example : IsKeyed engine (run engine empty messages).objects
run-IsKeyed_example = run-IsKeyed engine empty messages empty-IsKeyed messages-NamesFit

-- A page of one object.
abbrev request : ListObjectsRequest
request = record {
  bucket = bytes "pics";
  prefix = bytes "a";
  delimiter = none;
  cursor = none;
  limit = 1;
}

abbrev first_page : ListObjectsPage
first_page = record { items = object_item photo_row ∷ []; truncated = false; next_cursor = none }

page_listed : handle_list_objects engine stored request ≡ ok first_page
unfolding program handle_list_objects scan_start initial_scan_start bucket_end latest_by_key
    is_prefix list_loop list_round between
page_listed = refl

page-length_example : length first_page.items ≤ 1
page-length_example = page-length engine stored request first_page page_listed

page_objects_example : IsListed engine stored request photo_row
page_objects_example =
    page_objects engine stored request first_page stored-IsKeyed pics-NulFree page_listed photo_row
      (inl refl)

photo_prefix : is_prefix (bytes "a") (bytes "a.jpg") ≡ true
unfolding is_prefix
photo_prefix = refl

a-NulFree : NulFree (bytes "a")
a-NulFree = omega arith

page_complete_example :
    (l : Manifest) × IsNewest engine stored stored-IsKeyed request photo_row l
    × (is_object l.kind ≡ true → In (object_item l) first_page.items)
page_complete_example =
    page_complete engine stored stored-IsKeyed request pics-NulFree a-NulFree first_page refl refl
      page_listed refl photo_row row_there refl refl photo_prefix
