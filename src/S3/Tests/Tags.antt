-- ===== src/S3/Tests/Tags.antt =====
-- The theorem about tags at a concrete object.
use s3lite.Common.{◌≡◌, ◌↔◌, refl, some, [], ◌∷◌, Result, ok}
use s3lite.Common.Order.{Bytes, cmp_bytes}
use s3lite.Common.OrdMap.{lookup, upsert}
use s3lite.Common.Text.{bytes}
use s3lite.Storage.Manifest.{encode}
use s3lite.Storage.Engine.{Db}
use s3lite.Storage.Engine.Sorted.{engine, empty}
use s3lite.Storage.Actor.Manifests.{handle_put_manifest}
use s3lite.Storage.Actor.Parts.{inc_all, inc_part_refcount, dec_all}
use s3lite.Storage.Actor.Ops.Keyed.{IsKeyed, put-IsKeyed}
use s3lite.Storage.Actor.Samples.{photo, photo_row, photo-IsNamed, empty-IsKeyed}
use s3lite.S3.Tagging.{Tagging, get_object_tagging, put_object_tagging}
use s3lite.S3.Tagging.Stored.{put-get_tags}
use s3lite.S3.Tagging.Last.{InKeyOrder, HasTag, IsLast}
use s3lite.S3.Tests.Samples.{sample_formats, pics}

abbrev stored_photo : Db engine
stored_photo = (handle_put_manifest engine empty photo_row 100).1

stored_photo-IsKeyed : IsKeyed engine stored_photo.objects
stored_photo-IsKeyed = put-IsKeyed engine empty empty-IsKeyed photo_row 100 photo-IsNamed

-- A reader that takes the body as the value of a tag `a`, behind another tag and value of it.
abbrev read_two : Bytes → Result Bytes Tagging
read_two body = ok (record {
  tag_set = record {
    tags =
        record { key = bytes "b"; value = [] }
        ∷ record { key = bytes "a"; value = [] }
        ∷ record { key = bytes "a"; value = body }
        ∷ [];
  };
})

abbrev two_tags : Tagging
two_tags = record {
  tag_set = record {
    tags =
        record { key = bytes "b"; value = [] }
        ∷ record { key = bytes "a"; value = [] }
        ∷ record { key = bytes "a"; value = bytes "red" }
        ∷ [];
  };
}

photo_stored : engine.objects.get stored_photo.objects (encode photo) ≡ some photo_row
unfolding handle_put_manifest inc_all inc_part_refcount dec_all lookup upsert cmp_bytes encode
photo_stored = refl

put-get_tags_example :
    ((put_object_tagging engine sample_formats read_two stored_photo pics
        (bytes "a.jpg")
        (some (bytes "null"))
        (bytes "red")).0
      ≡ ok 200)
    × (got : Tagging) × (get_object_tagging engine sample_formats read_two
          (put_object_tagging engine sample_formats read_two stored_photo pics
            (bytes "a.jpg")
            (some (bytes "null"))
            (bytes "red")).1
          pics
          (bytes "a.jpg")
          (some (bytes "null"))
        ≡ ok got)
    × InKeyOrder got.tag_set.tags
    × (HasTag (bytes "a") (bytes "red") got.tag_set.tags
        ↔ IsLast (bytes "a") (bytes "red") two_tags.tag_set.tags)
put-get_tags_example =
    put-get_tags engine sample_formats read_two stored_photo pics (bytes "a.jpg") (bytes "null")
      (bytes "red") photo_row two_tags (bytes "a") (bytes "red") stored_photo-IsKeyed photo_stored
      refl refl refl
