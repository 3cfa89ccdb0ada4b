-- ===== src/S3/Tests/Copies.antt =====
-- The theorems about copies at a concrete object.
use s3lite.Common.{◌≡◌, refl, some, [], ◌∷◌, ◌++◌, ok, arith}
use s3lite.Common.Order.{Bytes, cmp_bytes}
use s3lite.Common.OrdMap.{lookup, upsert}
use s3lite.Common.Text.{bytes, is_prefix}
use s3lite.Storage.PartStore.{Files, open_read}
use s3lite.Storage.Actor.Samples.{photo_row, seven}
use s3lite.S3.Copy.{
  CopySource, read_source_range, resolve_source, parse_copy_range, whole_or_range, copy_payload,
}
use s3lite.S3.Copy.Payload.{IsWithin, copy_payload-segment}
use s3lite.S3.Text.{split_once, strip_prefix, parse_unsigned, parse_digits}
use s3lite.S3.World.{World, Headers, header, header_string}
use s3lite.Storage.Manifest.{encode}
use s3lite.Storage.Engine.Sorted.{engine, empty}
use s3lite.Storage.Actor.Manifests.{handle_put_manifest, handle_get_manifest}
use s3lite.Storage.Actor.Parts.{inc_all, inc_part_refcount, dec_all}
use s3lite.S3.Copy.Slices.{segment, AreFiles, read_source_range-segment}
use s3lite.S3.Tests.Samples.{crates, pics, start}

abbrev hello : Bytes
hello = bytes "hello"

-- The file that both parts of the photo name.
abbrev hello_file : Files
hello_file = (seven, hello) ∷ []

found : open_read hello_file seven ≡ some hello
unfolding open_read lookup cmp_bytes
found = refl

parts-AreFiles : AreFiles crates hello_file photo_row.parts (hello ++ (hello ++ []))
parts-AreFiles = (
  hello,
  hello ++ [],
  found,
  refl,
  omega arith,
  refl,
  (hello, [], found, refl, omega arith, refl, refl),
)

read_source_range-segment_example :
    read_source_range crates hello_file photo_row 3 6 ≡ ok (segment 3 7 (hello ++ (hello ++ [])))
read_source_range-segment_example =
    read_source_range-segment crates hello_file photo_row 3 6 (hello ++ (hello ++ []))
      parts-AreFiles (omega arith) (omega arith)

abbrev photo_source : CopySource
photo_source = record { bucket = pics; key = bytes "a.jpg"; version_id = some (bytes "null") }

abbrev serving : World engine
serving = record start {
  db = (handle_put_manifest engine empty photo_row 110).1;
  files = hello_file;
}

abbrev from_3_to_6 : Headers
from_3_to_6 = (bytes "x-amz-copy-source-range", bytes "bytes=3-6") ∷ []

resolved : resolve_source crates engine serving.db photo_source ≡ ok photo_row
unfolding resolve_source handle_get_manifest handle_put_manifest inc_all inc_part_refcount dec_all
    lookup upsert cmp_bytes encode
resolved = refl

ranged :
    whole_or_range crates engine pics
      (bytes "b.jpg")
      photo_row
      (header_string crates from_3_to_6 (bytes "x-amz-copy-source-range"))
    ≡ ok (3, 6)
unfolding parse_copy_range header_string header split_once strip_prefix cmp_bytes is_prefix
    parse_unsigned parse_digits
ranged = refl

copy_payload-segment_example :
    (copy_payload crates engine serving pics (bytes "b.jpg") 2 photo_source from_3_to_6
      ≡ ok (segment 3 7 (hello ++ (hello ++ []))))
    × IsWithin 10 3 6
copy_payload-segment_example =
    copy_payload-segment crates engine serving pics (bytes "b.jpg") 2 photo_source from_3_to_6
      photo_row (hello ++ (hello ++ [])) 3 6 (omega arith) (omega arith) resolved ranged refl
      (omega arith) parts-AreFiles
