-- ===== src/S3/Copy/Payload.antt =====
-- src/s3/copy.rs: the bytes that `upload_part_copy` stores as a part.
use s3lite.Common.{
  ℕ, ◌==◌, ◌+◌, ◌^◌, ◌≤◌, ◌<◌, ◌≡◌, ltb, ◌||◌, refl, inl, inr, false, Option, none, some, ok, ok_or,
  chain_succeeds, arith, Bool-cases,
}
use s3lite.Common.Order.{Bytes}
use s3lite.Common.Text.{bytes, length}
use s3lite.Storage.Manifest.{Manifest}
use s3lite.Storage.Engine.{Engine}
use s3lite.S3.Text.{is_blank, split_once, strip_prefix, parse_u64}
use s3lite.S3.World.{Headers, External, World, header_string}
use s3lite.S3.Copy.{
  CopySource, bounds_of, parse_copy_range, resolve_source, copy_payload, whole_or_range,
}
use s3lite.S3.Copy.Slices.{segment, AreFiles, read_source_range-segment}

-- The range has a byte, and lies in the object.
abbrev pub IsWithin : ℕ → ℕ → ℕ → Type 0
IsWithin size start end = (start ≤ end) × (end < size)

bounds_of-IsWithin :
    (size a b start end : ℕ) → bounds_of size a b ≡ ok (start, end) → IsWithin size start end
bounds_of-IsWithin size a b start end h = (ground arith, ground arith)

parse_copy_range-IsWithin :
    (v : Bytes) (size start end : ℕ)
    → parse_copy_range v size ≡ ok (start, end)
    → IsWithin size start end
unfolding parse_copy_range
parse_copy_range-IsWithin v size start end h =
    let (spec, rest, first) = chain_succeeds _ _ (ok_or (strip_prefix (bytes "bytes=") v) _) h in
    let (pair, rest2, second) = chain_succeeds _ _ (ok_or (split_once 0x2d spec) _) rest in
    elim (Bool-cases (is_blank pair.0 || is_blank pair.1)) [
      | inl blank ↦ absurd (ground arith)
      | inr given ↦
          let (a, rest3, third) =
            chain_succeeds _ _ (ok_or (parse_u64 pair.0) _) (rw given at rest2) in
          let (b, rest4, fourth) = chain_succeeds _ _ (ok_or (parse_u64 pair.1) _) rest3 in
          bounds_of-IsWithin size a b start end rest4
    ]

module _ (x : External) (e : Engine) where
  whole_or_range-IsWithin :
      (bucket key : Bytes) (m : Manifest) (o : Option Bytes) (start end : ℕ)
      → whole_or_range x e bucket key m o ≡ ok (start, end)
      → IsWithin m.size start end
  whole_or_range-IsWithin bucket key m none start end h = (ground arith, ground arith)
  whole_or_range-IsWithin bucket key m (some r) start end h =
      parse_copy_range-IsWithin r m.size start end h

  -- For a part number from 1 to 10000, and an object that the copy source names, of the size of its
  -- content, shorter than 2^64 bytes, whose part files hold the content with no empty part: if the
  -- range of the request is read as the first and last index, those are indices of the content in
  -- order, and the part gets the bytes of the content from the one to the other.
  pub copy_payload-segment :
      (w : World e) (bucket key : Bytes) (part_number : ℕ) (source : CopySource) (headers : Headers)
      (m : Manifest) (content : Bytes) (start end : ℕ)
      → 0 < part_number
      → part_number ≤ 10000
      → resolve_source x e w.db source ≡ ok m
      → whole_or_range x e bucket key m (header_string x headers (bytes "x-amz-copy-source-range"))
        ≡ ok (start, end)
      → length content ≡ m.size
      → length content < 2 ^ 64
      → AreFiles x w.files m.parts content
      → (copy_payload x e w bucket key part_number source headers
          ≡ ok (segment start (end + 1) content))
        × IsWithin (length content) start end
  unfolding copy_payload
  copy_payload-segment w bucket key part_number source headers m content start end low high found
        range sized room files =
      let within = whole_or_range-IsWithin bucket key m _ start end range in
      let allowed : (part_number == 0 || ltb 10000 part_number) ≡ false = ground arith in
      let read = read_source_range-segment x w.files m start end content files within.0 room in
      (rw (allowed, found, range, read) refl, rw sized within)
