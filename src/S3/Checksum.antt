-- ===== src/S3/Checksum.antt =====
-- src/s3/checksum.rs: the additional checksum of a request.
pub mod Laws
use s3lite.Common.{
  ℕ, ◌==◌, not, Bool, true, false, Option, none, some, List, [], ◌∷◌, ◌++◌, Result, ok, err, ◌>>=◌,
  ok_or, if◌then◌else◌,
}
use s3lite.Common.Order.{Bytes, bytes_order, same}
use s3lite.Common.Text.{bytes, length}
use s3lite.Storage.Manifest.{ChecksumAlgorithm, crc32, crc32c, sha1, sha256, AdditionalChecksum}
use s3lite.S3.Error.{S3Error, new_error, invalid_request, bad_digest}
use s3lite.S3.Text.{decimal}
use s3lite.S3.World.{Headers, header, External, set_header}

unfoldable pub header_name_for : ChecksumAlgorithm → Bytes
header_name_for crc32 = bytes "x-amz-checksum-crc32"
header_name_for crc32c = bytes "x-amz-checksum-crc32c"
header_name_for sha1 = bytes "x-amz-checksum-sha1"
header_name_for sha256 = bytes "x-amz-checksum-sha256"

unfoldable pub expected_len : ChecksumAlgorithm → ℕ
expected_len crc32 = 4
expected_len crc32c = 4
expected_len sha1 = 20
expected_len sha256 = 32

-- `HEADER_BINDINGS`, whose names are those of `header_name_for`
abbrev pub algorithms : List ChecksumAlgorithm
algorithms = crc32 ∷ crc32c ∷ sha1 ∷ sha256 ∷ []

abbrev pub is_some {ℓ} : {A : Type ℓ} → Option A → Bool
is_some none = false
is_some (some a) = true

module _ (x : External) where
  -- The text of a header that is there, and the test that it is the first.
  abbrev pub read_found :
      Option (ChecksumAlgorithm × Bytes)
      → ChecksumAlgorithm
      → Bytes
      → Result S3Error (Option (ChecksumAlgorithm × Bytes))
  read_found found algo v = do
    s ←
        ok_or (x.to_str v) (
          new_error invalid_request (bytes "invalid " ++ (header_name_for algo ++ bytes " header")))
    if is_some found
        then err
            (new_error invalid_request (bytes "more than one x-amz-checksum-* header supplied"))
        else ok (some (algo, s))

  abbrev pub look_up :
      Headers
      → Option (ChecksumAlgorithm × Bytes)
      → ChecksumAlgorithm
      → Result S3Error (Option (ChecksumAlgorithm × Bytes))
  look_up headers found algo = elim (header (header_name_for algo) headers) [
    | none ↦ ok found
    | some v ↦ read_found found algo v
  ]

  -- The loop over the bindings.
  unfoldable pub find_checksum :
      Headers
      → Option (ChecksumAlgorithm × Bytes)
      → List ChecksumAlgorithm
      → Result S3Error (Option (ChecksumAlgorithm × Bytes))
  find_checksum headers found [] = ok found
  find_checksum headers found (algo ∷ rest) = do
    found' ← look_up headers found algo
    find_checksum headers found' rest

  abbrev pub decode_checksum :
      Option (ChecksumAlgorithm × Bytes) → Result S3Error (Option AdditionalChecksum)
  decode_checksum none = ok none
  decode_checksum (some (algo, raw)) = do
    value ←
        ok_or (x.base64_decode raw) (
          new_error invalid_request (header_name_for algo ++ bytes " checksum is not valid base64"))
    if not (length value == expected_len algo)
        then err (
            new_error invalid_request (
              header_name_for algo
              ++ (bytes " checksum must be " ++ (decimal (expected_len algo) ++ bytes " bytes"))))
        else ok (some (record { algorithm = algo; value = value }))

  unfoldable pub parse_request_checksum : Headers → Result S3Error (Option AdditionalChecksum)
  parse_request_checksum headers = do
    found ← find_checksum headers none algorithms
    decode_checksum found

  unfoldable pub compute : ChecksumAlgorithm → Bytes → Bytes
  compute crc32 content = x.crc32 content
  compute crc32c content = x.crc32c content
  compute sha1 content = x.sha1 content
  compute sha256 content = x.sha256 content

  unfoldable pub verify : AdditionalChecksum → Bytes → Result S3Error (Unit {0})
  verify expected content =
      if not (same bytes_order (compute expected.algorithm content) expected.value)
      then err
          (new_error bad_digest (header_name_for expected.algorithm ++ bytes " checksum mismatch"))
      else ok tt

  -- The checksum in the headers of a response; `encode_value` is base64.
  abbrev pub set_checksum : Option AdditionalChecksum → Headers → Headers
  set_checksum none h = h
  set_checksum (some ac) h =
      set_header x (header_name_for ac.algorithm) (x.base64_encode ac.value) h
