-- ===== src/S3/Tests/Requests.antt =====
-- The theorems about request headers and texts at concrete requests.
use s3lite.Common.{◌<◌, ◌≤◌, ◌≡◌, refl, some, [], ◌∷◌, ok, arith}
use s3lite.Common.Order.{Bytes, cmp_bytes}
use s3lite.Common.OrdMap.{lookup}
use s3lite.Common.Text.{bytes, length, is_prefix}
use s3lite.Storage.Manifest.{AdditionalChecksum, crc32}
use s3lite.Storage.PartStore.{open_read, write_stream}
use s3lite.Storage.PartStore.Content.{IsAddressed, write_stream-IsAddressed}
use s3lite.S3.Text.{
  trim, trim_start, trim_end, has_byte, split_once, strip_prefix, parse_digits, parse_unsigned,
}
use s3lite.S3.Percent.{url_percent_decode, url_percent_encode}
use s3lite.S3.Percent.RoundTrip.{url_percent_decode-encode}
use s3lite.S3.World.{Headers, header}
use s3lite.S3.Checksum.{header_name_for, expected_len, find_checksum, parse_request_checksum}
use s3lite.S3.Checksum.Laws.{HasText, parse-decoded}
use s3lite.S3.Request.{parse_range_header}
use s3lite.S3.Request.Ranges.{parse_range_header-bounds}
use s3lite.S3.Tests.Samples.{crates, one_by_one, one_by_one-NonEmpty}

abbrev range_header : Headers
range_header = (bytes "range", bytes "bytes=2-90") ∷ []

range_read : parse_range_header crates range_header 10 ≡ ok (some (2, 9))
unfolding parse_range_header header strip_prefix is_prefix has_byte split_once parse_digits
    parse_unsigned cmp_bytes
range_read = refl

parse_range_header-bounds_example : (2 ≤ 9) × (9 < 10)
parse_range_header-bounds_example = parse_range_header-bounds crates range_header 10 2 9 range_read

url_percent_decode-encode_example :
    url_percent_decode (λ s. s) (url_percent_encode (bytes "a b/c")) ≡ bytes "a b/c"
url_percent_decode-encode_example =
    url_percent_decode-encode (λ s. s) (bytes "a b/c")
      (omega arith, (omega arith, (omega arith, (omega arith, (omega arith, tt))))) refl

abbrev crc_header : Headers
crc_header = (bytes "x-amz-checksum-crc32", bytes "abcd") ∷ []

abbrev crc : AdditionalChecksum
crc = record { algorithm = crc32; value = bytes "abcd" }

crc_read : parse_request_checksum crates crc_header ≡ ok (some crc)
unfolding parse_request_checksum find_checksum header header_name_for expected_len cmp_bytes
crc_read = refl

parse-decoded_example :
    (s : Bytes) × HasText crates crc_header crc32 s
    × (some s ≡ some (bytes "abcd"))
    × (length (bytes "abcd") ≡ expected_len crc32)
parse-decoded_example = parse-decoded crates crc_header crc crc_read

no_files : IsAddressed crates.blake3 []
unfolding open_read lookup
no_files h = tt

write_stream-IsAddressed_example :
    IsAddressed crates.blake3 (write_stream crates.blake3 crates.md5 [] (one_by_one (bytes "hi"))).1
write_stream-IsAddressed_example =
    write_stream-IsAddressed crates.blake3 crates.md5 [] (one_by_one (bytes "hi"))
      (one_by_one-NonEmpty (bytes "hi")) no_files

-- `trim` takes white space of one, two and three bytes from both ends, and leaves it inside and in the
-- codes of other characters.
trim-spaces :
    trim (0x20 ∷ 0xc2 ∷ 0xa0 ∷ 0xc3 ∷ 0xa0 ∷ 0x20 ∷ 0x61 ∷ 0xe2 ∷ 0x80 ∷ 0x89 ∷ 0x0a ∷ [])
    ≡ 0xc3 ∷ 0xa0 ∷ 0x20 ∷ 0x61 ∷ []
unfolding trim trim_start trim_end
trim-spaces = refl
