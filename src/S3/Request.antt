-- ===== src/S3/Request.antt =====
-- The request headers of the object operations: `parse_content_md5`, `extract_user_metadata`,
-- `parse_range_header`, `etag_matches` and `evaluate_preconditions` of src/s3/object.rs, and
-- `parse_x_amz_tagging` of src/s3/tagging.rs.
pub mod Ranges
use Prim.Native.Nat.{min}
use s3lite.Common.{
  ℕ, ◌-◌, ltb, leb, ◌==◌, not, ◌&&◌, ◌||◌, Bool, true, false, Option, none, some, List, [], ◌∷◌,
  ◌++◌, Result, ok, err, ◌>>=◌, ok_or, if◌then◌else◌,
}
use s3lite.Common.Order.{Bytes, bytes_order, same}
use s3lite.Common.OrdMap.{upsert}
use s3lite.Common.Text.{bytes, length}
use s3lite.Storage.Manifest.{Time, StringMap}
use s3lite.S3.Error.{
  S3ErrorCode, S3Error, new_error, with_resource, invalid_request, invalid_argument,
  precondition_failed,
}
use s3lite.S3.Lock.{object_resource}
use s3lite.S3.Text.{is_blank, has_byte, split, split_once, strip_prefix, trim, parse_u64}
use s3lite.S3.Percent.{url_percent_decode, key_value}
use s3lite.S3.World.{
  Headers, header, External, Response, plain_response, header_string, parse_http_date,
  into_response,
}

abbrev invalid : Bytes → S3Error
invalid message = new_error invalid_argument message

-- `(start, end)` with `end.min(last_index)`, by which bounds are given; `none` for the whole object
abbrev pub both_bounds : ℕ → Bytes → Bytes → Result S3Error (Option (ℕ × ℕ))
both_bounds last_index start_str end_str = do
  s ← ok_or (parse_u64 start_str) (invalid (bytes "bad Range start"))
  e ← ok_or (parse_u64 end_str) (invalid (bytes "bad Range end"))
  ok (some (s, min e last_index))

abbrev pub from_bound : ℕ → Bytes → Result S3Error (Option (ℕ × ℕ))
from_bound last_index start_str = do
  s ← ok_or (parse_u64 start_str) (invalid (bytes "bad Range start"))
  ok (some (s, last_index))

abbrev pub suffix_bound : ℕ → ℕ → Bytes → Result S3Error (Option (ℕ × ℕ))
suffix_bound object_size last_index end_str = do
  suffix ← ok_or (parse_u64 end_str) (invalid (bytes "bad suffix Range"))
  if suffix == 0 || object_size == 0 then ok none else ok (some (object_size - suffix, last_index))

abbrev pub bounds : ℕ → ℕ → Bytes → Bytes → Result S3Error (Option (ℕ × ℕ))
bounds object_size last_index start_str end_str =
    if is_blank start_str
    then if is_blank end_str
      then err (invalid (bytes "Range must have at least one bound"))
      else suffix_bound object_size last_index end_str
    else if is_blank end_str
    then from_bound last_index start_str
    else both_bounds last_index start_str end_str

-- The last test: a range that the object does not have is no range.
abbrev pub within_object : ℕ → Option (ℕ × ℕ) → Option (ℕ × ℕ)
within_object object_size none = none
within_object object_size (some (start, end)) =
    if object_size == 0 || ltb (object_size - 1) start || ltb end start
    then none
    else some (start, end)

abbrev pub parse_range : ℕ → Bytes → Result S3Error (Option (ℕ × ℕ))
parse_range object_size v = do
  spec ← ok_or (strip_prefix (bytes "bytes=") v) (invalid (bytes "Range must use bytes unit"))
  if has_byte 0x2c spec then err (invalid (bytes "multi-range requests are not supported")) else do
    pair ← ok_or (split_once 0x2d spec) (invalid (bytes "Range must contain '-'"))
    range ← bounds object_size (object_size - 1) pair.0 pair.1
    ok (within_object object_size range)

-- `trimmed.split(',').any(|p| p.trim() == etag)`
unfoldable pub any_is : Bytes → List Bytes → Bool
any_is etag [] = false
any_is etag (p ∷ parts) = same bytes_order (trim p) etag || any_is etag parts

-- `etag_matches`
unfoldable pub etag_matches : Bytes → Bytes → Bool
etag_matches raw etag =
    let trimmed = trim raw in
    same bytes_order trimmed (bytes "*") || any_is etag (split 0x2c trimmed)

abbrev pub is_md5_sized : S3ErrorCode → Bytes → Result S3Error (Option Bytes)
is_md5_sized code decoded =
    if length decoded == 16
    then ok (some decoded)
    else err (new_error code (bytes "Content-MD5 must be 16 bytes"))

module _ (x : External) where
  abbrev pub range_of : ℕ → Option Bytes → Result S3Error (Option (ℕ × ℕ))
  range_of object_size none = ok none
  range_of object_size (some v) = do
    s ← ok_or (x.to_str v) (invalid (bytes "invalid Range header"))
    parse_range object_size s

  -- `parse_range_header`
  unfoldable pub parse_range_header : Headers → ℕ → Result S3Error (Option (ℕ × ℕ))
  parse_range_header headers object_size = range_of object_size (header (bytes "range") headers)

  -- The value of the header, with the code of its errors.
  abbrev pub content_md5 : S3ErrorCode → Option Bytes → Result S3Error (Option Bytes)
  content_md5 code none = ok none
  content_md5 code (some v) = do
    s ← ok_or (x.to_str v) (new_error code (bytes "invalid Content-MD5 header"))
    decoded ← ok_or (x.base64_decode s) (new_error code (bytes "Content-MD5 not valid base64"))
    is_md5_sized code decoded

  -- `parse_content_md5`
  unfoldable pub parse_content_md5 : Headers → Result S3Error (Option Bytes)
  parse_content_md5 headers = content_md5 invalid_request (header (bytes "content-md5") headers)

  abbrev user_header : Bytes → Bytes → Option (Bytes × Bytes)
  user_header name v = elim (strip_prefix (bytes "x-amz-meta-") name) [
    | none ↦ none
    | some suffix ↦ elim (x.to_str v) [ none ↦ none | some value ↦ some (suffix, value) ]
  ]

  abbrev insert_user : StringMap → Option (Bytes × Bytes) → StringMap
  insert_user out none = out
  insert_user out (some (suffix, value)) = upsert bytes_order suffix value out

  -- The loop of `extract_user_metadata` over the map that it fills, which is first empty.
  unfoldable pub extract_user_metadata : StringMap → Headers → StringMap
  extract_user_metadata out [] = out
  extract_user_metadata out ((name, v) ∷ headers) =
      extract_user_metadata (insert_user out (user_header name v)) headers

  abbrev insert_tag : StringMap → Bytes → Bytes → StringMap
  insert_tag out key value = if is_blank key then out else upsert bytes_order key value out

  -- The loop of `parse_x_amz_tagging`.
  unfoldable pub insert_tags : StringMap → List Bytes → StringMap
  insert_tags out [] = out
  insert_tags out (pair ∷ pairs) =
      insert_tags
        (insert_tag out (url_percent_decode x.from_utf8_lossy (key_value pair).0)
          (url_percent_decode x.from_utf8_lossy (key_value pair).1))
        pairs

  abbrev tagging_of : Option Bytes → Result S3Error StringMap
  tagging_of none = ok []
  tagging_of (some v) = do
    raw ← ok_or (x.to_str v) (new_error invalid_request (bytes "invalid x-amz-tagging header"))
    ok (if is_blank raw then [] else insert_tags [] (split 0x26 raw))

  -- `parse_x_amz_tagging`
  unfoldable pub parse_x_amz_tagging : Headers → Result S3Error StringMap
  parse_x_amz_tagging headers = tagging_of (header (bytes "x-amz-tagging") headers)

  abbrev date_header : Headers → Bytes → Option Time
  date_header headers name = elim (header_string x headers name) [
    | none ↦ none
    | some s ↦ parse_http_date x s
  ]

  -- A test of a value that is there.
  abbrev pub on_some : {A : Type 0} → Option A → (A → Bool) → Bool
  on_some none test = false
  on_some (some a) test = test a

  -- `evaluate_preconditions`: `none` where the request goes on
  unfoldable pub evaluate_preconditions : Headers → Bytes → Time → Bytes → Bytes → Option Response
  evaluate_preconditions headers etag last_modified bucket key =
      let failed : Bytes → Response = λ message.
        into_response x
          (with_resource (new_error precondition_failed message) (object_resource bucket key)) in
      if on_some (header_string x headers (bytes "if-match")) (λ im. not (etag_matches im etag))
      then some (failed (bytes "If-Match failed"))
      else if on_some (header_string x headers (bytes "if-none-match"))
          (λ inm. etag_matches inm etag)
      then some (plain_response 304)
      else if on_some (date_header headers (bytes "if-unmodified-since")) (λ t. ltb t last_modified)
      then some (failed (bytes "If-Unmodified-Since failed"))
      else if on_some (date_header headers (bytes "if-modified-since")) (λ t. leb last_modified t)
      then some (plain_response 304)
      else none
