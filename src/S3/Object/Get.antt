-- ===== src/S3/Object/Get.antt =====
-- src/s3/object.rs: `get_or_head_object`. It leaves the state as it is.
use s3lite.Common.{
  ℕ, ◌+◌, ◌-◌, leb, ltb, ◌&&◌, Bool, true, false, Option, none, some, List, [], ◌∷◌, ◌++◌, Result,
  ok, err, ◌>>=◌, ok_or, if◌then◌else◌,
}
use s3lite.Common.Order.{Bytes}
use s3lite.Common.Text.{bytes, length, take, drop}
use s3lite.Storage.Manifest.{ManifestKind, object, tombstone, Manifest, StringMap, PartRef}
use s3lite.Storage.Engine.{Engine, Db}
use s3lite.Storage.PartStore.{Files, open_read}
use s3lite.Storage.Actor.Manifests.{handle_get_manifest}
use s3lite.Storage.Actor.Scan.{handle_get_latest_version, is_committed}
use s3lite.S3.Error.{S3Error, new_error, with_resource, internal_error, invalid_request}
use s3lite.S3.Text.{decimal}
use s3lite.S3.Lock.{map_err, map_meta_err, object_resource}
use s3lite.S3.Request.{evaluate_preconditions, parse_range_header}
use s3lite.S3.World.{
  Headers, External, World, Fault, Response, faulting, or_panic, set_header, etag_of,
  format_http_date,
}
use s3lite.S3.Object.{key_of, no_such_key_error, require_bucket}
use s3lite.S3.Checksum.{set_checksum}

-- `.filter(|m| matches!(m.state, ManifestState::Committed))`
abbrev pub committed_only : Option Manifest → Option Manifest
committed_only none = none
committed_only (some m) = if is_committed m.state then some m else none

-- `&buf[start..=end]`; `none` where it panics
abbrev pub slice : Bytes → ℕ → ℕ → Option Bytes
slice buf start end =
    if leb start (end + 1) && ltb end (length buf)
    then some (take (end + 1 - start) (drop start buf))
    else none

abbrev pub slice_range : Bytes → Option (ℕ × ℕ) → Option Bytes
slice_range buf none = some buf
slice_range buf (some (start, end)) = slice buf start end

module _ (x : External) where
  abbrev pub append_file :
      Bytes → Option Bytes → (Bytes → Result S3Error Bytes) → Result S3Error Bytes
  append_file buf none go_on =
      err (new_error internal_error (bytes "part open: " ++ x.show_not_found))
  append_file buf (some content) go_on = go_on (buf ++ content)

  -- `for part_ref in &manifest.parts { .. file.read_to_end(&mut buf) .. }`
  unfoldable pub read_parts : Files → Bytes → List PartRef → Result S3Error Bytes
  read_parts files buf [] = ok buf
  read_parts files buf (p ∷ parts) =
      append_file buf (open_read files p.hash) (λ buf'. read_parts files buf' parts)

  -- `body_bytes`
  unfoldable pub read_body : Files → Manifest → Option (ℕ × ℕ) → Bool → Result Fault Bytes
  read_body files m range true = ok []
  read_body files m range false = do
    buf ← faulting (read_parts files [] m.parts)
    or_panic (slice_range buf range)

  abbrev set_range : Manifest → Option (ℕ × ℕ) → Headers → Headers
  set_range m none h = set_header x (bytes "content-length") (decimal m.size) h
  set_range m (some (start, end)) h =
      set_header x (bytes "content-length") (decimal (end - start + 1)) (
        set_header x (bytes "content-range")
          (bytes "bytes "
            ++ (decimal start ++ (bytes "-" ++ (decimal end ++ (bytes "/" ++ decimal m.size)))))
          h)

  abbrev or_octets : Option Bytes → Bytes
  or_octets (some ct) = ct
  or_octets none = bytes "binary/octet-stream"

  -- A checksum goes out with a whole object only.
  abbrev set_full_checksum : Manifest → Option (ℕ × ℕ) → Headers → Headers
  set_full_checksum m none h = set_checksum x m.additional_checksum h
  set_full_checksum m (some range) h = h

  unfoldable pub set_user_metadata : StringMap → Headers → Headers
  set_user_metadata [] h = h
  set_user_metadata ((k, v) ∷ rest) h =
      set_user_metadata rest (set_header x (bytes "x-amz-meta-" ++ k) v h)

  abbrev status_of : Option (ℕ × ℕ) → ℕ
  status_of none = 200
  status_of (some range) = 206

  -- The headers of a response with the object.
  unfoldable pub object_headers : Manifest → Bytes → Option (ℕ × ℕ) → Headers
  object_headers m etag range =
      let h = set_header x (bytes "etag") etag [] in
      let h = set_header x (bytes "last-modified") (format_http_date x m.last_modified) h in
      let h = set_header x (bytes "x-amz-version-id") m.key.version_id h in
      let h = set_header x (bytes "content-type") (or_octets m.content_type) h in
      let h = set_range m range h in
      let h = set_header x (bytes "accept-ranges") (bytes "bytes") h in
      let h = set_header x (bytes "x-amz-storage-class") m.storage_class h in
      set_user_metadata m.user_metadata (set_full_checksum m range h)

  -- The object's response where no precondition ends the request.
  unfoldable pub send_object : Files → Manifest → Bytes → Headers → Bool → Result Fault Response
  send_object files m etag headers body_only_headers = do
    range ← faulting (parse_range_header x headers m.size)
    body ← read_body files m range body_only_headers
    ok (record { status = status_of range; headers = object_headers m etag range; body = body })

  abbrev pub or_send : Option Response → Result Fault Response → Result Fault Response
  or_send (some short_circuit) send = ok short_circuit
  or_send none send = send

  abbrev pub answer_object :
      Files → Bytes → Bytes → Manifest → Headers → Bool → Result Fault Response
  answer_object files bucket key m headers body_only_headers = do
    etag ← or_panic (etag_of x m)
    or_send (evaluate_preconditions x headers etag m.last_modified bucket key)
        (send_object files m etag headers body_only_headers)

  -- What becomes of the manifest that was found.
  abbrev pub answer_manifest :
      Files
      → Bytes
      → Bytes
      → Option Bytes
      → Manifest
      → ManifestKind
      → Headers
      → Bool
      → Result Fault Response
  answer_manifest files bucket key none m tombstone headers body_only_headers =
      err (Fault.s3_error (no_such_key_error bucket key))
  answer_manifest files bucket key (some vid) m tombstone headers body_only_headers = err (
      Fault.s3_error (
        with_resource (new_error invalid_request (bytes "the specified version is a delete marker"))
          (object_resource bucket key)))
  answer_manifest files bucket key version_id m object headers body_only_headers =
      answer_object files bucket key m headers body_only_headers

  module _ (e : Engine) where
    abbrev pub find_manifest : Db e → Bytes → Bytes → Option Bytes → Result S3Error Manifest
    find_manifest db bucket key (some vid) = do
      row ← map_err (map_meta_err x.formats) (handle_get_manifest e db (key_of bucket key vid))
      ok_or (committed_only row) (no_such_key_error bucket key)
    find_manifest db bucket key none = do
      row ← map_err (map_meta_err x.formats) (handle_get_latest_version e db bucket key)
      ok_or row (no_such_key_error bucket key)

    -- `get_or_head_object`
    unfoldable pub get_or_head_object :
        World e → Bytes → Bytes → Option Bytes → Headers → Bool → Result Fault Response
    get_or_head_object w bucket key version_id headers body_only_headers = do
      _ ← faulting (require_bucket e x.formats w.db bucket)
      m ← faulting (find_manifest w.db bucket key version_id)
      answer_manifest w.files bucket key version_id m m.kind headers body_only_headers
