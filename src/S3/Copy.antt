-- ===== src/S3/Copy.antt =====
-- src/s3/copy.rs: copies on the server, with their documents of src/s3/xml.rs. A handler runs without
-- another request in between. An answer is the document with the headers that are set beside it.
pub mod Payload
pub mod Slices
use s3lite.Common.{
  ℕ, ◌==◌, ◌+◌, ◌-◌, ◌^◌, ◌%◌, ltb, leb, not, ◌||◌, ◌&&◌, Bool, true, false, Option, none, some,
  List, [], ◌∷◌, ◌++◌, Result, ok, err, ◌>>=◌, ok_or, if◌then◌else◌,
}
use s3lite.Common.Order.{Bytes, bytes_order, same}
use s3lite.Common.Text.{bytes, length, take, drop}
use s3lite.Storage.Manifest.{
  Time, ManifestKey, Manifest, PartRef, StringMap, BucketConfig, VersioningState, committed, object,
}
use s3lite.Storage.Manifest.Etag.{quote}
use s3lite.Storage.Errors.{MetaError}
use s3lite.Storage.Engine.{Engine, Db}
use s3lite.Storage.PartStore.{Files, PartWriteResult, open_read, write_stream}
use s3lite.Storage.Actor.Buckets.{handle_get_bucket}
use s3lite.Storage.Actor.Manifests.{handle_get_manifest, handle_append_part}
use s3lite.Storage.Actor.Scan.{handle_get_latest_version}
use s3lite.S3.Error.{
  S3Error, new_error, with_resource, invalid_argument, internal_error, no_such_bucket, no_such_key,
}
use s3lite.S3.Text.{is_blank, split, split_once, strip_prefix, parse_u64}
use s3lite.S3.Percent.{percent_decode}
use s3lite.S3.Lock.{map_err, map_meta_err, bucket_resource, object_resource, current_object}
use s3lite.S3.Request.{extract_user_metadata}
use s3lite.S3.World.{
  Headers, External, object_created_copy, World, Fault, faulting, or_panic, header_string,
  set_header, etag_of,
}
use s3lite.S3.Object.{
  Moment, next_version_id, if_enabled, key_of, and_then, and_go, collected, emit, put_row,
}
use s3lite.S3.Multipart.{map_upload_meta_err}

pub record CopySource : Type 0 where
  pub bucket : Bytes
  pub key : Bytes
  pub version_id : Option Bytes

pub record CopyObjectResult : Type 0 where
  pub etag : Bytes
  pub last_modified : Bytes

pub record CopyPartResult : Type 0 where
  pub etag : Bytes
  pub last_modified : Bytes

abbrev invalid : Bytes → S3Error
invalid message = new_error invalid_argument message

-- `raw.strip_prefix('/').unwrap_or(raw)`
abbrev strip_slash : Bytes → Bytes
strip_slash raw = elim (strip_prefix (bytes "/") raw) [ some rest ↦ rest | none ↦ raw ]

-- `trimmed.split_once('?')`, with the part behind it where there is one
abbrev path_and_version : Bytes → Bytes × Option Bytes
path_and_version trimmed = elim (split_once 0x3f trimmed) [
  | some pair ↦ (pair.0, some pair.1)
  | none ↦ (trimmed, none)
]

abbrev pub bounds_of : ℕ → ℕ → ℕ → Result S3Error (ℕ × ℕ)
bounds_of source_size start end =
    if source_size == 0
    then err (invalid (bytes "source object is empty"))
    else if ltb end start || leb source_size end
    then err (invalid (bytes "copy-source-range out of bounds"))
    else ok (start, end)

-- `parse_copy_range`
unfoldable pub parse_copy_range : Bytes → ℕ → Result S3Error (ℕ × ℕ)
parse_copy_range value source_size = do
  spec ←
      ok_or (strip_prefix (bytes "bytes=") value)
        (invalid (bytes "x-amz-copy-source-range must use bytes unit"))
  pair ← ok_or (split_once 0x2d spec) (invalid (bytes "x-amz-copy-source-range must contain '-'"))
  if is_blank pair.0 || is_blank pair.1
      then err (invalid (bytes "x-amz-copy-source-range must be inclusive bytes=N-M"))
      else do
        start ← ok_or (parse_u64 pair.0) (invalid (bytes "invalid copy-source-range start"))
        end ← ok_or (parse_u64 pair.1) (invalid (bytes "invalid copy-source-range end"))
        bounds_of source_size start end

-- `&buf[from..to]`; `none` where it panics
abbrev pub slice_to : Bytes → ℕ → ℕ → Option Bytes
slice_to buf from to =
    if leb from to && leb to (length buf) then some (drop from (take to buf)) else none

-- `local_start` and `local_end_exclusive`
abbrev pub local_start : ℕ → ℕ → ℕ
local_start part_start start = if ltb part_start start then start - part_start else 0

abbrev pub local_end : ℕ → ℕ → ℕ → ℕ → ℕ
local_end part_start part_end size end = if ltb end part_end then end - part_start + 1 else size

-- `cursor + p.size - 1` in a `u64` that wraps
abbrev pub part_end_of : ℕ → ℕ → ℕ
part_end_of cursor size = (cursor + size + (2 ^ 64 - 1)) % 2 ^ 64

module _ (x : External) where
  -- `find_map` over the pairs of the version part.
  unfoldable pub find_version_id : List Bytes → Option Bytes
  find_version_id [] = none
  find_version_id (pair ∷ pairs) =
      let rest = find_version_id pairs in
      elim (split_once 0x3d pair) [
        | none ↦ rest
        | some kv ↦
            if same bytes_order kv.0 (bytes "versionId")
            then some (percent_decode x.from_utf8_lossy kv.1)
            else rest
      ]

  abbrev source_version : Option Bytes → Option Bytes
  source_version none = none
  source_version (some v) = find_version_id (split 0x26 v)

  -- `parse_copy_source`
  unfoldable pub parse_copy_source : Bytes → Result S3Error CopySource
  parse_copy_source raw = do
    let (path_part, version_part) = path_and_version (strip_slash raw)
    pair ←
        ok_or (split_once 0x2f path_part) (invalid (bytes "x-amz-copy-source must be bucket/key"))
    if is_blank pair.0 || is_blank pair.1
        then err (invalid (bytes "x-amz-copy-source bucket and key must be non-empty"))
        else ok (record {
          bucket = percent_decode x.from_utf8_lossy pair.0;
          key = percent_decode x.from_utf8_lossy pair.1;
          version_id = source_version version_part;
        })

  -- The content of one part, cut to the range.
  abbrev pub read_slice : Option Bytes → ℕ → ℕ → Result Fault Bytes
  read_slice none from to =
      err
        (Fault.s3_error (new_error internal_error (bytes "source part open: " ++ x.show_not_found)))
  read_slice (some buf) from to = or_panic (slice_to buf from to)

  -- The loop of `read_source_range`.
  unfoldable pub read_source_parts : Files → ℕ → ℕ → ℕ → Bytes → List PartRef → Result Fault Bytes
  read_source_parts files start end cursor out [] = ok out
  read_source_parts files start end cursor out (p ∷ parts) =
      let part_end = part_end_of cursor p.size in
      let next = (cursor + p.size) % 2 ^ 64 in
      let skipped = read_source_parts files start end next out parts in
      if ltb part_end start || ltb end cursor
      then skipped
      else read_slice (open_read files p.hash) (local_start cursor start)
          (local_end cursor part_end p.size end)
        >>= λ piece. read_source_parts files start end next (out ++ piece) parts

  -- `read_source_range`
  unfoldable pub read_source_range : Files → Manifest → ℕ → ℕ → Result Fault Bytes
  read_source_range files m start end = read_source_parts files start end 0 [] m.parts

  abbrev is_replace : Headers → Bytes → Bool
  is_replace headers name = elim (header_string x headers name) [
    | none ↦ false
    | some directive ↦ same bytes_order directive (bytes "REPLACE")
  ]

  -- The manifest of `copy_object`.
  unfoldable pub copied_manifest : ManifestKey → Manifest → Headers → Time → Manifest
  copied_manifest key source headers now = record {
    key = key;
    state = committed;
    kind = object;
    upload_mode = source.upload_mode;
    parts = source.parts;
    size = source.size;
    content_type =
        if is_replace headers (bytes "x-amz-metadata-directive")
        then header_string x headers (bytes "content-type")
        else source.content_type;
    user_metadata =
        if is_replace headers (bytes "x-amz-metadata-directive")
        then extract_user_metadata x [] headers
        else source.user_metadata;
    tags = if is_replace headers (bytes "x-amz-tagging-directive") then [] else source.tags;
    additional_checksum = source.additional_checksum;
    storage_class = source.storage_class;
    object_lock = none;
    created_at = now;
    last_modified = now;
    upload_id = none;
  }

  abbrev format_iso8601 : Time → Bytes
  format_iso8601 t = elim (x.formats.format_date t) [ some s ↦ s | none ↦ [] ]

  abbrev set_some : Bytes → Option Bytes → Headers → Headers
  set_some name none h = h
  set_some name (some v) h = set_header x name v h

  module _ (e : Engine) where
    abbrev find_source : Db e → CopySource → Option Bytes → Result MetaError (Option Manifest)
    find_source db source (some vid) =
        handle_get_manifest e db (key_of source.bucket source.key vid)
    find_source db source none = handle_get_latest_version e db source.bucket source.key

    -- `resolve_source`
    unfoldable pub resolve_source : Db e → CopySource → Result S3Error Manifest
    resolve_source db source = do
      row ← map_err (map_meta_err x.formats) (find_source db source source.version_id)
      ok_or (current_object row) (
          with_resource (new_error no_such_key (bytes "copy source does not exist"))
            (object_resource source.bucket source.key))

    abbrev destination : Db e → Bytes → Result S3Error BucketConfig
    destination db bucket = do
      found ← map_err (map_meta_err x.formats) (handle_get_bucket e db bucket)
      ok_or found (
          with_resource (new_error no_such_bucket (bytes "destination bucket does not exist"))
            (bucket_resource bucket))

    abbrev finish_copy :
        VersioningState
        → CopySource
        → Manifest
        → Bytes
        → Result MetaError (Unit {0}) × World e
        → Result Fault (CopyObjectResult × Headers) × World e
    finish_copy versioning source m etag (err y, w) =
        (err (Fault.s3_error (map_meta_err x.formats y)), w)
    finish_copy versioning source m etag (ok u, w) = (
      ok (
        record { etag = etag; last_modified = format_iso8601 m.last_modified },
        set_some (bytes "x-amz-copy-source-version-id") source.version_id
            (set_some (bytes "x-amz-version-id") (if_enabled versioning m.key.version_id) []),
      ),
      emit e w (record {
        event_type = object_created_copy;
        bucket = m.key.bucket;
        key = m.key.key;
        size = m.size;
        etag = etag;
        version_id = if_enabled versioning m.key.version_id;
      }),
    )

    -- `copy_object`
    unfoldable pub copy_object :
        World e
        → Bytes
        → Bytes
        → CopySource
        → Headers
        → Moment
        → Result Fault (CopyObjectResult × Headers) × World e
    copy_object w dest_bucket dest_key source headers moment =
        and_then (destination w.db dest_bucket) w (λ cfg.
          and_then (resolve_source w.db source) w (λ source_manifest.
            let key = key_of dest_bucket dest_key (next_version_id cfg.versioning moment.uuid) in
            let m = copied_manifest key source_manifest headers moment.now in
            and_go (or_panic (etag_of x m)) w
              (λ etag. finish_copy cfg.versioning source m etag (put_row e w m moment.actor_now))))

    abbrev pub whole_or_range : Bytes → Bytes → Manifest → Option Bytes → Result S3Error (ℕ × ℕ)
    whole_or_range bucket key m (some r) = parse_copy_range r m.size
    whole_or_range bucket key m none =
        if m.size == 0
        then err (
            with_resource (invalid (bytes "cannot copy a zero-byte source as a part"))
              (object_resource bucket key))
        else ok (0, m.size - 1)

    -- The bytes that `upload_part_copy` stores as a part.
    unfoldable pub copy_payload :
        World e → Bytes → Bytes → ℕ → CopySource → Headers → Result Fault Bytes
    copy_payload w bucket key part_number source headers =
        if part_number == 0 || ltb 10000 part_number
        then err (
            Fault.s3_error (
              with_resource (invalid (bytes "part-number must be between 1 and 10000"))
                (object_resource bucket key)))
        else do
          m ← faulting (resolve_source w.db source)
          range ← faulting (
              whole_or_range bucket key m
                (header_string x headers (bytes "x-amz-copy-source-range")))
          read_source_range w.files m range.0 range.1

    abbrev finish_part :
        Bytes
        → Bytes
        → Bytes
        → CopySource
        → PartWriteResult
        → Time
        → Result MetaError (Unit {0}) × World e
        → Result Fault (CopyPartResult × Headers) × World e
    finish_part bucket key upload_id source part answered (err y, w) =
        (err (Fault.s3_error (map_upload_meta_err x bucket key upload_id y)), w)
    finish_part bucket key upload_id source part answered (ok u, w) = (
      ok (
        record { etag = quote (x.hex part.md5); last_modified = format_iso8601 answered },
        set_some (bytes "x-amz-copy-source-version-id") source.version_id [],
      ),
      w,
    )

    -- `upload_part_copy`: `now` and `later` are the actor's readings of the clock, `answered` the last.
    unfoldable pub upload_part_copy :
        World e
        → Bytes
        → Bytes
        → Bytes
        → ℕ
        → CopySource
        → Headers
        → Time
        → Time
        → Time
        → Result Fault (CopyPartResult × Headers) × World e
    upload_part_copy w bucket key upload_id part_number source headers now later answered =
        and_go (copy_payload w bucket key part_number source headers) w (λ payload.
          let (part, files) = write_stream x.blake3 x.md5 w.files (x.reads payload) in
          finish_part bucket key upload_id source part answered (
            collected e (record w { files = files })
              (handle_append_part e w.db (key_of bucket key upload_id)
                (record {
                  part_number = part_number;
                  hash = part.hash;
                  md5 = part.md5;
                  size = part.size;
                })
                now later)))
