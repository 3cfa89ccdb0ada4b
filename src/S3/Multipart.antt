-- ===== src/S3/Multipart.antt =====
-- src/s3/multipart.rs: multipart uploads, with their documents of src/s3/xml.rs. A handler runs without
-- another request in between; `read_complete` is quick_xml's reader with the text of its error.
pub mod Chosen
pub mod Committed
use s3lite.Common.{
  ℕ, ◌==◌, ltb, leb, not, ◌||◌, Bool, true, false, Option, none, some, List, [], ◌∷◌, ◌++◌, Result,
  ok, err, ◌>>=◌, ok_or, if◌then◌else◌,
}
use s3lite.Common.Order.{Bytes, bytes_order, same}
use s3lite.Common.Text.{bytes}
use s3lite.Storage.Manifest.{
  Time, ManifestKey, Manifest, PartRef, ManifestState, in_progress, committed, aborted, object,
  multipart, DeletionEffect,
}
use s3lite.Storage.Manifest.Etag.{quote}
use s3lite.Storage.Errors.{MetaError, manifest_not_found}
use s3lite.Storage.Engine.{Engine, Db}
use s3lite.Storage.PartStore.{PartWriteResult, write_stream}
use s3lite.Storage.Actor.Manifests.{handle_get_manifest, handle_append_part, find_part, sum_sizes}
use s3lite.Storage.Actor.Multipart.{handle_complete_multipart, is_in_progress}
use s3lite.S3.Error.{
  S3Error, new_error, with_resource, invalid_argument, bad_digest, no_such_upload,
}
use s3lite.S3.Text.{trim, decimal}
use s3lite.S3.Lock.{Formats, map_err, map_meta_err, object_resource}
use s3lite.S3.Request.{content_md5, extract_user_metadata}
use s3lite.S3.World.{
  Headers, header, External, object_created_complete_multipart_upload, World, Fault, Response,
  plain_response, faulting, or_panic, header_string, set_header, etag_of,
}
use s3lite.S3.Object.{
  Moment, null_version_id, key_of, and_then, and_go, collected, emit, put_row, delete_row,
  require_bucket,
}

pub record InitiateMultipartUploadResult : Type 0 where
  pub bucket : Bytes
  pub key : Bytes
  pub upload_id : Bytes

pub record CompletePart : Type 0 where
  pub part_number : ℕ
  pub etag : Bytes

pub record CompleteMultipartUploadRequest : Type 0 where
  pub parts : List CompletePart

pub record CompleteMultipartUploadResult : Type 0 where
  pub location : Bytes
  pub bucket : Bytes
  pub key : Bytes
  pub etag : Bytes

pub record ListPartsPart : Type 0 where
  pub part_number : ℕ
  pub etag : Bytes
  pub size : ℕ
  pub last_modified : Bytes

pub record ListPartsResult : Type 0 where
  pub bucket : Bytes
  pub key : Bytes
  pub upload_id : Bytes
  pub max_parts : ℕ
  pub is_truncated : Bool
  pub parts : List ListPartsPart

-- `no_such_upload`
abbrev pub no_such_upload_error : Bytes → Bytes → Bytes → S3Error
no_such_upload_error bucket key upload_id =
    with_resource
      (new_error no_such_upload (bytes "upload id " ++ (upload_id ++ bytes " not found")))
      (object_resource bucket key)

abbrev invalid : Bytes → S3Error
invalid message = new_error invalid_argument message

-- `.filter(|m| matches!(m.state, ManifestState::InProgress))`
abbrev pub in_progress_only : Option Manifest → Option Manifest
in_progress_only none = none
in_progress_only (some m) = if is_in_progress m.state then some m else none

-- The loop that checks the order of the part numbers.
unfoldable pub check_sorted : ℕ → List CompletePart → Result S3Error (Unit {0})
check_sorted last_n [] = ok tt
check_sorted last_n (p ∷ parts) =
    let rest = check_sorted p.part_number parts in
    if leb p.part_number last_n
    then err (invalid (bytes "CompleteMultipartUpload parts must be sorted by part number"))
    else rest

module _ (x : External) where
  -- `map_upload_meta_err`
  unfoldable pub map_upload_meta_err : Bytes → Bytes → Bytes → MetaError → S3Error
  map_upload_meta_err bucket key upload_id (manifest_not_found k) =
      no_such_upload_error bucket key upload_id
  map_upload_meta_err bucket key upload_id y = map_meta_err x.formats y

  -- The part that is stored for one of the request.
  abbrev pub select_part : Bytes → Bytes → List PartRef → CompletePart → Result S3Error PartRef
  select_part bucket key parts req_part = do
    stored ← ok_or (find_part req_part.part_number parts) (
        with_resource
          (new_error invalid_argument
            (bytes "part " ++ (decimal req_part.part_number ++ bytes " not found in upload")))
          (object_resource bucket key))
    if not (same bytes_order (trim req_part.etag) (quote (x.hex stored.md5)))
        then err (
            with_resource
              (new_error invalid_argument
                (bytes "ETag mismatch on part " ++ decimal req_part.part_number))
              (object_resource bucket key))
        else ok stored

  -- `selected`
  unfoldable pub select_parts :
      Bytes → Bytes → List PartRef → List CompletePart → Result S3Error (List PartRef)
  select_parts bucket key parts [] = ok []
  select_parts bucket key parts (req_part ∷ request) = do
    stored ← select_part bucket key parts req_part
    selected ← select_parts bucket key parts request
    ok (stored ∷ selected)

  -- `parse_content_md5` of this file
  unfoldable pub parse_upload_md5 : Headers → Result S3Error (Option Bytes)
  parse_upload_md5 headers = content_md5 x invalid_argument (header (bytes "content-md5") headers)

  abbrev upload_md5 : Bytes → Option Bytes → Bytes → Result S3Error (Unit {0})
  upload_md5 resource none body = ok tt
  upload_md5 resource (some expected) body =
      if not (same bytes_order expected (x.md5.digest body))
      then err (with_resource (new_error bad_digest (bytes "Content-MD5 mismatch")) resource)
      else ok tt

  -- What `upload_part` checks before the body is written.
  unfoldable pub check_part : Bytes → Bytes → ℕ → Headers → Bytes → Result S3Error (Unit {0})
  check_part bucket key part_number headers body =
      let resource = object_resource bucket key in
      if part_number == 0 || ltb 10000 part_number
      then err (with_resource (invalid (bytes "part-number must be between 1 and 10000")) resource)
      else do md5 ← parse_upload_md5 headers; upload_md5 resource md5 body

  -- The manifest of a completed upload.
  abbrev pub completed : ManifestKey → Manifest → List PartRef → Time → Manifest
  completed key upload selected now = record {
    key = key;
    state = committed;
    kind = object;
    upload_mode = multipart;
    parts = selected;
    size = sum_sizes selected;
    content_type = upload.content_type;
    user_metadata = upload.user_metadata;
    tags = upload.tags;
    additional_checksum = upload.additional_checksum;
    storage_class = upload.storage_class;
    object_lock = upload.object_lock;
    created_at = upload.created_at;
    last_modified = now;
    upload_id = none;
  }

  unfoldable pub list_part : Manifest → List PartRef → List ListPartsPart
  list_part m [] = []
  list_part m (p ∷ parts) =
      record {
        part_number = p.part_number;
        etag = quote (x.hex p.md5);
        size = p.size;
        last_modified = elim (x.formats.format_date m.last_modified) [ some s ↦ s | none ↦ [] ];
      }
      ∷ list_part m parts

  module _ (e : Engine) where
    -- The upload in progress that the handlers start from.
    unfoldable pub find_upload : Db e → Bytes → Bytes → Bytes → Result S3Error Manifest
    find_upload db bucket key upload_id = do
      row ←
          map_err (map_meta_err x.formats) (handle_get_manifest e db (key_of bucket key upload_id))
      ok_or (in_progress_only row) (no_such_upload_error bucket key upload_id)

    abbrev upload_row : Bytes → Bytes → Headers → Moment → Manifest
    upload_row bucket key headers moment = record {
      key = key_of bucket key moment.uuid;
      state = in_progress;
      kind = object;
      upload_mode = multipart;
      parts = [];
      size = 0;
      content_type = header_string x headers (bytes "content-type");
      user_metadata = extract_user_metadata x [] headers;
      tags = [];
      additional_checksum = none;
      storage_class = bytes "STANDARD";
      object_lock = none;
      created_at = moment.now;
      last_modified = moment.now;
      upload_id = some moment.uuid;
    }

    -- What a handler answers after its message to the actor.
    abbrev pub answer_with :
        {A : Type 0}
        → (MetaError → S3Error)
        → Result MetaError (Unit {0}) × World e
        → A
        → Result Fault A × World e
    answer_with f (ok u, w) answer = (ok answer, w)
    answer_with f (err y, w) answer = (err (Fault.s3_error (f y)), w)

    -- `create_multipart_upload`
    unfoldable pub create_multipart_upload :
        World e
        → Bytes
        → Bytes
        → Headers
        → Moment
        → Result Fault InitiateMultipartUploadResult × World e
    create_multipart_upload w bucket key headers moment =
        and_then (require_bucket e x.formats w.db bucket) w (λ cfg.
          answer_with (map_meta_err x.formats)
            (put_row e w (upload_row bucket key headers moment) moment.actor_now)
            (record { bucket = bucket; key = key; upload_id = moment.uuid }))

    abbrev append_written :
        World e
        → Bytes
        → Bytes
        → Bytes
        → ℕ
        → PartWriteResult
        → Time
        → Time
        → Result Fault Response × World e
    append_written w bucket key upload_id part_number part now later =
        answer_with (map_upload_meta_err bucket key upload_id)
          (collected e w (
            handle_append_part e w.db (key_of bucket key upload_id)
              (record {
                part_number = part_number;
                hash = part.hash;
                md5 = part.md5;
                size = part.size;
              })
              now later))
          (record (plain_response 200) {
            headers = set_header x (bytes "etag") (quote (x.hex part.md5)) [];
          })

    -- `upload_part`; the actor reads the clock twice.
    unfoldable pub upload_part :
        World e
        → Bytes
        → Bytes
        → Bytes
        → ℕ
        → Headers
        → Bytes
        → Time
        → Time
        → Result Fault Response × World e
    upload_part w bucket key upload_id part_number headers body now later =
        and_then (check_part bucket key part_number headers body) w (λ checked.
          let (part, files) = write_stream x.blake3 x.md5 w.files (x.reads body) in
          append_written (record w { files = files }) bucket key upload_id part_number part now
            later)

    -- `abort_multipart_upload`
    unfoldable pub abort_multipart_upload :
        World e → Bytes → Bytes → Bytes → Result Fault Response × World e
    abort_multipart_upload w bucket key upload_id =
        and_then (find_upload w.db bucket key upload_id) w (λ upload.
          answer_with (map_meta_err x.formats) (delete_row e w (key_of bucket key upload_id))
            (plain_response 204))

    -- `list_parts`
    unfoldable pub list_parts : Db e → Bytes → Bytes → Bytes → Result S3Error ListPartsResult
    list_parts db bucket key upload_id = do
      upload ← find_upload db bucket key upload_id
      ok (record {
        bucket = bucket;
        key = key;
        upload_id = upload_id;
        max_parts = 1000;
        is_truncated = false;
        parts = list_part upload upload.parts;
      })

    module _ (read_complete : Bytes → Result Bytes CompleteMultipartUploadRequest) where
      abbrev pub not_empty : List CompletePart → Result S3Error (Unit {0})
      not_empty [] = err (invalid (bytes "CompleteMultipartUpload must list at least one part"))
      not_empty (p ∷ parts) = ok tt

      abbrev pub malformed : Bytes → S3Error
      malformed y = invalid (bytes "malformed CompleteMultipartUpload body: " ++ y)

      -- The manifest that `complete_multipart_upload` commits.
      unfoldable pub complete_plan :
          Db e → Bytes → Bytes → Bytes → Bytes → Time → Result S3Error Manifest
      complete_plan db bucket key upload_id body now = do
        request ← map_err malformed (read_complete body)
        _ ← not_empty request.parts
        _ ← check_sorted 0 request.parts
        upload ← find_upload db bucket key upload_id
        selected ← select_parts bucket key upload.parts request.parts
        ok (completed (key_of bucket key null_version_id) upload selected now)

      abbrev pub finish_complete :
          Bytes
          → Bytes
          → Manifest
          → Bytes
          → Result MetaError (Unit {0}) × World e
          → Result Fault CompleteMultipartUploadResult × World e
      finish_complete bucket key m etag (err y, w) =
          (err (Fault.s3_error (map_meta_err x.formats y)), w)
      finish_complete bucket key m etag (ok u, w) = (
        ok (record {
          location = object_resource bucket key;
          bucket = bucket;
          key = key;
          etag = etag;
        }),
        emit e w (record {
          event_type = object_created_complete_multipart_upload;
          bucket = bucket;
          key = key;
          size = m.size;
          etag = etag;
          version_id = none;
        }),
      )

      -- `complete_multipart_upload`
      unfoldable pub complete_multipart_upload :
          World e
          → Bytes
          → Bytes
          → Bytes
          → Bytes
          → Time
          → Time
          → Result Fault CompleteMultipartUploadResult × World e
      complete_multipart_upload w bucket key upload_id body now actor_now =
          and_then (complete_plan w.db bucket key upload_id body now) w (λ m.
            and_go (or_panic (etag_of x m)) w (λ etag. finish_complete bucket key m etag (
              collected e w
                (handle_complete_multipart e w.db (key_of bucket key upload_id) m actor_now))))
