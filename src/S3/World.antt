-- ===== src/S3/World.antt =====
-- The server's state as the handlers of src/s3 see it: the actor's database, the part files and the
-- events handed to the webhook delivery; and what the handlers use of other crates.
use s3lite.Common.{
  ℕ, Bool, true, false, ◌≡◌, Option, none, some, List, [], ◌∷◌, ◌++◌, ◌&&◌, Result, ok, err,
  if◌then◌else◌,
}
use s3lite.Common.Order.{Bytes, bytes_order, same}
use s3lite.Storage.Manifest.{Time, Manifest}
use s3lite.Storage.Manifest.Etag.{etag}
use s3lite.Storage.Engine.{Engine, Db}
use s3lite.Storage.PartStore.{Digest, Files, concat}
use s3lite.Storage.PartStore.Content.{NonEmpty}
use s3lite.S3.Error.{S3Error, status, ErrorXml, error_xml}
use s3lite.S3.Lock.{Formats}
use s3lite.S3.Text.{decimal}
use s3lite.Common.Text.{bytes}

-- `HeaderMap`: the names in lower case, in the order of iteration. A name that occurs twice stands in
-- order of arrival.
abbrev pub Headers : Type 0
Headers = List (Bytes × Bytes)

-- `headers.get(name)`
unfoldable pub header : Bytes → Headers → Option Bytes
header name [] = none
header name ((n, v) ∷ headers) = if same bytes_order n name then some v else header name headers

-- Functions of other crates. `reads` is what a reader over a byte slice returns, one read after the
-- other; `md5` and the rest are digests of whole texts.
pub record External : Type 1 where
  pub formats : Formats
  pub blake3 : Digest
  pub md5 : Digest
  pub hex : Bytes → Bytes
  pub base64_decode : Bytes → Option Bytes
  pub base64_encode : Bytes → Bytes
  pub crc32 : Bytes → Bytes
  pub crc32c : Bytes → Bytes
  pub sha1 : Bytes → Bytes
  pub sha256 : Bytes → Bytes
  -- `HeaderValue::to_str().ok()`
  pub to_str : Bytes → Option Bytes
  -- the text of the I/O error that a file is not there
  pub show_not_found : Bytes
  -- whether `HeaderName::try_from` and `HeaderValue::from_str` succeed
  pub is_header_name : Bytes → Bool
  pub is_header_value : Bytes → Bool
  -- what quick_xml writes of an error, and whether it got to the end
  pub write_error_xml : ErrorXml → Bytes × Bool
  pub from_utf8_lossy : Bytes → Bytes
  -- dates in the format of HTTP, by the crate time
  pub format_imf : Time → Option Bytes
  pub parse_imf : Bytes → Option Time
  pub reads : Bytes → List Bytes
  pub reads_all : (content : Bytes) → concat (reads content) ≡ content
  pub reads_NonEmpty : (content : Bytes) → NonEmpty (reads content)

-- src/config.rs: `EventType`
pub data EventType : Type 0 where
  object_created_put object_created_post object_created_copy : EventType
  object_created_complete_multipart_upload : EventType
  object_removed_delete object_removed_delete_marker_created : EventType

-- src/s3/events.rs: `ObjectEvent`
pub record ObjectEvent : Type 0 where
  pub event_type : EventType
  pub bucket : Bytes
  pub key : Bytes
  pub size : ℕ
  pub etag : Bytes
  pub version_id : Option Bytes

pub record World (e : Engine) : Type 0 where
  pub db : Db e
  pub files : Files
  pub emitted : List ObjectEvent

-- What ends a handler early: an error response, or a panic.
pub data Fault : Type 0 where
  s3_error : S3Error → Fault
  panicked : Fault

-- A response: its status, its headers and its body.
pub record Response : Type 0 where
  pub status : ℕ
  pub headers : Headers
  pub body : Bytes

abbrev pub plain_response : ℕ → Response
plain_response status = record { status = status; headers = []; body = [] }

-- `h.insert(name, value)`: the values under the name give way.
unfoldable pub insert_header : Bytes → Bytes → Headers → Headers
insert_header name value [] = (name, value) ∷ []
insert_header name value ((n, v) ∷ headers) =
    let rest = insert_header name value headers in
    if same bytes_order n name then (name, value) ∷ headers else (n, v) ∷ rest

-- A result of a part that cannot panic.
abbrev pub faulting {ℓ} : {T : Type ℓ} → Result S3Error T → Result Fault T
faulting (ok t) = ok t
faulting (err x) = err (s3_error x)

-- `None` where the code panics.
abbrev pub or_panic {ℓ} : {T : Type ℓ} → Option T → Result Fault T
or_panic (some t) = ok t
or_panic none = err panicked

module _ (x : External) where
  -- `headers.get(name).and_then(|v| v.to_str().ok())`
  unfoldable pub header_string : Headers → Bytes → Option Bytes
  header_string headers name = elim (header name headers) [ some v ↦ x.to_str v | none ↦ none ]

  -- `set_header`
  unfoldable pub set_header : Bytes → Bytes → Headers → Headers
  set_header name value h =
      if x.is_header_name name && x.is_header_value value then insert_header name value h else h

  -- `Manifest::etag`; `none` where it panics
  abbrev pub etag_of : Manifest → Option Bytes
  etag_of m = etag x.md5 x.hex decimal m.upload_mode m.parts

  -- `format_http_date`, in which a failure gives the empty text
  unfoldable pub format_http_date : Time → Bytes
  format_http_date t = elim (x.format_imf t) [ some s ↦ s | none ↦ [] ]

  -- `parse_http_date`
  unfoldable pub parse_http_date : Bytes → Option Time
  parse_http_date s = elim (x.parse_imf s) [ some t ↦ some t | none ↦ x.formats.parse_date s ]

  abbrev xml_body : Bytes × Bool → Bytes
  xml_body (body, true) = bytes "<?xml version=\"1.0\" encoding=\"UTF-8\"?>" ++ body
  xml_body (body, false) =
      bytes "<?xml version=\"1.0\" encoding=\"UTF-8\"?>"
      ++ (body ++ bytes "<Error><Code>InternalError</Code></Error>")

  abbrev insert_text : Bytes → Bytes → Headers → Headers
  insert_text name value h = if x.is_header_value value then insert_header name value h else h

  -- `S3Error::into_response`
  unfoldable pub into_response : S3Error → Response
  into_response error =
      let payload = error_xml error in
      record {
        status = status error.code;
        headers = insert_text (bytes "x-amz-id-2") payload.host_id (
            insert_text (bytes "x-amz-request-id") payload.request_id
              ((bytes "content-type", bytes "application/xml") ∷ []));
        body = xml_body (x.write_error_xml payload);
      }
