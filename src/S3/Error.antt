-- ===== src/S3/Error.antt =====
-- src/http/error.rs: the error codes of the S3 interface with their HTTP status, and the error value
-- that handlers return.
use s3lite.Common.{ℕ, Option, none, some, []}
use s3lite.Common.Order.{Bytes}
use s3lite.Common.Text.{bytes}

pub data S3ErrorCode : Type 0 where
  access_denied signature_does_not_match invalid_access_key_id request_time_too_skewed : S3ErrorCode
  authorization_header_malformed missing_security_header invalid_request : S3ErrorCode
  not_implemented internal_error no_such_bucket bucket_already_exists : S3ErrorCode
  bucket_already_owned_by_you bucket_not_empty no_such_key no_such_upload : S3ErrorCode
  invalid_argument bad_digest precondition_failed not_modified invalid_bucket_name : S3ErrorCode
  no_such_cors_configuration no_such_lifecycle_configuration access_forbidden : S3ErrorCode

-- The number of the `StatusCode`.
unfoldable pub status : S3ErrorCode → ℕ
status access_denied = 403
status signature_does_not_match = 403
status invalid_access_key_id = 403
status request_time_too_skewed = 403
status authorization_header_malformed = 403
status missing_security_header = 403
status invalid_request = 400
status invalid_argument = 400
status bad_digest = 400
status invalid_bucket_name = 400
status not_implemented = 501
status internal_error = 500
status no_such_bucket = 404
status no_such_key = 404
status no_such_upload = 404
status bucket_already_exists = 409
status bucket_already_owned_by_you = 409
status bucket_not_empty = 409
status precondition_failed = 412
status not_modified = 304
status no_such_cors_configuration = 404
status no_such_lifecycle_configuration = 404
status access_forbidden = 403

unfoldable pub as_str : S3ErrorCode → Bytes
as_str access_denied = bytes "AccessDenied"
as_str signature_does_not_match = bytes "SignatureDoesNotMatch"
as_str invalid_access_key_id = bytes "InvalidAccessKeyId"
as_str request_time_too_skewed = bytes "RequestTimeTooSkewed"
as_str authorization_header_malformed = bytes "AuthorizationHeaderMalformed"
as_str missing_security_header = bytes "MissingSecurityHeader"
as_str invalid_request = bytes "InvalidRequest"
as_str not_implemented = bytes "NotImplemented"
as_str internal_error = bytes "InternalError"
as_str no_such_bucket = bytes "NoSuchBucket"
as_str bucket_already_exists = bytes "BucketAlreadyExists"
as_str bucket_already_owned_by_you = bytes "BucketAlreadyOwnedByYou"
as_str bucket_not_empty = bytes "BucketNotEmpty"
as_str no_such_key = bytes "NoSuchKey"
as_str no_such_upload = bytes "NoSuchUpload"
as_str invalid_argument = bytes "InvalidArgument"
as_str bad_digest = bytes "BadDigest"
as_str precondition_failed = bytes "PreconditionFailed"
as_str not_modified = bytes "NotModified"
as_str invalid_bucket_name = bytes "InvalidBucketName"
as_str no_such_cors_configuration = bytes "NoSuchCORSConfiguration"
as_str no_such_lifecycle_configuration = bytes "NoSuchLifecycleConfiguration"
as_str access_forbidden = bytes "AccessForbidden"

-- src/http/request_context.rs
pub record RequestId : Type 0 where
  pub request_id : Bytes
  pub host_id : Bytes

pub record S3Error : Type 0 where
  pub code : S3ErrorCode
  pub message : Bytes
  pub resource : Option Bytes
  pub request_id : Option RequestId

-- `S3Error::new`
abbrev pub new_error : S3ErrorCode → Bytes → S3Error
new_error code message = record {
  code = code;
  message = message;
  resource = none;
  request_id = none;
}

-- `S3Error::with_resource`
abbrev pub with_resource : S3Error → Bytes → S3Error
with_resource error resource = record error { resource = some resource }

-- The document that an error is printed as.
pub record ErrorXml : Type 0 where
  pub code : Bytes
  pub message : Bytes
  pub resource : Bytes
  pub request_id : Bytes
  pub host_id : Bytes

abbrev or_blank : Option Bytes → Bytes
or_blank none = []
or_blank (some s) = s

abbrev request_id_of : Option RequestId → Bytes
request_id_of none = []
request_id_of (some r) = r.request_id

abbrev pub host_id_of : Option RequestId → Bytes
host_id_of none = []
host_id_of (some r) = r.host_id

-- `xml_payload` of `into_response`
abbrev pub error_xml : S3Error → ErrorXml
error_xml x = record {
  code = as_str x.code;
  message = x.message;
  resource = or_blank x.resource;
  request_id = request_id_of x.request_id;
  host_id = host_id_of x.request_id;
}
