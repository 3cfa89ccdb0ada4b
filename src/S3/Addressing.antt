-- ===== src/S3/Addressing.antt =====
-- src/s3/addressing.rs: the bucket and the key that a request's host and path name.
pub mod Names
pub mod Styles
use s3lite.Common.{
  ℕ, suc, leb, ◌==◌, not, ◌&&◌, ◌||◌, Bool, true, false, Option, none, some, List, [], ◌∷◌, ◌++◌,
  Result, ok, err, ◌>>=◌, if◌then◌else◌,
}
use s3lite.Common.Order.{Bytes, bytes_order, same}
use s3lite.Common.Text.{bytes, length, is_prefix}
use s3lite.S3.Text.{is_blank, has_byte, all_bytes, split}
use s3lite.S3.Error.{S3Error, new_error, invalid_bucket_name}

pub record Addressing : Type 0 where
  pub bucket : Option Bytes
  pub key : Option Bytes

-- `host.rsplit_once(c)`: around the last byte `c`
unfoldable pub rsplit_once : ℕ → Bytes → Option (Bytes × Bytes)
rsplit_once c [] = none
rsplit_once c (b ∷ s) = elim (rsplit_once c s) [
  | some pair ↦ some (b ∷ pair.0, pair.1)
  | none ↦ if b == c then some ([], s) else none
]

unfoldable pub strip_port : Bytes → Bytes
strip_port host = elim (rsplit_once 0x3a host) [
  | some pair ↦ if not (is_blank pair.0) then pair.0 else host
  | none ↦ host
]

-- `host.strip_suffix(suffix)`, the suffix first
unfoldable pub strip_suffix : Bytes → Bytes → Option Bytes
strip_suffix suffix [] = if is_blank suffix then some [] else none
strip_suffix suffix (b ∷ s) =
    let rest = strip_suffix suffix s in
    if same bytes_order (b ∷ s) suffix
    then some []
    else elim rest [ some prefix ↦ some (b ∷ prefix) | none ↦ none ]

-- The guards on the host's part before the endpoint.
abbrev pub one_label : Bytes → Option Bytes
one_label prefix = if is_blank prefix || has_byte 0x2e prefix then none else some prefix

unfoldable pub virtual_hosted_bucket : Bytes → Bytes → Option Bytes
virtual_hosted_bucket host endpoint = elim (strip_suffix (0x2e ∷ endpoint) host) [
  | some prefix ↦ one_label prefix
  | none ↦ none
]

-- `is_ascii_lowercase` or `is_ascii_digit`
abbrev pub is_alnum : ℕ → Bool
is_alnum b = (leb 0x61 b && leb b 0x7a) || (leb 0x30 b && leb b 0x39)

abbrev pub is_digit : ℕ → Bool
is_digit b = leb 0x30 b && leb b 0x39

-- `bytes[bytes.len() - 1]` of a text with a first byte
unfoldable pub last_byte : ℕ → Bytes → ℕ
last_byte b [] = b
last_byte b (c ∷ s) = last_byte c s

unfoldable pub all_numeric : List Bytes → Bool
all_numeric [] = true
all_numeric (p ∷ parts) = (not (is_blank p) && all_bytes is_digit p) && all_numeric parts

unfoldable pub is_ipv4_like : Bytes → Bool
is_ipv4_like name =
    if not (length (split 0x2e name) == 4) then false else all_numeric (split 0x2e name)

-- The function `invalid` of `validate_bucket_name`.
abbrev pub invalid : Bytes → S3Error
invalid reason = new_error invalid_bucket_name (bytes "invalid bucket name: " ++ reason)

-- The tests on a name with a first byte, which the length test has shown to be there.
abbrev pub validate_bytes : Bytes → Result S3Error (Unit {0})
validate_bytes [] = err (invalid (bytes "length must be 3-63 characters"))
validate_bytes (first ∷ rest) =
    if not (is_alnum first) || not (is_alnum (last_byte first rest))
    then err (invalid (bytes "must start and end with a letter or digit"))
    else if not (all_bytes (λ b. is_alnum b || b == 0x2d) (first ∷ rest))
    then err (invalid (bytes "only lowercase letters, digits, and hyphens are allowed"))
    else if is_ipv4_like (first ∷ rest)
    then err (invalid (bytes "must not be formatted as an IPv4 address"))
    else ok tt

unfoldable pub validate_bucket_name : Bytes → Result S3Error (Unit {0})
validate_bucket_name name =
    if not (leb 3 (length name) && leb (length name) 63)
    then err (invalid (bytes "length must be 3-63 characters"))
    else validate_bytes name

-- `uri_path.strip_prefix('/').unwrap_or(uri_path)`
abbrev pub trim_slash : Bytes → Bytes
trim_slash [] = []
trim_slash (b ∷ s) = if b == 0x2f then s else b ∷ s

-- `Some(text)` unless the text is empty.
abbrev pub non_empty : Bytes → Option Bytes
non_empty [] = none
non_empty (b ∷ s) = some (b ∷ s)

unfoldable pub path_to_key : Bytes → Option Bytes
path_to_key uri_path = non_empty (trim_slash uri_path)

-- The text before the first slash, and the text after it, if there is a slash.
unfoldable pub split_slash : Bytes → Bytes × Option Bytes
split_slash [] = ([], none)
split_slash (b ∷ s) =
    let (bucket, key) = split_slash s in if b == 0x2f then ([], some s) else (b ∷ bucket, key)

-- `key_raw.filter(|s| !s.is_empty())`
abbrev pub filter_empty : Option Bytes → Option Bytes
filter_empty none = none
filter_empty (some s) = non_empty s

abbrev pub bucket_and_key : Bytes × Option Bytes → Result S3Error Addressing
bucket_and_key (bucket_raw, key_raw) = do
  _ ← validate_bucket_name bucket_raw
  ok (record { bucket = some bucket_raw; key = filter_empty key_raw })

unfoldable pub path_style : Bytes → Result S3Error Addressing
path_style uri_path =
    if is_blank (trim_slash uri_path)
    then ok (record { bucket = none; key = none })
    else bucket_and_key (split_slash (trim_slash uri_path))

-- `host_header.map(strip_port).unwrap_or("")`
abbrev pub host_no_port : Option Bytes → Bytes
host_no_port none = []
host_no_port (some host) = strip_port host

-- The bucket of the host's subdomain, with `config.endpoint_host`.
abbrev pub hosted_bucket : Bytes → Option Bytes → Option Bytes
hosted_bucket host none = none
hosted_bucket host (some endpoint) =
    if is_blank endpoint then none else virtual_hosted_bucket host endpoint

-- `extract`; of the configuration it reads `endpoint_host` alone.
unfoldable pub extract : Option Bytes → Bytes → Option Bytes → Result S3Error Addressing
extract host_header uri_path endpoint_host =
    elim (hosted_bucket (host_no_port host_header) endpoint_host) [
      | some bucket ↦ do
        _ ← validate_bucket_name bucket
        ok (record { bucket = some bucket; key = path_to_key uri_path })
      | none ↦ path_style uri_path
    ]
